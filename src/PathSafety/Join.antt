-- ===== src/PathSafety/Join.antt =====
-- What `safe_join` lets through, and that it lets through all of that.
use lan_bridge.Base.{
  String, Option, none, some, List, [], ◌∷◌, ◌++◌, ◌≡◌, ◌≢◌, refl, sym, ap, ◌⊎◌, ◌↔◌, inl, inr,
  string_eq, All, Option-cases,
}
use mathlib.Core.Option.{some-injective, none-ne-some}
use mathlib.Core.Sum.{inr-injective, inl-ne-inr}
use mathlib.Core.List.{cons-ne-nil}
use lan_bridge.PathSafety.{
  FilePath, FileSystem, PathError, Component, root_dir, cur_dir, parent_dir, normal, components,
  pushed_names, prepend, validate_safe_component, validate_filesystem_boundary, joined, safe_join,
}

-- The names that the components name, if there is no way up and no root among them.
abbrev pub names_of : List Component → Option FilePath
names_of [] = some []
names_of (normal name ∷ rest) = elim (names_of rest) [
  | none ↦ none
  | some names ↦ some (name ∷ names)
]
names_of (cur_dir ∷ rest) = names_of rest
names_of (root_dir ∷ rest) = none
names_of (parent_dir ∷ rest) = none

abbrev pub IsSafeName : String → Type 0
IsSafeName name = validate_safe_component name ≡ none

prepend-ok :
    (name : String) (others : PathError ⊎ FilePath) (names : FilePath)
    → prepend name others ≡ inr names
    → (rest : FilePath) × (others ≡ inr rest) × (names ≡ name ∷ rest)
prepend-ok name (inl error) names h = absurd (inl-ne-inr h)
prepend-ok name (inr rest) names h = (rest, refl, sym (inr-injective (name ∷ rest) names h))

pushed_names_sound :
    (cs : List Component) (names : FilePath)
    → pushed_names cs ≡ inr names
    → (names_of cs ≡ some names) × All IsSafeName names
unfolding pushed_names
pushed_names_sound [] names h = rw (sym (inr-injective [] names h)) (refl, tt)
pushed_names_sound (normal name ∷ rest) names h =
    elim (Option-cases (validate_safe_component name)) [
      | inl safe ↦
          let (others, same, made) =
            prepend-ok name (pushed_names rest) names (rw (safe, pushed_names) at h) in
          let (named, all_safe) = pushed_names_sound rest others same in
          rw (made, named) (refl, (safe, all_safe))
      | inr (error, bad) ↦ absurd (inl-ne-inr (rw (bad, pushed_names) at h))
    ]
pushed_names_sound (cur_dir ∷ rest) names h = pushed_names_sound rest names h
pushed_names_sound (root_dir ∷ rest) names h = absurd (inl-ne-inr h)
pushed_names_sound (parent_dir ∷ rest) names h = absurd (inl-ne-inr h)

cons_of_some :
    (name : String) (found : Option FilePath) (names : FilePath)
    → (elim found as (λ _. Option FilePath) [ none ↦ none | some others ↦ some (name ∷ others) ])
      ≡ some names
    → (others : FilePath) × (found ≡ some others) × (names ≡ name ∷ others)
cons_of_some name none names h = absurd (none-ne-some names h)
cons_of_some name (some others) names h =
    (others, refl, sym (some-injective (name ∷ others) names h))

pushed_names_complete :
    (cs : List Component) (names : FilePath)
    → names_of cs ≡ some names
    → All IsSafeName names
    → pushed_names cs ≡ inr names
unfolding pushed_names
pushed_names_complete [] names h k = ap inr (some-injective [] names h)
pushed_names_complete (normal name ∷ rest) names h k =
    let (others, named, made) = cons_of_some name (names_of rest) names h in
    let safe : IsSafeName name × All IsSafeName others = rw made at k in
    rw (safe.0, pushed_names_complete rest others named safe.1, made, pushed_names) refl
pushed_names_complete (cur_dir ∷ rest) names h k = pushed_names_complete rest names h k
pushed_names_complete (root_dir ∷ rest) names h k = absurd (none-ne-some names h)
pushed_names_complete (parent_dir ∷ rest) names h k = absurd (none-ne-some names h)

-- What a path joined to a root must be.
abbrev pub IsJoin : FileSystem → FilePath → String → FilePath → Type 0
IsJoin fs root relative_path dest =
    (names : FilePath) × (names_of (components relative_path) ≡ some names)
    × (names ≢ [])
    × All IsSafeName names
    × (dest ≡ root ++ names)
    × (validate_filesystem_boundary fs root dest ≡ none)

joined_sound :
    (fs : FileSystem) (root : FilePath) (pushed : PathError ⊎ FilePath) (dest : FilePath)
    → joined fs root pushed ≡ inr dest
    → (names : FilePath) × (pushed ≡ inr names)
      × (names ≢ [])
      × (dest ≡ root ++ names)
      × (validate_filesystem_boundary fs root dest ≡ none)
joined_sound fs root (inl error) dest h = absurd (inl-ne-inr h)
joined_sound fs root (inr []) dest h = absurd (inl-ne-inr h)
joined_sound fs root (inr (name ∷ names)) dest h =
    elim (Option-cases (validate_filesystem_boundary fs root (root ++ (name ∷ names)))) [
      | inl safe ↦
          let made : root ++ (name ∷ names) ≡ dest =
            inr-injective (root ++ (name ∷ names)) dest (rw (safe, joined) at h) in
          (name ∷ names, refl, cons-ne-nil name names, sym made, rw (sym made) safe)
      | inr (error, bad) ↦ absurd (inl-ne-inr (rw (bad, joined) at h))
    ]

joined_complete :
    (fs : FileSystem) (root names : FilePath)
    → names ≢ []
    → validate_filesystem_boundary fs root (root ++ names) ≡ none
    → joined fs root (inr names) ≡ inr (root ++ names)
joined_complete fs root [] h k = absurd (h refl)
joined_complete fs root (name ∷ names) h k = rw (k, joined) refl

-- A path is joined to a root exactly when its components are names, at least one, each of them
-- acceptable, and nothing between the root and the result leads outside. The result is the root
-- followed by these names.
pub safe_join-ok_iff :
    (fs : FileSystem) (root : FilePath) (relative_path : String) (dest : FilePath)
    → (safe_join fs root relative_path ≡ inr dest) ↔ IsJoin fs root relative_path dest
unfolding safe_join
safe_join-ok_iff fs root relative_path dest = (
  λ h.
      let (names, pushed, some_name, made, inside) =
        joined_sound fs root (pushed_names (components relative_path)) dest h in
      let (named, safe) = pushed_names_sound (components relative_path) names pushed in
      (names, named, some_name, safe, made, inside),
  λ (names, named, some_name, safe, made, inside).
      rw (pushed_names_complete (components relative_path) names named safe, made)
        (joined_complete fs root names some_name (rw made at inside)),
)
