-- ===== src/PathSafety/Guards/Validation.antt =====
-- What the guard of a mutation notices, and that a prepared mutation has one.
use lan_bridge.Base.{
  String, true, false, Option, none, some, List, [], ◌∷◌, ◌++◌, ◌≡◌, refl, sym, ap, ◌∙◌, ◌⊎◌, ◌↔◌,
  inl, inr, arith, Bool-cases, Option-cases, All, eqb_iff,
}
use mathlib.Core.Path.{subst}
use mathlib.Core.Option.{none-ne-some}
use mathlib.Core.Sum.{inr-injective, inl-ne-inr}
use lan_bridge.PathSafety.{
  FilePath, FileSystem, Metadata, found, PathError, identity_changed, is_link,
}
use lan_bridge.PathSafety.Links.{strip_root-append}
use lan_bridge.PathSafety.Parents.{create_safe_parent_dirs, AreDirectories}
use lan_bridge.PathSafety.Parents.Made.{create_safe_parent_dirs-AreDirectories}
use lan_bridge.PathSafety.Parents.Kept.{IsKept, create_safe_parent_dirs_keeps, parent-append}
use lan_bridge.PathSafety.Guards.{
  Identity, Guard, same_identity, compare_identity, with_identity, directory_identity, capture_from,
  capture, validate, captured, prepare_mutation,
}

-- The paths from the first down through the names.
abbrev pub paths_down : FilePath → FilePath → List FilePath
paths_down current [] = current ∷ []
paths_down current (name ∷ names) = current ∷ paths_down (current ++ (name ∷ [])) names

-- The directory at the path is the same in both.
abbrev pub IsSameDirectory : FileSystem → FileSystem → FilePath → Type 0
IsSameDirectory fs later path =
    (identity : Identity) × (directory_identity fs path ≡ inr identity)
    × (directory_identity later path ≡ inr identity)

same_identity_iff : (a b : Identity) → (same_identity a b ≡ true) ↔ (a ≡ b)
same_identity_iff (a, b) (c, d) =
    (λ h. ground (arith, eqb_iff a c, eqb_iff b d), λ h. ground (arith, eqb_iff a c, eqb_iff b d))

compare_identity-none_iff :
    (expected : Identity) (current : PathError ⊎ Identity)
    → (compare_identity expected current ≡ none) ↔ (current ≡ inr expected)
compare_identity-none_iff expected (inl error) =
    (λ h. absurd (none-ne-some error (sym h)), λ h. absurd (inl-ne-inr h))
compare_identity-none_iff expected (inr current) = (
  λ h. elim (Bool-cases (same_identity current expected)) [
    | inl same ↦ ap inr ((same_identity_iff current expected).0 same)
    | inr differ ↦ absurd (none-ne-some identity_changed (sym (rw (differ, compare_identity) at h)))
  ],
  λ h.
      rw
        (
          (same_identity_iff current expected).1 (inr-injective current expected h),
          compare_identity,
        )
        refl,
)

validate-cons_iff :
    (fs : FileSystem) (path : FilePath) (identity : Identity) (guard : Guard)
    → (validate fs ((path, identity) ∷ guard) ≡ none)
      ↔ ((directory_identity fs path ≡ inr identity) × (validate fs guard ≡ none))
unfolding validate
validate-cons_iff fs path identity guard = (
  λ h. elim (Option-cases (compare_identity identity (directory_identity fs path))) [
    | inl same ↦ (
      (compare_identity-none_iff identity (directory_identity fs path)).0 same,
      rw (same, validate) at h,
    )
    | inr (error, bad) ↦ absurd (none-ne-some error (sym (rw (bad, validate) at h)))
  ],
  λ h. rw ((compare_identity-none_iff identity (directory_identity fs path)).1 h.0, validate) h.1,
)

with_identity-ok :
    (path : FilePath) (identity : PathError ⊎ Identity) (rest : PathError ⊎ Guard) (guard : Guard)
    → with_identity path identity rest ≡ inr guard
    → (i : Identity) × (g : Guard) × (identity ≡ inr i) × (rest ≡ inr g) × (guard ≡ (path, i) ∷ g)
with_identity-ok path (inl error) rest guard h = absurd (inl-ne-inr h)
with_identity-ok path (inr i) (inl error) guard h = absurd (inl-ne-inr h)
with_identity-ok path (inr i) (inr g) guard h =
    (i, g, refl, refl, sym (inr-injective ((path, i) ∷ g) guard h))

validate-step :
    (fs later : FileSystem) (path : FilePath) (paths : List FilePath) (i : Identity) (g : Guard)
    → directory_identity fs path ≡ inr i
    → (validate later g ≡ none) ↔ All (IsSameDirectory fs later) paths
    → (validate later ((path, i) ∷ g) ≡ none) ↔ All (IsSameDirectory fs later) (path ∷ paths)
validate-step fs later path paths i g own ih = (
  λ h. let (same, rest) = (validate-cons_iff later path i g).0 h in ((i, own, same), ih.0 rest),
  λ ((j, before, after), rest).
      let equal : j ≡ i = inr-injective j i (sym before ∙ own) in
      (validate-cons_iff later path i g).1 (after ∙ ap inr equal, ih.1 rest),
)

validate-capture_from_iff :
    (fs later : FileSystem) (current names : FilePath) (guard : Guard)
    → capture_from fs current names ≡ inr guard
    → (validate later guard ≡ none) ↔ All (IsSameDirectory fs later) (paths_down current names)
unfolding capture_from validate
validate-capture_from_iff fs later current [] guard h =
    let (i, g, own, rest, made) =
      with_identity-ok current (directory_identity fs current) (inr []) guard h in
    let empty : [] ≡ g = inr-injective [] g rest in
    rw (made, sym empty) (validate-step fs later current [] i [] own ((λ _. tt), (λ _. refl)))
validate-capture_from_iff fs later current (name ∷ names) guard h =
    let next = current ++ (name ∷ []) in
    let (i, g, own, rest, made) =
      with_identity-ok current (directory_identity fs current) (capture_from fs next names) guard
        h in
    rw made (
      validate-step fs later current (paths_down next names) i g own
        (validate-capture_from_iff fs later next names g rest))

capture-below :
    (fs : FileSystem) (root names : FilePath) (leaf : String)
    → capture fs root ((root ++ names) ++ (leaf ∷ [])) ≡ capture_from fs root names
unfolding capture
capture-below fs root names leaf =
    rw (parent-append (root ++ names) leaf, capture, strip_root-append root names) refl

directory_identity-of_directory :
    (fs : FileSystem) (path : FilePath) (m : Metadata)
    → fs.symlink_metadata path ≡ found m
    → m.is_dir ≡ true
    → is_link m ≡ false
    → directory_identity fs path ≡ inr m.identity
unfolding directory_identity
directory_identity-of_directory fs path m e dir plain = rw (e, plain, dir) refl

capture_from-AreDirectories :
    (fs : FileSystem) (current names : FilePath) (m : Metadata)
    → fs.symlink_metadata current ≡ found m
    → m.is_dir ≡ true
    → is_link m ≡ false
    → AreDirectories fs current names
    → (guard : Guard) × (capture_from fs current names ≡ inr guard) × (validate fs guard ≡ none)
unfolding capture_from validate
capture_from-AreDirectories fs current [] m e dir plain h =
    let own = directory_identity-of_directory fs current m e dir plain in
    (
      (current, m.identity) ∷ [],
      rw (own, with_identity) refl,
      (validate-cons_iff fs current m.identity []).1 (own, refl),
    )
capture_from-AreDirectories fs current (name ∷ names) m e dir plain
      ((n, there, is_dir, no_link), h) =
    let own = directory_identity-of_directory fs current m e dir plain in
    let (guard, same, valid) =
      capture_from-AreDirectories fs (current ++ (name ∷ [])) names n there is_dir no_link h in
    (
      (current, m.identity) ∷ guard,
      rw (own, same, with_identity) refl,
      (validate-cons_iff fs current m.identity guard).1 (own, valid),
    )

-- The laws of `std::fs::create_dir`.
module _ {W : Type 0} (view : W → FileSystem) (create_dir : FilePath → W → W × Option String) where
  captured-ok :
      (root destination : FilePath) (r : W × Option PathError) (guard : Guard)
      → (captured view create_dir root destination r).1 ≡ inr guard
      → (capture (view (captured view create_dir root destination r).0) root destination
          ≡ inr guard)
  captured-ok root destination (w, some error) guard h = absurd (inl-ne-inr h)
  captured-ok root destination (w, none) guard h = h

  captured-none :
      (root destination : FilePath) (r : W × Option PathError)
      → r.1 ≡ none
      → captured view create_dir root destination r ≡ (r.0, capture (view r.0) root destination)
  captured-none root destination (w, some error) h = absurd (none-ne-some error (sym h))
  captured-none root destination (w, none) h = refl

  -- The guard of a prepared mutation is valid later exactly when the root and each directory down to
  -- the destination are then the same directories as when the mutation was prepared.
  pub prepare_mutation-validate_iff :
      (root names : FilePath) (leaf : String) (w : W) (guard : Guard) (later : FileSystem)
      → (prepare_mutation view create_dir root ((root ++ names) ++ (leaf ∷ [])) w).1 ≡ inr guard
      → (validate later guard ≡ none)
        ↔ All
            (IsSameDirectory
              (view (prepare_mutation view create_dir root ((root ++ names) ++ (leaf ∷ [])) w).0)
              later)
            (paths_down root names)
  unfolding prepare_mutation
  prepare_mutation-validate_iff root names leaf w guard later h =
      let destination = (root ++ names) ++ (leaf ∷ []) in
      let r = create_safe_parent_dirs view create_dir root destination w in
      let fs = view (captured view create_dir root destination r).0 in
      let made : capture fs root destination ≡ inr guard = captured-ok root destination r guard h in
      validate-capture_from_iff fs later root names guard
        (sym (capture-below fs root names leaf) ∙ made)

module _ {W : Type 0} (view : W → FileSystem) (create_dir : FilePath → W → W × Option String)
    (keeps : (path : FilePath) (w : W) → IsKept (view w) (view (create_dir path w).0))
    (makes : (path : FilePath) (w : W)
      → (create_dir path w).1 ≡ none
      → (m : Metadata) × ((view (create_dir path w).0).symlink_metadata path ≡ found m)
        × (m.is_dir ≡ true)) where
  -- If the parents of a destination can be made below a root that is a directory and no link, the
  -- mutation is prepared, and its guard is valid until something changes.
  pub prepare_mutation_succeeds :
      (root names : FilePath) (leaf : String) (w : W) (m : Metadata)
      → (view w).symlink_metadata root ≡ found m
      → m.is_dir ≡ true
      → is_link m ≡ false
      → (create_safe_parent_dirs view create_dir root ((root ++ names) ++ (leaf ∷ [])) w).1 ≡ none
      → (guard : Guard) × ((prepare_mutation view create_dir root
            ((root ++ names) ++ (leaf ∷ []))
            w).1
          ≡ inr guard)
        × (validate
              (view (prepare_mutation view create_dir root ((root ++ names) ++ (leaf ∷ [])) w).0)
              guard
            ≡ none)
  unfolding prepare_mutation
  prepare_mutation_succeeds root names leaf w m e dir plain h =
      let destination = (root ++ names) ++ (leaf ∷ []) in
      let r = create_safe_parent_dirs view create_dir root destination w in
      let kept : (view r.0).symlink_metadata root ≡ found m =
        create_safe_parent_dirs_keeps view create_dir keeps root destination root w m e in
      let (below, boundary) =
        create_safe_parent_dirs-AreDirectories view create_dir keeps makes root names leaf w h in
      let (guard, made, valid) =
        capture_from-AreDirectories (view r.0) root names m kept dir plain below in
      let same = captured-none view create_dir root destination r h in
      (
        guard,
        ap (λ (x : W × (PathError ⊎ Guard)). x.1) same
            ∙ capture-below (view r.0) root names leaf
            ∙ made,
        subst (λ (x : W × (PathError ⊎ Guard)). validate (view x.0) guard ≡ none) (sym same) valid,
      )
