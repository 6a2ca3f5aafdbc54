-- ===== src/PathSafety/Plain.antt =====
-- The components of a relative path are single names.
use lan_bridge.Base.{
  String, Bool, false, ◌||◌, Option, none, some, List, [], ◌∷◌, ◌≡◌, ◌≢◌, refl, sym, inl, inr, ◌==◌,
  string_eq, Bool-cases, All, eqb,
}
use lan_bridge.Base.Text.{split, add_char, contains_char, is_empty, ends_with}
use Prim.Native.Char.{Char, code}
use mathlib.Core.Option.{some-injective, none-ne-some}
use lan_bridge.PathSafety.{
  FilePath, Component, root_dir, cur_dir, parent_dir, normal, component, components,
  components_of_pieces, inner_components, starts_at_root, validate_safe_component,
}
use lan_bridge.PathSafety.Join.{names_of, IsSafeName}

-- One name of a path: it has no `/`, and it is not `.` or `..`.
abbrev pub IsPlainName : String → Type 0
IsPlainName name = (contains_char b'/' name ≡ false) × (name ≢ ".") × (name ≢ "..")

abbrev HasNoSlash : Component → Type 0
HasNoSlash (normal name) = contains_char b'/' name ≡ false
HasNoSlash root_dir = Unit
HasNoSlash cur_dir = Unit
HasNoSlash parent_dir = Unit

abbrev IsPiece : String → Type 0
IsPiece piece = contains_char b'/' piece ≡ false

add_char-All :
    (c : Char) (ps : List String)
    → Path Bool (eqb (code c) b'/') false
    → All IsPiece ps
    → All IsPiece (add_char c ps)
unfolding contains_char
add_char-All c [] h k = (rw h refl, tt)
add_char-All c (p ∷ ps) h k = (rw h k.0, k.1)

split-All : (s : String) → All IsPiece (split b'/' s)
unfolding split contains_char
split-All String.[] = (refl, tt)
split-All (String.◌∷◌ c s) = elim (Bool-cases (eqb (code c) b'/')) [
  | inl slash ↦ rw slash (refl, split-All s)
  | inr other ↦ rw other (add_char-All c (split b'/' s) other (split-All s))
]

component-HasNoSlash : (piece : String) → IsPiece piece → HasNoSlash (component piece)
component-HasNoSlash piece h = elim (Bool-cases (piece == "..")) [
  | inl up ↦ rw up tt
  | inr name ↦ rw name h
]

inner_components-All : (ps : List String) → All IsPiece ps → All HasNoSlash (inner_components ps)
unfolding inner_components
inner_components-All [] h = tt
inner_components-All (p ∷ ps) h = elim (Bool-cases (is_empty p || p == ".")) [
  | inl dropped ↦ rw dropped (inner_components-All ps h.1)
  | inr kept ↦ rw kept (component-HasNoSlash p h.0, inner_components-All ps h.1)
]

components_of_pieces-All :
    (ps : List String) → All IsPiece ps → All HasNoSlash (components_of_pieces ps)
unfolding components_of_pieces
components_of_pieces-All [] h = tt
components_of_pieces-All (p ∷ ps) h = elim (Bool-cases (p == ".")) [
  | inl here ↦ rw here (tt, inner_components-All ps h.1)
  | inr other ↦ rw other (inner_components-All (p ∷ ps) h)
]

starts_at_root-All :
    (ps : List String) (cs : List Component)
    → All IsPiece ps
    → All HasNoSlash cs
    → All HasNoSlash (starts_at_root ps cs)
starts_at_root-All [] cs h k = k
starts_at_root-All (String.[] ∷ []) cs h k = k
starts_at_root-All (String.[] ∷ p ∷ ps) cs h k = (tt, inner_components-All (p ∷ ps) h.1)
starts_at_root-All (String.◌∷◌ c p ∷ ps) cs h k = k

pub components-All : (path : String) → All HasNoSlash (components path)
unfolding components
components-All path =
    starts_at_root-All (split b'/' path) (components_of_pieces (split b'/' path)) (split-All path)
      (components_of_pieces-All (split b'/' path) (split-All path))

pub names_of-All :
    (cs : List Component) (names : FilePath)
    → names_of cs ≡ some names
    → All HasNoSlash cs
    → All IsPiece names
names_of-All [] names h k = rw (sym (some-injective [] names h)) tt
names_of-All (normal name ∷ rest) names h k =
    go (names_of rest) h (λ others e. names_of-All rest others e k.1)
  where
    go :
        (others : Option FilePath)
        → (elim others as (λ _. Option FilePath) [ none ↦ none | some more ↦ some (name ∷ more) ])
          ≡ some names
        → ((more : FilePath) → others ≡ some more → All IsPiece more)
        → All IsPiece names
    go none h ih = absurd (none-ne-some names h)
    go (some more) h ih = rw (sym (some-injective (name ∷ more) names h)) (k.0, ih more refl)
names_of-All (cur_dir ∷ rest) names h k = names_of-All rest names h k.1
names_of-All (root_dir ∷ rest) names h k = absurd (none-ne-some names h)
names_of-All (parent_dir ∷ rest) names h k = absurd (none-ne-some names h)

-- A name that ends in a dot is refused, so these two are.
not_dot : (name : String) → IsSafeName name → (name ≢ ".") × (name ≢ "..")
unfolding validate_safe_component ends_with
not_dot name safe =
    (λ e. none-ne-some _ (sym (rw e at safe)), λ e. none-ne-some _ (sym (rw e at safe)))

pub All-IsPlainName :
    (names : FilePath) → All IsPiece names → All IsSafeName names → All IsPlainName names
All-IsPlainName [] h k = tt
All-IsPlainName (name ∷ names) h k =
    let (dot, dots) = not_dot name k.0 in ((h.0, dot, dots), All-IsPlainName names h.1 k.1)
