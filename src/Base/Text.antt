-- ===== src/Base/Text.antt =====
-- Operations of `str` that the program calls, by recursion on the characters.
use lan_bridge.Base.Tests.{leb, eqb, eqb_iff, if◌then◌else◌, Bool-cases}
use lan_bridge.Base.Equality.{◌==◌, string_eq}
use lan_bridge.Base.Lists.{filter}
use Prim.Native.Char.{Char, code}
use Prim.Native.Nat.{ℕ, zero, suc, ◌-◌, ◌+◌}
use Prim.Native.String.{String, ◌++◌ as ◌<>◌}
use mathlib.Core.Path.{◌≡◌, refl, sym, ap₂, ◌∙◌}
use mathlib.Core.Bool.{Bool, true, false, ◌||◌, ◌&&◌, not}
use mathlib.Core.Logic.{inl, inr}
use mathlib.Core.Option.{Option, none, some, some-injective, none-ne-some}
use mathlib.Core.List.{List, [], ◌∷◌}
use text.Mathlib.TextEquality.{Char-path}
use text.Mathlib.TextLemmas.{nil-append, cons-append}

-- `text.strip_prefix(prefix)`
unfoldable pub strip_prefix : String → String → Option String
strip_prefix String.[] s = some s
strip_prefix (String.◌∷◌ c p) String.[] = none
strip_prefix (String.◌∷◌ c p) (String.◌∷◌ d s) =
    if eqb (code c) (code d) then strip_prefix p s else none

-- `text.starts_with(prefix)`
abbrev pub starts_with : String → String → Bool
starts_with s p = elim (strip_prefix p s) [ none ↦ false | some _ ↦ true ]

-- `text.ends_with(suffix)`
unfoldable pub ends_with : String → String → Bool
ends_with String.[] t = String.[] == t
ends_with (String.◌∷◌ c s) t = String.◌∷◌ c s == t || ends_with s t

-- `text.contains(piece)`
unfoldable pub contains_text : String → String → Bool
contains_text String.[] t = starts_with String.[] t
contains_text (String.◌∷◌ c s) t = starts_with (String.◌∷◌ c s) t || contains_text s t

-- The first piece grows by one character.
abbrev pub add_char : Char → List String → List String
add_char c [] = String.◌∷◌ c String.[] ∷ []
add_char c (p ∷ ps) = String.◌∷◌ c p ∷ ps

-- `text.split(separator)` for a separator of one character.
unfoldable pub split : ℕ → String → List String
split sep String.[] = String.[] ∷ []
split sep (String.◌∷◌ c s) =
    let rest = split sep s in if eqb (code c) sep then String.[] ∷ rest else add_char c rest

abbrev pub is_empty : String → Bool
is_empty String.[] = true
is_empty (String.◌∷◌ c s) = false

-- `path.split('/').filter(|part| !part.is_empty())`
unfoldable pub parts : String → List String
unfolding split filter
parts path = filter (λ part. not (is_empty part)) (split b'/' path)

-- What is stripped and what is left make up the text.
pub strip_prefix-append : (p s r : String) → strip_prefix p s ≡ some r → s ≡ p <> r
unfolding strip_prefix
strip_prefix-append String.[] s r h = some-injective s r h ∙ sym (nil-append r)
strip_prefix-append (String.◌∷◌ c p) String.[] r h = cc
strip_prefix-append (String.◌∷◌ c p) (String.◌∷◌ d s) r h =
    elim (Bool-cases (eqb (code c) (code d))) [
      | inl same ↦ rw cons-append (
          ap₂ String.◌∷◌ (sym (Char-path c d ((eqb_iff (code c) (code d)).0 same)))
            (strip_prefix-append p s r (rw same at h)))
      | inr differ ↦ absurd (none-ne-some r (rw differ at h))
    ]

pub strip_prefix_self : (p r : String) → strip_prefix p (p <> r) ≡ some r
unfolding strip_prefix
strip_prefix_self String.[] r = rw nil-append
strip_prefix_self (String.◌∷◌ c p) r =
    rw (cons-append, (eqb_iff (code c) (code c)).1 refl) (strip_prefix_self p r)

-- Proper descent in a tree of paths: `path.strip_prefix(parent)` is followed by `/`.
unfoldable pub slash_follows : Option String → Bool
slash_follows none = false
slash_follows (some suffix) = starts_with suffix "/"

-- `text.split_once(separator)` for a separator of one character.
unfoldable pub split_once : ℕ → String → Option (String × String)
split_once sep String.[] = none
split_once sep (String.◌∷◌ c s) =
    let rest = split_once sep s in
    if eqb (code c) sep
    then some (String.[], s)
    else elim rest [ none ↦ none | some (before, behind) ↦ some (String.◌∷◌ c before, behind) ]

-- The pieces of `text.splitn(count, separator)`.
unfoldable pub splitn : ℕ → ℕ → String → List String
splitn zero sep s = []
splitn (suc zero) sep s = s ∷ []
splitn (suc (suc n)) sep s = elim (split_once sep s) [
  | none ↦ s ∷ []
  | some (before, behind) ↦ before ∷ splitn (suc n) sep behind
]

unfoldable pub contains_char : ℕ → String → Bool
contains_char n String.[] = false
contains_char n (String.◌∷◌ c s) = eqb (code c) n || contains_char n s

-- The text is split at the first separator.
pub split_once-append :
    (a b : String) (sep : Char)
    → contains_char (code sep) a ≡ false
    → split_once (code sep) (a <> (String.◌∷◌ sep b)) ≡ some (a, b)
unfolding split_once contains_char
split_once-append String.[] b sep h = rw (nil-append, (eqb_iff (code sep) (code sep)).1 refl) refl
split_once-append (String.◌∷◌ c a) b sep h = elim (Bool-cases (eqb (code c) (code sep))) [
  | inl same ↦ cc
  | inr differ ↦ rw (cons-append, differ) (rw (split_once-append a b sep (rw differ at h)) refl)
]

-- `text` cut at its last `separator`, which is in neither part.
unfoldable pub rsplit_once : ℕ → String → Option (String × String)
rsplit_once sep String.[] = none
rsplit_once sep (String.◌∷◌ c s) = elim (rsplit_once sep s) [
  | some (before, after) ↦ some (String.◌∷◌ c before, after)
  | none ↦ if eqb (code c) sep then some (String.[], s) else none
]

rsplit_once-none :
    (b : String) (sep : Char) → contains_char (code sep) b ≡ false → rsplit_once (code sep) b ≡ none
unfolding rsplit_once contains_char
rsplit_once-none String.[] sep h = refl
rsplit_once-none (String.◌∷◌ c b) sep h = elim (Bool-cases (eqb (code c) (code sep))) [
  | inl same ↦ cc
  | inr differ ↦ rw (rsplit_once-none b sep (rw differ at h)) (rw differ refl)
]

-- A text whose last part has no separator is cut there.
pub rsplit_once_last :
    (a b : String) (sep : Char)
    → contains_char (code sep) b ≡ false
    → rsplit_once (code sep) (a <> (String.◌∷◌ sep b)) ≡ some (a, b)
unfolding rsplit_once
rsplit_once_last String.[] b sep h =
    rw nil-append (rw (rsplit_once-none b sep h) (rw ((eqb_iff (code sep) (code sep)).1 refl) refl))
rsplit_once_last (String.◌∷◌ c a) b sep h =
    rw (cons-append, rsplit_once_last a b sep h, rsplit_once) refl

abbrev upper_code : ℕ → ℕ
upper_code n = if leb b'a' n && leb n b'z' then n - 32 else n

-- Whether `text.to_ascii_uppercase()` is the other text.
unfoldable pub is_uppercase_of : String → String → Bool
is_uppercase_of String.[] String.[] = true
is_uppercase_of String.[] (String.◌∷◌ d s) = false
is_uppercase_of (String.◌∷◌ c p) String.[] = false
is_uppercase_of (String.◌∷◌ c p) (String.◌∷◌ d s) =
    eqb (upper_code (code c)) (code d) && is_uppercase_of p s

abbrev lower_code : ℕ → ℕ
lower_code n = if leb b'A' n && leb n b'Z' then n + 32 else n

-- `text.to_ascii_lowercase().starts_with(prefix)`
unfoldable pub lower_starts_with : String → String → Bool
lower_starts_with s String.[] = true
lower_starts_with String.[] (String.◌∷◌ d p) = false
lower_starts_with (String.◌∷◌ c s) (String.◌∷◌ d p) =
    eqb (lower_code (code c)) (code d) && lower_starts_with s p

-- `text.to_ascii_lowercase().contains(piece)`
unfoldable pub lower_contains : String → String → Bool
lower_contains String.[] t = lower_starts_with String.[] t
lower_contains (String.◌∷◌ c s) t = lower_starts_with (String.◌∷◌ c s) t || lower_contains s t
