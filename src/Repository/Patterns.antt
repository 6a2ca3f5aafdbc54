-- ===== src/Repository/Patterns.antt =====
-- What a pattern that ends in the escaped text of a path and `/%` matches, by what SQLite documents of
-- LIKE with an escape character.
use lan_bridge.Base.{
  ◌<>◌, String, Bool, true, false, ◌&&◌, some, ◌≡◌, inl, inr, refl, sym, arith, eqb, eqb_iff,
  Bool-cases, string_eq,
}
use lan_bridge.Base.Text.{strip_prefix, slash_follows, is_empty}
use mathlib.Core.Bool.{true≢false}
use Prim.Native.Char.{Char, code}
use text.Mathlib.TextLemmas.{cons-append}
use lan_bridge.Actions.{is_descendant_path}
use lan_bridge.Repository.Trees.{trim_end_slashes, is_special, escaped, escaped_tree_like_pattern}

-- `text LIKE pattern ESCAPE '\'`: a `%` at the end matches any text, the escape character before
-- itself, `%` or `_` matches that character, and every other character matches itself.
pub record IsLike (like : String → String → Bool) : Type 0 where
  pub percent : (own : String) → like own "%" ≡ true
  pub escape :
      (o c : Char) (own pattern : String)
      → is_special c ≡ true
      → eqb (code o) (code c) ≡ true
      → like own pattern ≡ true
      → like (String.◌∷◌ o own) (String.◌∷◌ "\\" (String.◌∷◌ c pattern)) ≡ true
  pub same :
      (o c : Char) (own pattern : String)
      → is_special c ≡ false
      → eqb (code o) (code c) ≡ true
      → like own pattern ≡ true
      → like (String.◌∷◌ o own) (String.◌∷◌ c pattern) ≡ true

module _ (like : String → String → Bool) (laws : IsLike like) where
  slash_matches : (suffix : String) → slash_follows (some suffix) ≡ true → like suffix "/%" ≡ true
  unfolding strip_prefix slash_follows
  slash_matches String.[] h = absurd (true≢false (sym h))
  slash_matches (String.◌∷◌ o own) h =
      laws.same o "/" own "%" refl
        ((eqb_iff (code o) b'/').1 (sym ((eqb_iff b'/' (code o)).0 (ground arith))))
        (laws.percent own)

  char_matches :
      (o c : Char) (own pattern : String)
      → eqb (code c) (code o) ≡ true
      → like own (escaped pattern <> "/%") ≡ true
      → like (String.◌∷◌ o own) (escaped (String.◌∷◌ c pattern) <> "/%") ≡ true
  unfolding escaped
  char_matches o c own pattern same h =
      let back : eqb (code o) (code c) ≡ true =
        (eqb_iff (code o) (code c)).1 (sym ((eqb_iff (code c) (code o)).0 same)) in
      elim (Bool-cases (is_special c)) [
        | inl special ↦
            rw (special, cons-append, cons-append)
              (laws.escape o c own (escaped pattern <> "/%") special back h)
        | inr plain ↦
            rw (plain, cons-append) (laws.same o c own (escaped pattern <> "/%") plain back h)
      ]

  tree_matches :
      (own path : String)
      → slash_follows (strip_prefix path own) ≡ true
      → like own (escaped (trim_end_slashes path) <> "/%") ≡ true
  unfolding strip_prefix trim_end_slashes escaped slash_follows
  tree_matches own String.[] h = slash_matches own h
  tree_matches String.[] (String.◌∷◌ c path) h = absurd (true≢false (sym h))
  tree_matches (String.◌∷◌ o own) (String.◌∷◌ c path) h =
      elim (Bool-cases (eqb (code c) (code o))) [
        | inr differs ↦ absurd (true≢false (sym (rw (differs, strip_prefix) at h)))
        | inl same ↦
            let ih = tree_matches own path (rw (same, strip_prefix) at h) in
            elim (Bool-cases (eqb (code c) b'/' && is_empty (trim_end_slashes path))) [
              | inl slash ↦ rw slash (
                  laws.same o "/" own "%" refl
                    (rw
                      (
                        sym ((eqb_iff (code c) (code o)).0 same),
                        (eqb_iff (code c) b'/').0 (ground arith),
                      )
                      refl)
                    (laws.percent own))
              | inr other ↦ rw other (char_matches o c own (trim_end_slashes path) same ih)
            ]
      ]

  -- The pattern of a path matches what lies below the path.
  pub escaped_tree_like_pattern-below :
      (own path : String)
      → is_descendant_path own path ≡ true
      → like own (escaped_tree_like_pattern path) ≡ true
  unfolding is_descendant_path escaped_tree_like_pattern
  escaped_tree_like_pattern-below own path h = tree_matches own path h
