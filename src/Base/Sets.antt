-- ===== src/Base/Sets.antt =====
-- A `HashSet` as the list of its elements.
use lan_bridge.Base.Tests.{if◌then◌else◌, Bool-cases}
use lan_bridge.Base.Equality.{Eq, ◌==◌}
use lan_bridge.Base.Lists.{any, filter}
use mathlib.Core.Path.{◌≡◌, refl}
use mathlib.Core.Logic.{inl, inr}
use mathlib.Core.Bool.{Bool, ◌&&◌, ◌||◌, not}
use mathlib.Core.List.{List, [], ◌∷◌}
use native.Mathlib.Omega.{arith}

abbrev pub HashSet {ℓ} : Type ℓ → Type ℓ
HashSet A = List A

module _ {ℓ} {A : Type ℓ} ⦃e : Eq A⦄ where
  -- `set.contains(x)`
  abbrev pub contains : A → HashSet A → Bool
  contains x set = any (λ y. y == x) set

  -- `set.insert(x)`
  unfoldable pub add : A → HashSet A → HashSet A
  add x set = if contains x set then set else x ∷ set

  -- `set.remove(x)`
  unfoldable pub discard : A → HashSet A → HashSet A
  unfolding filter
  discard x set = filter (λ y. not (y == x)) set

  pub contains-add :
      (x y : A) (set : HashSet A) → contains y (add x set) ≡ (x == y || contains y set)
  unfolding add
  contains-add x y set = elim (Bool-cases (contains x set)) [
    | inl there ↦ rw there (elim (Bool-cases (x == y)) [
      | inl same ↦ rw same (rw ((e.beq_iff x y).0 same) at there)
      | inr differ ↦ rw differ refl
    ])
    | inr absent ↦ rw absent refl
  ]

  pub contains-discard :
      (x y : A) (set : HashSet A) → contains y (discard x set) ≡ (not (x == y) && contains y set)
  unfolding discard filter
  contains-discard x y [] = ground arith
  contains-discard x y (z ∷ set) =
      ground (arith, contains-discard x y set, e.beq_iff z x, e.beq_iff z y, e.beq_iff x y)
