-- ===== src/Base/Sort.antt =====
-- `sort_by` and `sort_by_key` of the standard library, as the stable insertion sort that they are on
-- short slices. `gt x y` says that the comparator gives `Greater` for the pair.
use lan_bridge.Base.Tests.{ltb, eqb, eqb_iff, if◌then◌else◌, Bool-cases, Bool-eq}
use lan_bridge.Base.Int.{ℤ, ltb_ℤ, ◌≤ℤ◌}
use lan_bridge.Base.Lists.{All, filter, any, any-mem, any_of_mem}
use Prim.Native.Nat.{ℕ, ◌≤◌}
use mathlib.Core.Path.{◌≡◌, refl, ◌∙◌}
use mathlib.Core.Logic.{inl, inr}
use mathlib.Core.Bool.{Bool, true, false}
use mathlib.Core.List.Memᴰ
use mathlib.Core.List.Permᴰ
use mathlib.Core.List.{List, [], ◌∷◌, Memᴰ, Permᴰ}
use native.Mathlib.Omega.{arith}

module _ {ℓ} {A : Type ℓ} (gt : A → A → Bool) where
  unfoldable pub insert_sorted : A → List A → List A
  insert_sorted x [] = x ∷ []
  insert_sorted x (y ∷ ys) = if gt x y then y ∷ insert_sorted x ys else x ∷ y ∷ ys

  unfoldable pub sort_by : List A → List A
  unfolding insert_sorted
  sort_by [] = []
  sort_by (x ∷ xs) = insert_sorted x (sort_by xs)

  pub insert_sorted-perm : (x : A) (xs : List A) → Permᴰ (insert_sorted x xs) (x ∷ xs)
  unfolding insert_sorted
  insert_sorted-perm x [] = Permᴰ.refl (x ∷ [])
  insert_sorted-perm x (y ∷ ys) = elim (Bool-cases (gt x y)) [
    | inl greater ↦
        rw greater (Permᴰ.trans (Permᴰ.cons refl (insert_sorted-perm x ys)) (Permᴰ.swap refl refl))
    | inr stays ↦ rw stays (Permᴰ.refl (x ∷ y ∷ ys))
  ]

  -- Sorting keeps every element.
  pub sort_by-perm : (xs : List A) → Permᴰ (sort_by xs) xs
  unfolding sort_by
  sort_by-perm [] = Permᴰ.nil
  sort_by-perm (x ∷ xs) =
      Permᴰ.trans (insert_sorted-perm x (sort_by xs)) (Permᴰ.cons refl (sort_by-perm xs))

pub mem-perm {ℓ} : {A : Type ℓ} {x : A} {xs ys : List A} → Permᴰ xs ys → Memᴰ x xs → Memᴰ x ys
mem-perm Permᴰ.nil m = m
mem-perm (Permᴰ.cons e p) m = elim (Memᴰ.cases_cons m) [
  | inl h ↦ Memᴰ.head (h ∙ e)
  | inr k ↦ Memᴰ.tail (mem-perm p k)
]
mem-perm (Permᴰ.swap e f) m = elim (Memᴰ.cases_cons m) [
  | inl h ↦ Memᴰ.tail (Memᴰ.head (h ∙ e))
  | inr k ↦ elim (Memᴰ.cases_cons k) [ inl h ↦ Memᴰ.head (h ∙ f) | inr r ↦ Memᴰ.tail (Memᴰ.tail r) ]
]
mem-perm (Permᴰ.trans p q) m = mem-perm q (mem-perm p m)

module _ {ℓ} {A : Type ℓ} (key : A → ℕ) where
  abbrev pub by_key : A → A → Bool
  by_key x y = ltb (key y) (key x)

  abbrev pub IsSortedBy : List A → Type 0
  IsSortedBy [] = Unit
  IsSortedBy (x ∷ xs) = All (λ y. key x ≤ key y) xs × IsSortedBy xs

  All-insert_sorted :
      (n : ℕ) (x : A) (xs : List A)
      → n ≤ key x
      → All (λ y. n ≤ key y) xs
      → All (λ y. n ≤ key y) (insert_sorted by_key x xs)
  unfolding insert_sorted
  All-insert_sorted n x [] h k = (h, tt)
  All-insert_sorted n x (y ∷ ys) h k = elim (Bool-cases (by_key x y)) [
    | inl greater ↦ rw greater (k.0, All-insert_sorted n x ys h k.1)
    | inr stays ↦ rw stays (h, k)
  ]

  All-weaken : (m n : ℕ) (xs : List A) → m ≤ n → All (λ y. n ≤ key y) xs → All (λ y. m ≤ key y) xs
  All-weaken m n [] h k = tt
  All-weaken m n (x ∷ xs) h k = (omega arith, All-weaken m n xs h k.1)

  insert_sorted-IsSortedBy :
      (x : A) (xs : List A) → IsSortedBy xs → IsSortedBy (insert_sorted by_key x xs)
  unfolding insert_sorted
  insert_sorted-IsSortedBy x [] h = (tt, tt)
  insert_sorted-IsSortedBy x (y ∷ ys) h = elim (Bool-cases (by_key x y)) [
    | inl greater ↦
        rw greater
          (All-insert_sorted (key y) x ys (ground arith) h.0, insert_sorted-IsSortedBy x ys h.1)
    | inr stays ↦
        let below : key x ≤ key y = ground arith in
        rw stays ((below, All-weaken (key x) (key y) ys below h.0), h)
  ]

  -- `sort_by_key` leaves the keys in ascending order.
  pub sort_by-IsSortedBy : (xs : List A) → IsSortedBy (sort_by by_key xs)
  unfolding sort_by
  sort_by-IsSortedBy [] = tt
  sort_by-IsSortedBy (x ∷ xs) =
      insert_sorted-IsSortedBy x (sort_by by_key xs) (sort_by-IsSortedBy xs)

-- `sort_by` with the comparison of integer keys turned round: the greatest comes first.
module _ {ℓ} {A : Type ℓ} (key : A → ℤ) where
  abbrev pub by_key_down : A → A → Bool
  by_key_down x y = ltb_ℤ (key x) (key y)

  abbrev pub IsSortedDown : List A → Type 0
  IsSortedDown [] = Unit
  IsSortedDown (x ∷ xs) = All (λ y. key y ≤ℤ key x) xs × IsSortedDown xs

  All-insert_sorted_down :
      (n : ℤ) (x : A) (xs : List A)
      → key x ≤ℤ n
      → All (λ y. key y ≤ℤ n) xs
      → All (λ y. key y ≤ℤ n) (insert_sorted by_key_down x xs)
  unfolding insert_sorted
  All-insert_sorted_down n x [] h k = (h, tt)
  All-insert_sorted_down n x (y ∷ ys) h k = elim (Bool-cases (by_key_down x y)) [
    | inl less ↦ rw less (k.0, All-insert_sorted_down n x ys h k.1)
    | inr stays ↦ rw stays (h, k)
  ]

  All-weaken_down :
      (m n : ℤ) (xs : List A) → n ≤ℤ m → All (λ y. key y ≤ℤ n) xs → All (λ y. key y ≤ℤ m) xs
  All-weaken_down m n [] h k = tt
  All-weaken_down m n (x ∷ xs) h k = (omega arith, All-weaken_down m n xs h k.1)

  insert_sorted-IsSortedDown :
      (x : A) (xs : List A) → IsSortedDown xs → IsSortedDown (insert_sorted by_key_down x xs)
  unfolding insert_sorted
  insert_sorted-IsSortedDown x [] h = (tt, tt)
  insert_sorted-IsSortedDown x (y ∷ ys) h = elim (Bool-cases (by_key_down x y)) [
    | inl less ↦ rw less (
      All-insert_sorted_down (key y) x ys (ground arith) h.0,
      insert_sorted-IsSortedDown x ys h.1,
    )
    | inr stays ↦
        let below : key y ≤ℤ key x = ground arith in
        rw stays ((below, All-weaken_down (key x) (key y) ys below h.0), h)
  ]

  pub sort_by-IsSortedDown : (xs : List A) → IsSortedDown (sort_by by_key_down xs)
  unfolding sort_by
  sort_by-IsSortedDown [] = tt
  sort_by-IsSortedDown (x ∷ xs) =
      insert_sorted-IsSortedDown x (sort_by by_key_down xs) (sort_by-IsSortedDown xs)

module _ {ℓ} {A : Type ℓ} (key : A → ℕ) where
  filter-insert_sorted :
      (n : ℕ) (x : A) (xs : List A)
      → filter (λ y. eqb (key y) n) (insert_sorted (by_key key) x xs)
        ≡ filter (λ y. eqb (key y) n) (x ∷ xs)
  unfolding insert_sorted filter
  filter-insert_sorted n x [] = refl
  filter-insert_sorted n x (y ∷ ys) =
      ground (arith, eqb_iff (key y) n, eqb_iff (key x) n, filter-insert_sorted n x ys)

  -- `sort_by_key` keeps the order of the elements of one key.
  pub filter-sort_by :
      (n : ℕ) (xs : List A)
      → filter (λ y. eqb (key y) n) (sort_by (by_key key) xs) ≡ filter (λ y. eqb (key y) n) xs
  unfolding sort_by filter
  filter-sort_by n [] = refl
  filter-sort_by n (x ∷ xs) =
      filter-insert_sorted n x (sort_by (by_key key) xs) ∙ (ground (arith, filter-sort_by n xs))

-- A comparator refines an order when it puts no pair the wrong way round.
module _ {ℓ} {A : Type ℓ} (gt : A → A → Bool) (LE : A → A → Type 0)
    (trans : (x y z : A) → LE x y → LE y z → LE x z) (later : (x y : A) → gt x y ≡ true → LE y x)
    (sooner : (x y : A) → gt x y ≡ false → LE x y) where
  abbrev pub IsOrdered : List A → Type 0
  IsOrdered [] = Unit
  IsOrdered (x ∷ xs) = All (LE x) xs × IsOrdered xs

  All-le_insert :
      (y x : A) (xs : List A) → LE y x → All (LE y) xs → All (LE y) (insert_sorted gt x xs)
  unfolding insert_sorted
  All-le_insert y x [] h k = (h, tt)
  All-le_insert y x (z ∷ zs) h k = elim (Bool-cases (gt x z)) [
    | inl greater ↦ rw greater (k.0, All-le_insert y x zs h k.1)
    | inr stays ↦ rw stays (h, k)
  ]

  All-le_trans : (x y : A) (ys : List A) → LE x y → All (LE y) ys → All (LE x) ys
  All-le_trans x y [] h k = tt
  All-le_trans x y (z ∷ zs) h k = (trans x y z h k.0, All-le_trans x y zs h k.1)

  insert_sorted-IsOrdered : (x : A) (xs : List A) → IsOrdered xs → IsOrdered (insert_sorted gt x xs)
  unfolding insert_sorted
  insert_sorted-IsOrdered x [] h = (tt, tt)
  insert_sorted-IsOrdered x (y ∷ ys) h = elim (Bool-cases (gt x y)) [
    | inl greater ↦
        rw greater (All-le_insert y x ys (later x y greater) h.0, insert_sorted-IsOrdered x ys h.1)
    | inr stays ↦ rw stays ((sooner x y stays, All-le_trans x y ys (sooner x y stays) h.0), h)
  ]

  -- The result of the sort is in the order.
  pub sort_by-IsOrdered : (xs : List A) → IsOrdered (sort_by gt xs)
  unfolding sort_by
  sort_by-IsOrdered [] = tt
  sort_by-IsOrdered (x ∷ xs) = insert_sorted-IsOrdered x (sort_by gt xs) (sort_by-IsOrdered xs)

pub any-sort_by {ℓ} :
    {A : Type ℓ} (gt : A → A → Bool) (p : A → Bool) (xs : List A) → any p (sort_by gt xs) ≡ any p xs
any-sort_by gt p xs =
    Bool-eq (any p (sort_by gt xs)) (any p xs)
      (λ h.
        let (x, m, test) = any-mem p (sort_by gt xs) h in
        any_of_mem p (mem-perm (sort_by-perm gt xs) m) test)
      (λ h.
        let (x, m, test) = any-mem p xs h in
        any_of_mem p (mem-perm (Permᴰ.symm (sort_by-perm gt xs)) m) test)
