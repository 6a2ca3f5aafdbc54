-- ===== src/Base/SortLaws.antt =====
-- What the standard library documents of `sort_by`: it keeps the elements, and it orders them if the
-- comparator is a total order on them. `gt x y` says that the comparator gives `Greater`.
use lan_bridge.Base.Tests.{Bool-cases}
use lan_bridge.Base.Lists.{All, All-mem, All-of_mem}
use lan_bridge.Base.Sort.{sort_by, insert_sorted, sort_by-perm, mem-perm, insert_sorted-perm}
use mathlib.Core.Path.{◌≡◌}
use mathlib.Core.Logic.{inl, inr}
use mathlib.Core.Bool.{Bool, true, false}
use mathlib.Core.List.Memᴰ
use mathlib.Core.List.{List, [], ◌∷◌, Memᴰ}

module _ {ℓ} {A : Type ℓ} (gt : A → A → Bool) where
  -- Each element is followed by none that it is greater than.
  abbrev pub IsInOrder : List A → Type ℓ
  IsInOrder [] = Unit
  IsInOrder (x ∷ xs) = All (λ y. gt x y ≡ false) xs × IsInOrder xs

  -- The comparator is a total order, with ties, on the elements of a list.
  abbrev pub IsTotalOn : List A → Type ℓ
  IsTotalOn zs =
      ((a b : A) → Memᴰ a zs → Memᴰ b zs → gt a b ≡ true → gt b a ≡ false)
      × ((a b c : A)
          → Memᴰ a zs
          → Memᴰ b zs
          → Memᴰ c zs
          → gt a b ≡ false
          → gt b c ≡ false
          → gt a c ≡ false)

  insert_sorted-IsInOrder :
      (zs : List A) (x : A) (ys : List A)
      → IsTotalOn zs
      → Memᴰ x zs
      → All (λ y. Memᴰ y zs) ys
      → IsInOrder ys
      → IsInOrder (insert_sorted gt x ys)
  unfolding insert_sorted
  insert_sorted-IsInOrder zs x [] total in_x in_ys h = (tt, tt)
  insert_sorted-IsInOrder zs x (y ∷ ys) total in_x in_ys h = elim (Bool-cases (gt x y)) [
    | inl greater ↦
        let rest = insert_sorted-IsInOrder zs x ys total in_x in_ys.1 h.1 in
        rw greater (
          All-of_mem (λ w. gt y w ≡ false) (insert_sorted gt x ys)
              (λ w m. elim (Memᴰ.cases_cons (mem-perm (insert_sorted-perm gt x ys) m)) [
                | inl e ↦ rw e (total.0 x y in_x in_ys.0 greater)
                | inr k ↦ All-mem (λ w. gt y w ≡ false) h.0 k
              ]),
          rest,
        )
    | inr stays ↦ rw stays (
      (
        stays,
        All-of_mem (λ w. gt x w ≡ false) ys
            (λ w m.
              total.1 x y w in_x in_ys.0 (All-mem (λ w. Memᴰ w zs) in_ys.1 m) stays
                (All-mem (λ w. gt y w ≡ false) h.0 m)),
      ),
      h,
    )
  ]

  -- The insertion sort does what is documented.
  sorted-IsInOrder :
      (zs xs : List A) → IsTotalOn zs → All (λ x. Memᴰ x zs) xs → IsInOrder (sort_by gt xs)
  unfolding sort_by
  sorted-IsInOrder zs [] total h = tt
  sorted-IsInOrder zs (x ∷ xs) total h =
      insert_sorted-IsInOrder zs x (sort_by gt xs) total h.0
        (All-of_mem (λ y. Memᴰ y zs) (sort_by gt xs)
          (λ y m. All-mem (λ y. Memᴰ y zs) h.1 (mem-perm (sort_by-perm gt xs) m)))
        (sorted-IsInOrder zs xs total h.1)

  pub sort_by-IsInOrder : (xs : List A) → IsTotalOn xs → IsInOrder (sort_by gt xs)
  sort_by-IsInOrder xs total =
      sorted-IsInOrder xs xs total (All-of_mem (λ x. Memᴰ x xs) xs (λ x m. m))
