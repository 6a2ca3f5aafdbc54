-- ===== src/Repository/Keyed.antt =====
-- Tables with a primary key: `INSERT … ON CONFLICT DO UPDATE`, `SELECT`, `UPDATE` and `DELETE` by
-- key, generic in the rows. `same` is equality of keys and `merge` the update on a conflict.
use lan_bridge.Base.{
  false, Option, none, some, List, [], ◌∷◌, ◌≡◌, refl, sym, ◌∙◌, inl, inr, arith, if◌then◌else◌, Eq,
  ◌==◌, Bool-cases, beq_self, Memᴰ,
}

module _ {ℓ κ} {R : Type ℓ} {K : Type κ} ⦃e : Eq K⦄ (key : R → K) where
  -- `SELECT … WHERE key = k`
  unfoldable pub select : K → List R → Option R
  select k [] = none
  select k (r ∷ rs) = if key r == k then some r else select k rs

  -- `INSERT … ON CONFLICT(key) DO UPDATE SET`: `merge old new` is the updated row.
  unfoldable pub upsert : (R → R → R) → R → List R → List R
  upsert merge row [] = row ∷ []
  upsert merge row (r ∷ rs) = if key r == key row then merge r row ∷ rs else r ∷ upsert merge row rs

  -- `UPDATE … SET … WHERE key = k`
  unfoldable pub update : (R → R) → K → List R → List R
  update f k [] = []
  update f k (r ∷ rs) = if key r == k then f r ∷ update f k rs else r ∷ update f k rs

  -- `DELETE … WHERE key = k`
  unfoldable pub delete : K → List R → List R
  delete k [] = []
  delete k (r ∷ rs) = if key r == k then delete k rs else r ∷ delete k rs

  -- The table has no two rows with one key.
  abbrev pub IsKeyed : List R → Type ℓ
  IsKeyed [] = Unit
  IsKeyed (r ∷ rs) = (select (key r) rs ≡ none) × IsKeyed rs

  abbrev pub merged : (R → R → R) → R → Option R → R
  merged merge row none = row
  merged merge row (some old) = merge old row

  abbrev pub KeepsKey : (R → R → R) → Type (ℓ ⊔ κ)
  KeepsKey merge = (old new : R) → key old ≡ key new → key (merge old new) ≡ key new

  -- A look-up after an upsert: the row's key now has the merged row, the others are as before.
  pub select-upsert :
      (merge : R → R → R) (row : R) (k : K) (rs : List R)
      → KeepsKey merge
      → select k (upsert merge row rs)
        ≡ (if key row == k then some (merged merge row (select (key row) rs)) else select k rs)
  unfolding select upsert
  select-upsert merge row k [] keeps = refl
  select-upsert merge row k (r ∷ rs) keeps = ground (
    arith,
    e.beq_iff (key r) (key row),
    e.beq_iff (key row) k,
    e.beq_iff (key r) k,
    e.beq_iff (key (merge r row)) k,
    keeps r row,
    select-upsert merge row k rs keeps,
  )

  -- A row that replaces the one of its key is found there.
  pub select-upsert_self :
      (row : R) (rs : List R) → select (key row) (upsert (λ old new. new) row rs) ≡ some row
  unfolding select upsert
  select-upsert_self row [] = rw (beq_self (key row)) refl
  select-upsert_self row (r ∷ rs) = elim (Bool-cases (key r == key row)) [
    | inl same ↦ rw same (rw (beq_self (key row)) refl)
    | inr differ ↦ rw differ (rw differ (select-upsert_self row rs))
  ]

  pub select-update :
      (f : R → R) (j k : K) (rs : List R)
      → ((r : R) → key (f r) ≡ key r)
      → select k (update f j rs)
        ≡ (if j == k then elim (select k rs) [ none ↦ none | some r ↦ some (f r) ] else select k rs)
  unfolding select update
  select-update f j k [] keeps = ground arith
  select-update f j k (r ∷ rs) keeps = ground (
    arith,
    e.beq_iff (key r) j,
    e.beq_iff j k,
    e.beq_iff (key r) k,
    keeps r,
    e.beq_iff (key (f r)) k,
    select-update f j k rs keeps,
  )

  pub select-delete :
      (j k : K) (rs : List R) → select k (delete j rs) ≡ (if j == k then none else select k rs)
  unfolding select delete
  select-delete j k [] = ground arith
  select-delete j k (r ∷ rs) =
      ground (arith, e.beq_iff (key r) j, e.beq_iff j k, e.beq_iff (key r) k, select-delete j k rs)

  pub upsert-IsKeyed :
      (merge : R → R → R) (row : R) (rs : List R)
      → KeepsKey merge
      → IsKeyed rs
      → IsKeyed (upsert merge row rs)
  unfolding upsert select
  upsert-IsKeyed merge row [] keeps h = (refl, tt)
  upsert-IsKeyed merge row (r ∷ rs) keeps h = elim (Bool-cases (key r == key row)) [
    | inl same ↦
        let one : key r ≡ key row = (e.beq_iff (key r) (key row)).0 same in
        let path : key (merge r row) ≡ key r = keeps r row one ∙ sym one in
        rw same (rw path (h.0), h.1)
    | inr differ ↦
        let absent : select (key r) (upsert merge row rs) ≡ none =
          rw (select-upsert merge row (key r) rs keeps)
            (ground (arith, h.0, e.beq_iff (key row) (key r), e.beq_iff (key r) (key row))) in
        rw differ (absent, upsert-IsKeyed merge row rs keeps h.1)
  ]

  pub delete-IsKeyed : (k : K) (rs : List R) → IsKeyed rs → IsKeyed (delete k rs)
  unfolding delete
  delete-IsKeyed k [] h = tt
  delete-IsKeyed k (r ∷ rs) h = elim (Bool-cases (key r == k)) [
    | inl same ↦ rw same (delete-IsKeyed k rs h.1)
    | inr differ ↦
        rw differ (rw (select-delete k (key r) rs) (ground (arith, h.0)), delete-IsKeyed k rs h.1)
  ]

  absent-mem : (k : K) {r : R} (rs : List R) → select k rs ≡ none → Memᴰ r rs → (key r == k) ≡ false
  unfolding select
  absent-mem k rs h (Memᴰ.head {x} {xs} e) = rw e (ground arith)
  absent-mem k rs h (Memᴰ.tail {x} {xs} m) = absent-mem k xs (ground arith) m

  -- In a table with keys, a row is found under its key.
  pub select-mem : {r : R} (rs : List R) → IsKeyed rs → Memᴰ r rs → select (key r) rs ≡ some r
  unfolding select
  select-mem {r} rs h (Memᴰ.head {x} {xs} e) = rw e (rw (beq_self (key x)) refl)
  select-mem {r} rs h (Memᴰ.tail {x} {xs} m) =
      let other : (key x == key r) ≡ false = ground (
        arith,
        absent-mem (key x) xs h.0 m,
        e.beq_iff (key x) (key r),
        e.beq_iff (key r) (key x),
      ) in
      rw other (select-mem xs h.1 m)
