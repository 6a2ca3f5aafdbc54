-- ===== src/Base/Assoc.antt =====
-- A `HashMap` as the list of its entries.
use lan_bridge.Base.Tests.{if◌then◌else◌, Bool-cases}
use lan_bridge.Base.Equality.{Eq, ◌==◌, beq_self}
use lan_bridge.Base.Lists.{All}
use mathlib.Core.Path.{◌≡◌, refl, sym, ap}
use mathlib.Core.Logic.{inl, inr}
use mathlib.Core.Bool.{false}
use mathlib.Core.Option.{Option, none, some, some-injective}
use mathlib.Core.List.{List, [], ◌∷◌, Memᴰ}
use native.Mathlib.Omega.{arith}

abbrev pub HashMap {ℓ κ} : Type ℓ → Type κ → Type (ℓ ⊔ κ)
HashMap K V = List (K × V)

module _ {ℓ κ} {K : Type ℓ} {V : Type κ} ⦃e : Eq K⦄ where
  -- `map.remove(key)`
  unfoldable pub erase : K → HashMap K V → HashMap K V
  erase key [] = []
  erase key ((own, value) ∷ rest) =
      if own == key then erase key rest else (own, value) ∷ erase key rest

  -- `map.insert(key, value)`
  unfoldable pub insert : K → V → HashMap K V → HashMap K V
  insert key new [] = (key, new) ∷ []
  insert key new ((own, value) ∷ rest) =
      if own == key then (own, new) ∷ rest else (own, value) ∷ insert key new rest

  -- `map.get(key)`
  unfoldable pub lookup : K → HashMap K V → Option V
  lookup key [] = none
  lookup key ((own, value) ∷ rest) = if own == key then some value else lookup key rest

  pub lookup-erase :
      (gone key : K) (entries : HashMap K V)
      → lookup key (erase gone entries) ≡ (if gone == key then none else lookup key entries)
  unfolding lookup erase
  lookup-erase gone key [] = ground arith
  lookup-erase gone key ((own, value) ∷ rest) =
      ground (
        arith,
        lookup-erase gone key rest,
        e.beq_iff own gone,
        e.beq_iff gone key,
        e.beq_iff own key,
      )

  pub lookup-insert :
      (set key : K) (new : V) (entries : HashMap K V)
      → lookup key (insert set new entries) ≡ (if set == key then some new else lookup key entries)
  unfolding insert lookup
  lookup-insert set key new [] = refl
  lookup-insert set key new ((own, value) ∷ rest) = ground (
    arith,
    lookup-insert set key new rest,
    e.beq_iff own set,
    e.beq_iff set key,
    e.beq_iff own key,
  )

  -- Each key has one entry.
  abbrev pub UniqueKeys : HashMap K V → Type κ
  UniqueKeys [] = Unit
  UniqueKeys ((k, v) ∷ m) = (lookup k m ≡ none) × UniqueKeys m

  pub insert-UniqueKeys :
      (k : K) (v : V) (m : HashMap K V) → UniqueKeys m → UniqueKeys (insert k v m)
  unfolding insert lookup
  insert-UniqueKeys k v [] h = (refl, tt)
  insert-UniqueKeys k v ((j, w) ∷ m) h = elim (Bool-cases (j == k)) [
    | inl same ↦ rw same (h.0, h.1)
    | inr differ ↦
        let absent : lookup j (insert k v m) ≡ none =
          rw (lookup-insert k j v m) (ground (arith, h.0, e.beq_iff k j, e.beq_iff j k)) in
        rw differ (absent, insert-UniqueKeys k v m h.1)
  ]

  pub erase-UniqueKeys : (k : K) (m : HashMap K V) → UniqueKeys m → UniqueKeys (erase k m)
  unfolding erase
  erase-UniqueKeys k [] h = tt
  erase-UniqueKeys k ((j, w) ∷ m) h = elim (Bool-cases (j == k)) [
    | inl same ↦ rw same (erase-UniqueKeys k m h.1)
    | inr differ ↦
        rw differ (rw (lookup-erase k j m) (ground (arith, h.0)), erase-UniqueKeys k m h.1)
  ]

  -- What holds of all entries also holds of a new one's.
  pub insert-All {μ} :
      (P : K × V → Type μ) (k : K) (v : V) (m : HashMap K V)
      → P (k, v)
      → All P m
      → All P (insert k v m)
  unfolding insert
  insert-All P k v [] h all = (h, tt)
  insert-All P k v ((j, w) ∷ m) h all = elim (Bool-cases (j == k)) [
    | inl same ↦ rw same (rw ((e.beq_iff j k).0 same) h, all.1)
    | inr differ ↦ rw differ (all.0, insert-All P k v m h all.1)
  ]

  pub mem_of_lookup : (k : K) (v : V) (m : HashMap K V) → lookup k m ≡ some v → Memᴰ (k, v) m
  unfolding lookup
  mem_of_lookup k v [] h = cc
  mem_of_lookup k v ((j, w) ∷ m) h = elim (Bool-cases (j == k)) [
    | inl same ↦
        let value : w ≡ v = some-injective w v (rw same at h) in
        Memᴰ.head (rw ((e.beq_iff j k).0 same, value) refl)
    | inr differ ↦ Memᴰ.tail (mem_of_lookup k v m (rw differ at h))
  ]

  absent-mem :
      (k : K) {j : K} {v : V} (m : HashMap K V)
      → lookup k m ≡ none
      → Memᴰ (j, v) m
      → (j == k) ≡ false
  unfolding lookup
  absent-mem k {j} {v} m h (Memᴰ.head {x} {xs} q) = rw (ap (λ (p : K × V). p.0) q) (ground arith)
  absent-mem k {j} {v} m h (Memᴰ.tail {x} {xs} q) = absent-mem k xs (ground arith) q

  pub lookup_of_mem :
      {k : K} {v : V} (m : HashMap K V) → UniqueKeys m → Memᴰ (k, v) m → lookup k m ≡ some v
  unfolding lookup
  lookup_of_mem {k} {v} m h (Memᴰ.head {x} {xs} q) =
      rw (sym (ap (λ (p : K × V). p.0) q), sym (ap (λ (p : K × V). p.1) q)) (rw (beq_self k) refl)
  lookup_of_mem {k} {v} m h (Memᴰ.tail {x} {xs} q) =
      let other : (x.0 == k) ≡ false =
        ground (arith, absent-mem x.0 xs h.0 q, e.beq_iff x.0 k, e.beq_iff k x.0) in
      rw other (lookup_of_mem xs h.1 q)
