-- ===== src/Conflict/Names.antt =====
-- The name of a conflicting copy.
use lan_bridge.Base.{
  ℕ, zero, suc, ◌+◌, ◌<◌, String, ◌<>◌, Bool, true, false, Option, none, some, ◌≡◌, refl, sym, ap,
  ◌∙◌, arith, ◌==◌, nat_eq, Bool-cases, inl, inr, eqb_iff, Option-cases,
}
use lan_bridge.Base.Int.{ℤ}
use lan_bridge.Base.Text.{is_empty, rsplit_once}
use lan_bridge.Conflict.{
  split_name, split_stem_ext, conflict_candidate, next_candidate, conflict_filename,
}
use Prim.Native.Char.{Char, code}
use mathlib.Core.Option.{some-injective, none-ne-some}
use native.Mathlib.Nat.{zero-add}
use text.Mathlib.TextEquality.{Char-path}
use text.Mathlib.TextLemmas.{nil-append, cons-append, append-nil, append_assoc}

module _ (path_exists : String → Bool) (path device ts : String) where
  -- The candidates before the `k`-th one, from the `i`-th on, are taken, and that one is free.
  abbrev IsFirstFree : ℕ → ℕ → Type 0
  IsFirstFree i k =
      ((j : ℕ) → j < k → path_exists (conflict_candidate path device ts (j + i)) ≡ true)
      × (path_exists (conflict_candidate path device ts (k + i)) ≡ false)

  next_candidate_first :
      (fuel i k : ℕ)
      → k < fuel
      → IsFirstFree i k
      → next_candidate path_exists fuel i path device ts
        ≡ some (conflict_candidate path device ts (k + i))
  unfolding next_candidate
  next_candidate_first zero i k h first = absurd (omega arith)
  next_candidate_first (suc fuel) i zero h first =
      let free : path_exists (conflict_candidate path device ts i) ≡ false =
        rw zero-add at (first.1) in
      rw free (rw zero-add)
  next_candidate_first (suc fuel) i (suc k) h first =
      let shift = λ (j : ℕ). let e : j + suc i ≡ suc j + i = omega arith in e in
      let taken : path_exists (conflict_candidate path device ts i) ≡ true =
        rw zero-add at (first.0 0 (omega arith)) in
      rw taken (
        rw (← shift k) (
          next_candidate_first fuel (suc i) k (omega arith)
            (λ j l. rw (shift j) (first.0 (suc j) (omega arith)), rw (shift k) (first.1))))

-- The search returns the first candidate that does not exist, for any fuel that reaches it.
pub conflict_filename_first :
    (path_exists : String → Bool) (format_timestamp : ℤ → String) (fuel k : ℕ)
    (path device : String) (timestamp : ℤ)
    → k < fuel
    → ((j : ℕ)
        → j < k
        → path_exists (conflict_candidate path device (format_timestamp timestamp) j) ≡ true)
    → path_exists (conflict_candidate path device (format_timestamp timestamp) k) ≡ false
    → conflict_filename path_exists format_timestamp fuel path device timestamp
      ≡ some (conflict_candidate path device (format_timestamp timestamp) k)
unfolding conflict_filename
conflict_filename_first path_exists format fuel k path device t h taken free =
    let first = λ (j : ℕ). let e : j + 0 ≡ j = omega arith in e in
    next_candidate_first path_exists path device (format t) fuel 0 k h
      (λ j l. rw (first j) (taken j l), rw (first k) free)
    ∙ rw (first k)

rsplit_once-append :
    (sep : Char) (s before after : String)
    → rsplit_once (code sep) s ≡ some (before, after)
    → before <> (String.◌∷◌ sep after) ≡ s
unfolding rsplit_once
rsplit_once-append sep String.[] before after h = cc
rsplit_once-append sep (String.◌∷◌ c s) before after h =
    go (rsplit_once (code sep) s) refl (rsplit_once-append sep s)
  where
    go :
        (r : Option (String × String))
        → rsplit_once (code sep) s ≡ r
        → ((b a : String) → rsplit_once (code sep) s ≡ some (b, a) → b <> (String.◌∷◌ sep a) ≡ s)
        → before <> (String.◌∷◌ sep after) ≡ String.◌∷◌ c s
    go none e ih = elim (Bool-cases (code c == code sep)) [
      | inl same ↦
          let q = some-injective (String.[], s) (before, after) (rw same at (rw e at h)) in
          rw
            (
              ← ap (λ (x : String × String). x.0) q,
              ← ap (λ (x : String × String). x.1) q,
              nil-append,
            )
            (ap (λ x. String.◌∷◌ x s)
              (sym (Char-path c sep ((eqb_iff (code c) (code sep)).0 same))))
      | inr differ ↦ absurd (none-ne-some (before, after) (rw differ at (rw e at h)))
    ]
    go (some (b, a)) e ih =
        let q = some-injective (String.◌∷◌ c b, a) (before, after) (rw e at h) in
        rw
          (
            ← ap (λ (x : String × String). x.0) q,
            ← ap (λ (x : String × String). x.1) q,
            cons-append,
          )
          (ap (String.◌∷◌ c) (ih b a e))

split_name-append : (path : String) → (split_name path).0 <> (split_name path).1 ≡ path
unfolding split_name
split_name-append path = elim (Option-cases (rsplit_once b'/' path)) [
  | inl e ↦ rw (e, split_name) (nil-append path)
  | inr ((dir, name), e) ↦
      rw (e, split_name)
        (append_assoc dir "/" name
          ∙ rw (cons-append, nil-append) (rsplit_once-append "/" path dir name e))
]

-- The stem and the extension that `split_stem_ext` returns make up the path.
pub split_stem_ext-append :
    (path : String) → (split_stem_ext path).0 <> (split_stem_ext path).1 ≡ path
unfolding split_stem_ext
split_stem_ext-append path = elim (Option-cases (rsplit_once b'.' (split_name path).1)) [
  | inl e ↦ rw (e, split_stem_ext) (append-nil path)
  | inr ((stem, ext), e) ↦ elim (Bool-cases (is_empty stem)) [
    | inl bare ↦ rw (e, split_stem_ext) (rw bare (append-nil path))
    | inr named ↦
        rw (e, split_stem_ext)
          (rw named (
            append_assoc (split_name path).0 stem ("." <> ext)
            ∙ rw (cons-append, nil-append, rsplit_once-append "." (split_name path).1 stem ext e)
                (split_name-append path)))
  ]
]
