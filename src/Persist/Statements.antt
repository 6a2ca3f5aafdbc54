-- ===== src/Persist/Statements.antt =====
-- Statements that succeed have all been carried out.
use lan_bridge.Base.{
  ℕ, String, ◌<>◌, true, Option, none, some, List, [], ◌∷◌, ◌++◌, ◌≡◌, refl, sym, ap, inl, inr,
  Option-cases, All, ◌∙◌,
}
use mathlib.Core.Option.{none-ne-some}
use lan_bridge.Persist.{Store, Statement, run, settled, counted, ExecutionResult}

module _ (fails : ℕ → Option String) where
  run-ok_cons :
      (s : Statement) (ss : List Statement) (st : Store)
      → (run fails (s ∷ ss) st).1 ≡ none
      → run fails (s ∷ ss) st ≡ run fails ss (counted (s.change st))
  unfolding run
  run-ok_cons s ss st h = elim (Option-cases (fails st.statements)) [
    | inl fine ↦ rw (fine, run) refl
    | inr (error, bad) ↦ absurd (none-ne-some (s.label <> error) (sym (rw (bad, run) at h)))
  ]

  -- The statements before the last one leave some state, on which the last one is carried out.
  pub run-last :
      (ss : List Statement) (last : Statement) (st : Store)
      → (run fails (ss ++ (last ∷ [])) st).1 ≡ none
      → (before : Store) × ((run fails (ss ++ (last ∷ [])) st).0 ≡ counted (last.change before))
  unfolding run
  run-last [] last st h = (st, ap (λ (x : Store × Option String). x.0) (run-ok_cons last [] st h))
  run-last (s ∷ ss) last st h =
      let same = run-ok_cons s (ss ++ (last ∷ [])) st h in
      let rest : (run fails (ss ++ (last ∷ [])) (counted (s.change st))).1 ≡ none = rw same at h in
      let (before, made) = run-last ss last (counted (s.change st)) rest in
      (before, rw (ap (λ (x : Store × Option String). x.0) same) made)

  pub run-step :
      (s : Statement) (ss : List Statement) (st : Store)
      → (run fails (s ∷ ss) st).1 ≡ none
      → (run fails (s ∷ ss) st ≡ run fails ss (counted (s.change st)))
        × ((run fails ss (counted (s.change st))).1 ≡ none)
  run-step s ss st h = let same = run-ok_cons s ss st h in (same, rw same at h)

  -- Statements that succeed one after the other.
  pub run-append :
      (as_ bs : List Statement) (st : Store)
      → (run fails (as_ ++ bs) st).1 ≡ none
      → (mid : Store) × (run fails as_ st ≡ (mid, none))
        × (run fails (as_ ++ bs) st ≡ run fails bs mid)
  unfolding run
  run-append [] bs st h = (st, refl, refl)
  run-append (s ∷ ss) bs st h = elim (Option-cases (fails st.statements)) [
    | inl fine ↦
        let (mid, done, rest) = run-append ss bs (counted (s.change st)) (rw (fine, run) at h) in
        (mid, rw (fine, run) done, rw (fine, run) rest)
    | inr (error, bad) ↦ absurd (none-ne-some (s.label <> error) (sym (rw (bad, run) at h)))
  ]

  -- What each statement keeps, all of them keep.
  pub run-keeps {ℓ} :
      {A : Type ℓ} (field : Store → A) (ss : List Statement) (st : Store)
      → ((x : Store) → field (counted x) ≡ field x)
      → All (λ (s : Statement). (x : Store) → field (s.change x) ≡ field x) ss
      → field (run fails ss st).0 ≡ field st
  unfolding run
  run-keeps field [] st tick keep = refl
  run-keeps field (s ∷ ss) st tick keep = elim (Option-cases (fails st.statements)) [
    | inl fine ↦
        rw (fine, run)
          (run-keeps field ss (counted (s.change st)) tick keep.1 ∙ tick (s.change st) ∙ keep.0 st)
    | inr (error, bad) ↦ rw (bad, run) (tick st)
  ]

-- A result that is still a success had no failing statement.
pub settled_ok :
    (outcome : Store × Option String) (r : ExecutionResult)
    → (settled outcome r).1.success ≡ true
    → (outcome.1 ≡ none) × ((settled outcome r).0 ≡ outcome.0) × (r.success ≡ true)
settled_ok (st, none) r h = (refl, refl, h)
settled_ok (st, some error) r h = cc
