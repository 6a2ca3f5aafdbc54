-- ===== src/Trackers/Sweeps.antt =====
-- app_state.rs: `AutoSyncSweepTracker`, which lets the fallback sweep of a task through at most once
-- in an interval.
use lan_bridge.Base.{
  ℕ, ◌-◌, ◌≤◌, ◌<◌, All, Bool, true, false, Option, none, some, List, [], ◌∷◌, ◌==◌, string_eq,
  if◌then◌else◌, ltb, ◌≡◌, refl, arith, beq_self, inl, inr, Bool-cases,
}
use lan_bridge.Base.Assoc.{HashMap, lookup, insert, erase, lookup-insert}
use lan_bridge.Model.{Uuid}

-- The instant of the last sweep, the new map and the answer.
abbrev pub sweep_after : Uuid → ℕ → ℕ → HashMap Uuid ℕ → Option ℕ → HashMap Uuid ℕ × Bool
sweep_after task_id now interval sweeps none = (insert task_id now sweeps, false)
sweep_after task_id now interval sweeps (some last) =
    if ltb (now - last) interval then (sweeps, false) else (insert task_id now sweeps, true)

unfoldable pub should_sweep_at : Uuid → ℕ → ℕ → HashMap Uuid ℕ → HashMap Uuid ℕ × Bool
should_sweep_at task_id now interval sweeps =
    sweep_after task_id now interval sweeps (lookup task_id sweeps)

unfoldable pub clear : Uuid → HashMap Uuid ℕ → HashMap Uuid ℕ
clear task_id sweeps = erase task_id sweeps

-- Questions about tasks at given times, in the order in which they are asked, with one interval.
unfoldable pub ask_all : ℕ → List (Uuid × ℕ) → HashMap Uuid ℕ → HashMap Uuid ℕ
ask_all interval [] sweeps = sweeps
ask_all interval ((task, now) ∷ asks) sweeps =
    ask_all interval asks (should_sweep_at task now interval sweeps).0

-- The last sweep of a task only moves to a later time.
abbrev pub NotBefore : Option ℕ → ℕ → Type 0
NotBefore none t = ⊥
NotBefore (some last) t = t ≤ last

ask-NotBefore :
    (task q : Uuid) (from now interval : ℕ) (sweeps : HashMap Uuid ℕ)
    → from ≤ now
    → NotBefore (lookup task sweeps) from
    → NotBefore (lookup task (should_sweep_at q now interval sweeps).0) from
unfolding should_sweep_at
ask-NotBefore task q from now interval sweeps later h = go (lookup q sweeps)
  where
    inserted : NotBefore (lookup task (insert q now sweeps)) from
    inserted =
        rw (lookup-insert q task now sweeps)
          (elim (Bool-cases (q == task)) [ inl same ↦ rw same later | inr differ ↦ rw differ h ])

    go :
        (found : Option ℕ)
        → NotBefore (lookup task (sweep_after q now interval sweeps found).0) from
    go none = inserted
    go (some last) = elim (Bool-cases (ltb (now - last) interval)) [
      | inl recent ↦ rw recent h
      | inr due ↦ rw due inserted
    ]

ask_all-NotBefore :
    (task : Uuid) (from interval : ℕ) (asks : List (Uuid × ℕ)) (sweeps : HashMap Uuid ℕ)
    → All (λ ask. from ≤ ask.1) asks
    → NotBefore (lookup task sweeps) from
    → NotBefore (lookup task (ask_all interval asks sweeps)) from
unfolding ask_all
ask_all-NotBefore task from interval [] sweeps later h = h
ask_all-NotBefore task from interval ((q, now) ∷ asks) sweeps later h =
    ask_all-NotBefore task from interval asks (should_sweep_at q now interval sweeps).0 later.1
      (ask-NotBefore task q from now interval sweeps later.0 h)

sweep-recorded :
    (task : Uuid) (now interval : ℕ) (sweeps : HashMap Uuid ℕ)
    → (should_sweep_at task now interval sweeps).1 ≡ true
    → lookup task (should_sweep_at task now interval sweeps).0 ≡ some now
unfolding should_sweep_at
sweep-recorded task now interval sweeps h = go (lookup task sweeps) h
  where
    go :
        (found : Option ℕ)
        → (sweep_after task now interval sweeps found).1 ≡ true
        → lookup task (sweep_after task now interval sweeps found).0 ≡ some now
    go none k = cc
    go (some last) k = elim (Bool-cases (ltb (now - last) interval)) [
      | inl recent ↦ cc (rw recent at k)
      | inr due ↦ rw due (rw (lookup-insert task task now sweeps) (rw (beq_self task) refl))
    ]

too_soon :
    (task : Uuid) (from now interval : ℕ) (sweeps : HashMap Uuid ℕ)
    → NotBefore (lookup task sweeps) from
    → now - from < interval
    → (should_sweep_at task now interval sweeps).1 ≡ false
unfolding should_sweep_at
too_soon task from now interval sweeps h soon = go (lookup task sweeps) h
  where
    go :
        (found : Option ℕ)
        → NotBefore found from
        → (sweep_after task now interval sweeps found).1 ≡ false
    go none k = absurd k
    go (some last) k = ground arith

-- Two sweeps of a task are at least an interval apart: after a question that is answered with yes,
-- and any questions about any tasks at no earlier times, a question about the task less than the
-- interval after the first is answered with no.
pub sweeps-apart :
    (task : Uuid) (first second interval : ℕ) (asks : List (Uuid × ℕ)) (sweeps : HashMap Uuid ℕ)
    → (should_sweep_at task first interval sweeps).1 ≡ true
    → All (λ ask. first ≤ ask.1) asks
    → second - first < interval
    → (should_sweep_at task second interval
        (ask_all interval asks (should_sweep_at task first interval sweeps).0)).1
      ≡ false
sweeps-apart task first second interval asks sweeps allowed later soon =
    too_soon task first second interval
      (ask_all interval asks (should_sweep_at task first interval sweeps).0)
      (ask_all-NotBefore task first interval asks (should_sweep_at task first interval sweeps).0
        later (rw (sweep-recorded task first interval sweeps allowed) (omega arith)))
      soon
