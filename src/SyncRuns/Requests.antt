-- ===== src/SyncRuns/Requests.antt =====
-- commands/mod.rs: the calls that `run_sync_now` makes of the coordinator, as events of one sequence
-- for all tasks and all threads.
use lan_bridge.Base.{
  Bool, true, false, ◌||◌, ◌&&◌, not, List, [], ◌∷◌, ◌≡◌, refl, ◌∙◌, ◌⊎◌, inl, inr, ◌==◌, string_eq,
  arith, Bool-cases, beq_self,
}
use lan_bridge.Model.{Uuid}
use lan_bridge.SyncRuns.{SyncRunAdmission, started, queued, SyncRuns, begin, finish, abort}
use lan_bridge.SyncRuns.Runs.{
  Phase, idle, active, phase, AllRunning, begin-AllRunning, finish-AllRunning, abort-AllRunning,
  begin-refines, finish-refines, abort-refines,
}

-- A call of `run_sync_now`, a run that ends and a run that fails.
pub data Event : Type 0 where
  request run_ends run_fails : Uuid → Event

unfoldable pub apply : Event → SyncRuns → SyncRuns
apply (request t) runs = (begin t runs).0
apply (run_ends t) runs = (finish t runs).0
apply (run_fails t) runs = abort t runs

unfoldable pub play : List Event → SyncRuns → SyncRuns
unfolding apply
play [] runs = runs
play (e ∷ es) runs = play es (apply e runs)

abbrev pub is_started : SyncRunAdmission → Bool
is_started started = true
is_started queued = false

-- The call is let through as the run of the task.
abbrev pub admits : Uuid → Event → SyncRuns → Bool
admits task (request t) runs = t == task && is_started (begin t runs).1
admits task (run_ends t) runs = false
admits task (run_fails t) runs = false

-- The event starts a run of the task: it is let through, or a run that ends is followed by another.
abbrev pub starts : Uuid → Event → SyncRuns → Bool
starts task (request t) runs = t == task && is_started (begin t runs).1
starts task (run_ends t) runs = t == task && (finish t runs).1
starts task (run_fails t) runs = false

-- The event ends the task's runs: there is no other, or the run fails.
abbrev pub stops : Uuid → Event → SyncRuns → Bool
stops task (request t) runs = false
stops task (run_ends t) runs = t == task && not (finish t runs).1
stops task (run_fails t) runs = t == task

abbrev pub fails : Uuid → Event → SyncRuns → Bool
fails task (request t) runs = false
fails task (run_ends t) runs = false
fails task (run_fails t) runs = t == task

-- Some event of the sequence does.
unfoldable pub happens : (Event → SyncRuns → Bool) → List Event → SyncRuns → Bool
unfolding apply
happens p [] runs = false
happens p (e ∷ es) runs = p e runs || happens p es (apply e runs)

apply-AllRunning : (e : Event) (runs : SyncRuns) → AllRunning runs → AllRunning (apply e runs)
unfolding apply
apply-AllRunning (request t) runs h = begin-AllRunning t runs h
apply-AllRunning (run_ends t) runs h = finish-AllRunning t runs h
apply-AllRunning (run_fails t) runs h = abort-AllRunning t runs h

-- While another run is asked for, an event starts it, fails the task or leaves it asked for.
asked-step :
    (task : Uuid) (e : Event) (runs : SyncRuns)
    → AllRunning runs
    → phase task runs ≡ active true
    → fails task e runs ≡ false
    → (starts task e runs ≡ true) ⊎ (phase task (apply e runs) ≡ active true)
unfolding apply
asked-step task (request t) runs h p n = elim (Bool-cases (t == task)) [
  | inl same ↦
      let one : t ≡ task = (string_eq.beq_iff t task).0 same in
      inr ((begin-refines t task runs h).0 ∙ (rw same (rw one (rw p refl))))
  | inr differ ↦ inr ((begin-refines t task runs h).0 ∙ (rw differ p))
]
asked-step task (run_ends t) runs h p n = elim (Bool-cases (t == task)) [
  | inl same ↦
      let one : t ≡ task = (string_eq.beq_iff t task).0 same in
      inl (rw same (rw ((finish-refines t task runs h).1) (rw one (rw p refl))))
  | inr differ ↦ inr ((finish-refines t task runs h).0 ∙ (rw differ p))
]
asked-step task (run_fails t) runs h p n = inr (abort-refines t task runs ∙ (rw n p))

asked-served :
    (task : Uuid) (es : List Event) (runs : SyncRuns)
    → AllRunning runs
    → phase task runs ≡ active true
    → happens (fails task) es runs ≡ false
    → (happens (starts task) es runs ≡ true) ⊎ (phase task (play es runs) ≡ active true)
unfolding happens play
asked-served task [] runs h p n = inr p
asked-served task (e ∷ es) runs h p n = elim (asked-step task e runs h p (ground arith)) [
  | inl now ↦ inl (rw now refl)
  | inr still ↦
      elim (asked-served task es (apply e runs) (apply-AllRunning e runs h) still (ground arith)) [
        | inl later ↦ inl (ground arith)
        | inr asked ↦ inr asked
      ]
]

-- No request is lost: when a task is idle again after a request and any further events of all
-- tasks, and no run of the task failed meanwhile, then a run of the task has started at the request
-- or after it.
pub request-served :
    (task : Uuid) (es : List Event) (runs : SyncRuns)
    → AllRunning runs
    → happens (fails task) (request task ∷ es) runs ≡ false
    → phase task (play (request task ∷ es) runs) ≡ idle
    → happens (starts task) (request task ∷ es) runs ≡ true
unfolding happens play apply
request-served task es runs h n done = go (phase task runs) refl
  where
    go :
        (before : Phase)
        → phase task runs ≡ before
        → happens (starts task) (request task ∷ es) runs ≡ true
    go idle p = rw (beq_self task, (begin-refines task task runs h).1, p) refl
    go (active asked) p =
        let after : phase task (begin task runs).0 ≡ active true =
          (begin-refines task task runs h).0 ∙ (rw (beq_self task, p) refl) in
        elim (asked-served task es (begin task runs).0 (begin-AllRunning task runs h) after
          (ground arith)) [ inl later ↦ ground arith | inr unserved ↦ cc ]

running-step :
    (task : Uuid) (e : Event) (runs : SyncRuns) (asked : Bool)
    → AllRunning runs
    → phase task runs ≡ active asked
    → stops task e runs ≡ false
    → (admits task e runs ≡ false) × ((again : Bool) × (phase task (apply e runs) ≡ active again))
unfolding apply
running-step task (request t) runs asked h p n = elim (Bool-cases (t == task)) [
  | inl same ↦
      let one : t ≡ task = (string_eq.beq_iff t task).0 same in
      (
        rw same (rw ((begin-refines t task runs h).1) (rw one (rw p refl))),
        (true, (begin-refines t task runs h).0 ∙ (rw same (rw one (rw p refl)))),
      )
  | inr differ ↦ (rw differ refl, (asked, (begin-refines t task runs h).0 ∙ (rw differ p)))
]
running-step task (run_ends t) runs asked h p n = elim (Bool-cases (t == task)) [
  | inl same ↦
      let one : t ≡ task = (string_eq.beq_iff t task).0 same in
      let answer : (finish t runs).1 ≡ asked =
        (finish-refines t task runs h).1 ∙ (rw one (rw p (ground arith))) in
      (refl, (false, (finish-refines t task runs h).0 ∙ (rw same (rw one (rw p (ground arith))))))
  | inr differ ↦ (refl, (asked, (finish-refines t task runs h).0 ∙ (rw differ p)))
]
running-step task (run_fails t) runs asked h p n =
    (refl, (asked, abort-refines t task runs ∙ (rw n p)))

-- One run of a task at a time: from a task that runs, until its runs stop, no request of it is let
-- through as another run, whatever the events of all tasks, and the task stays running.
pub run-exclusive :
    (task : Uuid) (es : List Event) (runs : SyncRuns) (asked : Bool)
    → AllRunning runs
    → phase task runs ≡ active asked
    → happens (stops task) es runs ≡ false
    → (happens (admits task) es runs ≡ false)
      × ((again : Bool) × (phase task (play es runs) ≡ active again))
unfolding happens play
run-exclusive task [] runs asked h p n = (refl, (asked, p))
run-exclusive task (e ∷ es) runs asked h p n =
    let (none_now, (again, runs_on)) = running-step task e runs asked h p (ground arith) in
    let (none_later, (end, last)) =
      run-exclusive task es (apply e runs) again (apply-AllRunning e runs h) runs_on
        (ground arith) in
    (rw none_now none_later, (end, last))
