-- ===== src/SyncRuns/Runs.antt =====
-- What the coordinator promises: one run of a task at a time, and no request lost.
use lan_bridge.Base.{
  Bool, true, false, Option, none, some, ◌≡◌, refl, sym, inl, inr, ◌==◌, string_eq, if◌then◌else◌,
  arith, Bool-cases,
}
use lan_bridge.Base.Assoc.{lookup, lookup-insert, lookup-erase}
use lan_bridge.Model.{Uuid}
use lan_bridge.SyncRuns.{
  SyncRunAdmission, started, queued, SyncRunState, SyncRuns, or_default, begin_state, begin,
  finish_state, finish, abort,
}

-- What a task is doing: nothing, or a run during which another was or was not asked for.
pub data Phase : Type 0 where
  idle : Phase
  active : Bool → Phase

abbrev pub phase_of : Option SyncRunState → Phase
phase_of none = idle
phase_of (some s) = if s.running then active s.rerun_requested else idle

abbrev pub phase : Uuid → SyncRuns → Phase
phase task runs = phase_of (lookup task runs)

-- The promise, on one task.
abbrev pub on_begin : Phase → Phase × SyncRunAdmission
on_begin idle = (active false, started)
on_begin (active asked) = (active true, queued)

abbrev pub on_finish : Phase → Phase × Bool
on_finish idle = (idle, false)
on_finish (active asked) = if asked then (active false, true) else (idle, false)

-- Every entry is of a task that runs.
abbrev pub AllRunning : SyncRuns → Type 0
AllRunning runs = (task : Uuid) (s : SyncRunState) → lookup task runs ≡ some s → s.running ≡ true

pub begin-AllRunning :
    (task : Uuid) (runs : SyncRuns) → AllRunning runs → AllRunning (begin task runs).0
unfolding begin
begin-AllRunning task runs h q s found = ground (
  arith,
  rw (lookup-insert task q (begin_state (or_default (lookup task runs))).0 runs) at found,
  h q s,
)

pub begin-refines :
    (task q : Uuid) (runs : SyncRuns)
    → AllRunning runs
    → (phase q (begin task runs).0
        ≡ (if task == q then (on_begin (phase task runs)).0 else phase q runs))
      × ((begin task runs).1 ≡ (on_begin (phase task runs)).1)
unfolding begin
begin-refines task q runs h =
    rw (lookup-insert task q (begin_state (or_default (lookup task runs))).0 runs)
      (go (lookup task runs) (h task))
  where
    go :
        (found : Option SyncRunState)
        → ((s : SyncRunState) → found ≡ some s → s.running ≡ true)
        → (phase_of (if task == q then some (begin_state (or_default found)).0 else lookup q runs)
            ≡ (if task == q then (on_begin (phase_of found)).0 else phase q runs))
          × ((begin_state (or_default found)).1 ≡ (on_begin (phase_of found)).1)
    go none k = ground arith
    go (some s) k = ground (arith, k s refl)

pub finish-AllRunning :
    (task : Uuid) (runs : SyncRuns) → AllRunning runs → AllRunning (finish task runs).0
unfolding finish
finish-AllRunning task runs h = go (lookup task runs) (h task)
  where
    go :
        (found : Option SyncRunState)
        → ((s : SyncRunState) → found ≡ some s → s.running ≡ true)
        → AllRunning (finish_state task runs found).0
    go none k = h
    go (some s) k = elim (Bool-cases s.rerun_requested) [
      | inl asked ↦ rw asked (λ q t found. ground (
        arith,
        rw (lookup-insert task q (record s { rerun_requested = false }) runs) at found,
        h q t,
        k s refl,
      ))
      | inr quiet ↦
          rw quiet (λ q t found. ground (arith, rw (lookup-erase task q runs) at found, h q t))
    ]

pub finish-refines :
    (task q : Uuid) (runs : SyncRuns)
    → AllRunning runs
    → (phase q (finish task runs).0
        ≡ (if task == q then (on_finish (phase task runs)).0 else phase q runs))
      × ((finish task runs).1 ≡ (on_finish (phase task runs)).1)
unfolding finish
finish-refines task q runs h = go (lookup task runs) refl (h task)
  where
    go :
        (found : Option SyncRunState)
        → lookup task runs ≡ found
        → ((s : SyncRunState) → found ≡ some s → s.running ≡ true)
        → (phase q (finish_state task runs found).0
            ≡ (if task == q then (on_finish (phase_of found)).0 else phase q runs))
          × ((finish_state task runs found).1 ≡ (on_finish (phase_of found)).1)
    go none e k = elim (Bool-cases (task == q)) [
      | inl same ↦ (rw same (rw (sym ((string_eq.beq_iff task q).0 same)) (rw e refl)), refl)
      | inr differ ↦ (rw differ refl, refl)
    ]
    go (some s) e k = elim (Bool-cases s.rerun_requested) [
      | inl asked ↦ rw asked (
          rw (lookup-insert task q (record s { rerun_requested = false }) runs)
            (ground (arith, k s refl)))
      | inr quiet ↦ rw quiet (rw (lookup-erase task q runs) (ground (arith, k s refl)))
    ]

pub abort-refines :
    (task q : Uuid) (runs : SyncRuns)
    → phase q (abort task runs) ≡ (if task == q then idle else phase q runs)
unfolding abort
abort-refines task q runs = rw (lookup-erase task q runs) (ground arith)

pub abort-AllRunning :
    (task : Uuid) (runs : SyncRuns) → AllRunning runs → AllRunning (abort task runs)
unfolding abort
abort-AllRunning task runs h q s found =
    ground (arith, rw (lookup-erase task q runs) at found, h q s)

-- In a coordinator whose entries are all of running tasks, each operation keeps that, does on its
-- task what the promise says, leaves every other task alone, and answers as the promise says.
pub coordinator-refines :
    (task q : Uuid) (runs : SyncRuns)
    → AllRunning runs
    → (AllRunning (begin task runs).0
        × (phase q (begin task runs).0
            ≡ (if task == q then (on_begin (phase task runs)).0 else phase q runs))
        × ((begin task runs).1 ≡ (on_begin (phase task runs)).1))
      × (AllRunning (finish task runs).0
          × (phase q (finish task runs).0
              ≡ (if task == q then (on_finish (phase task runs)).0 else phase q runs))
          × ((finish task runs).1 ≡ (on_finish (phase task runs)).1))
      × (AllRunning (abort task runs)
          × (phase q (abort task runs) ≡ (if task == q then idle else phase q runs)))
coordinator-refines task q runs h = (
  (begin-AllRunning task runs h, (begin-refines task q runs h).0, (begin-refines task q runs h).1),
  (
    finish-AllRunning task runs h,
    (finish-refines task q runs h).0,
    (finish-refines task q runs h).1,
  ),
  (abort-AllRunning task runs h, abort-refines task q runs),
)
