-- ===== src/Examples/Scheduling.antt =====
-- Runs of tasks and the trackers that start them.
use lan_bridge.Base.{
  ℕ, ◌-◌, ◌≤◌, Bool, true, false, some, List, [], ◌∷◌, ◌≡◌, refl, ◌↔◌, Memᴰ, ◌==◌, string_eq,
  if◌then◌else◌, arith,
}
use lan_bridge.Base.Assoc.{HashMap, lookup, insert, erase}
use lan_bridge.Model.{Uuid}
use lan_bridge.SyncRuns.{SyncRuns, begin, finish, abort}
use lan_bridge.SyncRuns.Runs.{
  idle, active, phase, AllRunning, on_begin, on_finish, coordinator-refines,
}
use lan_bridge.SyncRuns.Requests.{
  Event, request, run_ends, apply, play, admits, starts, stops, fails, happens, request-served,
  run-exclusive,
}
use lan_bridge.Trackers.{watcher_debounce, auto_sync_fallback_sweep_interval}
use lan_bridge.Trackers.Dirty.{ready_task_ids_at, after, last_mark, change, mem-ready_task_ids_iff}
use lan_bridge.Trackers.Sweeps.{should_sweep_at, ask_all, sweeps-apart}
use lan_bridge.Examples.Data.{task}

abbrev no_runs : SyncRuns
no_runs = []

no_runs-AllRunning : AllRunning no_runs
unfolding lookup
no_runs-AllRunning t s found = cc

-- The task runs, and another run is asked for before it ends.
abbrev busy : SyncRuns
busy = (task, record { running = true; rerun_requested = false }) ∷ []

busy-AllRunning : AllRunning busy
unfolding lookup
busy-AllRunning t s found = ground arith

abbrev events : List Event
events = run_ends task ∷ run_ends task ∷ []

no_failure : happens (fails task) (request task ∷ events) busy ≡ false
unfolding happens
no_failure = refl

idle_again : phase task (play (request task ∷ events) busy) ≡ idle
unfolding play apply begin finish lookup insert erase
idle_again = refl

request-served_example : happens (starts task) (request task ∷ events) busy ≡ true
request-served_example = request-served task events busy busy-AllRunning no_failure idle_again

no_stop : happens (stops task) (request task ∷ run_ends task ∷ []) busy ≡ false
unfolding happens apply begin finish lookup insert erase
no_stop = refl

run-exclusive_example :
    (happens (admits task) (request task ∷ run_ends task ∷ []) busy ≡ false)
    × ((again : Bool) × (phase task (play (request task ∷ run_ends task ∷ []) busy) ≡ active again))
unfolding lookup
run-exclusive_example =
    run-exclusive task (request task ∷ run_ends task ∷ []) busy false busy-AllRunning refl no_stop

coordinator-refines_example :
    (AllRunning (begin task busy).0
      × (phase task (begin task busy).0
          ≡ (if task == task then (on_begin (phase task busy)).0 else phase task busy))
      × ((begin task busy).1 ≡ (on_begin (phase task busy)).1))
    × (AllRunning (finish task busy).0
        × (phase task (finish task busy).0
            ≡ (if task == task then (on_finish (phase task busy)).0 else phase task busy))
        × ((finish task busy).1 ≡ (on_finish (phase task busy)).1))
    × (AllRunning (abort task busy)
        × (phase task (abort task busy) ≡ (if task == task then idle else phase task busy)))
coordinator-refines_example = coordinator-refines task task busy busy-AllRunning

-- Two changes, the newer one at 900.
mem-ready_task_ids_iff_example :
    Memᴰ task (ready_task_ids_at 3400 (after (change task [] 900 ∷ change task [] 100 ∷ []))) ↔ (
      (last : ℕ) × (last_mark task (change task [] 900 ∷ change task [] 100 ∷ []) ≡ some last)
      × (watcher_debounce ≤ 3400 - last))
mem-ready_task_ids_iff_example =
    mem-ready_task_ids_iff task (change task [] 900 ∷ change task [] 100 ∷ []) 3400

abbrev sweeps : HashMap Uuid ℕ
sweeps = (task, 0) ∷ []

sweep_allowed : (should_sweep_at task 130000 auto_sync_fallback_sweep_interval sweeps).1 ≡ true
unfolding should_sweep_at lookup
sweep_allowed = refl

sweeps-apart_example :
    (should_sweep_at task 150000 auto_sync_fallback_sweep_interval (
      ask_all auto_sync_fallback_sweep_interval
        ((task, 140000) ∷ [])
        (should_sweep_at task 130000 auto_sync_fallback_sweep_interval sweeps).0)).1
    ≡ false
sweeps-apart_example =
    sweeps-apart task 130000 150000 auto_sync_fallback_sweep_interval ((task, 140000) ∷ []) sweeps
      sweep_allowed (omega arith, tt) (omega arith)
