-- ===== src/SyncRuns.antt =====
-- src-tauri/src/app_state.rs: `SyncRunCoordinator`, which lets one run of a task go at a time and
-- remembers that another was asked for. The state is the map under the mutex.
pub mod Runs
pub mod Requests
use lan_bridge.Base.{Bool, true, false, Option, none, some, List, ◌==◌, string_eq, if◌then◌else◌}
use lan_bridge.Base.Assoc.{HashMap, lookup, insert, erase}
use lan_bridge.Model.{Uuid}

pub data SyncRunAdmission : Type 0 where
  started queued : SyncRunAdmission

pub record SyncRunState : Type 0 where
  pub running : Bool
  pub rerun_requested : Bool

abbrev pub SyncRuns : Type 0
SyncRuns = HashMap Uuid SyncRunState

-- `runs.entry(task_id).or_default()`
abbrev pub or_default : Option SyncRunState → SyncRunState
or_default none = record { running = false; rerun_requested = false }
or_default (some s) = s

abbrev pub begin_state : SyncRunState → SyncRunState × SyncRunAdmission
begin_state s =
    if s.running
    then (record s { rerun_requested = true }, queued)
    else (record s { running = true }, started)

unfoldable pub begin : Uuid → SyncRuns → SyncRuns × SyncRunAdmission
begin task_id runs =
    let after = begin_state (or_default (lookup task_id runs)) in
    (insert task_id after.0 runs, after.1)

-- Whether the run that ends is followed by another.
abbrev pub finish_state : Uuid → SyncRuns → Option SyncRunState → SyncRuns × Bool
finish_state task_id runs none = (runs, false)
finish_state task_id runs (some s) =
    if s.rerun_requested
    then (insert task_id (record s { rerun_requested = false }) runs, true)
    else (erase task_id runs, false)

unfoldable pub finish : Uuid → SyncRuns → SyncRuns × Bool
finish task_id runs = finish_state task_id runs (lookup task_id runs)

unfoldable pub abort : Uuid → SyncRuns → SyncRuns
abort task_id runs = erase task_id runs
