-- ===== src/Persist.antt =====
-- src-tauri/src/commands/mod.rs: how the outcome of a run is written to the database. A statement may
-- fail: `fails n` is the error of the n-th statement of a run, if it has one. Hashing a file and
-- reading its metadata are arguments.
pub mod Statements
pub mod Network
pub mod Secondary
pub mod Downloads
pub mod Returns
pub mod Returned
pub mod Conflicts
use lan_bridge.Base.{
  ℕ, suc, String, ◌<>◌, Bool, true, false, not, Option, none, some, List, [], ◌∷◌, ◌++◌, map,
  length, if◌then◌else◌, filter,
}
use lan_bridge.Base.Int.{ℤ, pos}
use lan_bridge.Base.Text.{parts}
use lan_bridge.Model.{
  Uuid, SyncTask, FileSnapshot, SyncBaseline, PendingReturnChange, HashStatus, verified,
  unavailable, EntryKind, file, directory, SyncDecision, apply_to_secondary,
  move_secondary_to_history, is_verified, is_deletion,
}
use lan_bridge.Planner.{PlannedAction}
use lan_bridge.Repository.Snapshots
use lan_bridge.Repository.Baselines
use lan_bridge.Repository.Pending
use lan_bridge.Repository.Trees.{remove_snapshot_tree, remove_baseline_tree}

pub record ExecutionResult : Type 0 where
  pub relative_path : String
  pub success : Bool
  pub error : Option String
  pub retryable : Bool

-- The result of an action over the network, or of a download.
pub record TransferResult : Type 0 where
  pub result : ExecutionResult
  pub transferred_hash : Option String

pub record Store : Type 0 where
  pub snapshots : List FileSnapshot
  pub baselines : List SyncBaseline
  pub pending : List PendingReturnChange
  pub statements : ℕ

-- A statement, with the text before its error.
pub record Statement : Type 0 where
  pub label : String
  pub change : Store → Store

abbrev pub counted : Store → Store
counted st = record st { statements = suc st.statements }

-- The statements in their order, up to the first that fails.
unfoldable pub run : (ℕ → Option String) → List Statement → Store → Store × Option String
run fails [] st = (st, none)
run fails (s ∷ ss) st = elim (fails st.statements) [
  | some error ↦ (counted st, some (s.label <> error))
  | none ↦ run fails ss (counted (s.change st))
]

abbrev pub failed_with : String → ExecutionResult → ExecutionResult
failed_with error r = record r { success = false; error = some error; retryable = true }

abbrev pub settled : Store × Option String → ExecutionResult → Store × ExecutionResult
settled (st, none) r = (st, r)
settled (st, some error) r = (st, failed_with error r)

abbrev pub write_snapshot : FileSnapshot → Store → Store
write_snapshot s st = record st { snapshots = Snapshots.upsert s st.snapshots }

abbrev pub write_baseline : SyncBaseline → Store → Store
write_baseline b st = record st { baselines = Baselines.upsert b st.baselines }

abbrev pub clear_pending : Uuid → String → Store → Store
clear_pending task_id path st = record st { pending = Pending.remove task_id path st.pending }

-- `parts[..depth].join("/")` for each depth from one to that of the parent.
unfoldable pub proper_prefixes : String → List String → List String
proper_prefixes above [] = []
proper_prefixes above (part ∷ []) = []
proper_prefixes above (part ∷ next ∷ rest) =
    (above <> part) ∷ proper_prefixes (above <> (part <> "/")) (next ∷ rest)

unfoldable pub parent_directory_paths : String → List String
parent_directory_paths relative_path = proper_prefixes "" (parts relative_path)

unfoldable pub directory_baseline : Uuid → String → ℤ → SyncBaseline
directory_baseline task_id relative_path now = record {
  task_id = task_id;
  relative_path = relative_path;
  primary_hash = none;
  primary_hash_status = unavailable;
  primary_size = pos 0;
  secondary_size = pos 0;
  primary_modified_unix_ms = pos 0;
  secondary_hash = none;
  secondary_hash_status = unavailable;
  secondary_modified_unix_ms = pos 0;
  last_synced_unix_ms = now;
}

-- `ensure_parent_directory_baselines`
unfoldable pub parent_statements : String → Uuid → String → ℤ → List Statement
parent_statements label task_id relative_path now =
    map
      (λ path. record {
        label = label;
        change = write_baseline (directory_baseline task_id path now);
      })
      (parent_directory_paths relative_path)

-- Both sides of a baseline as they are after a copy.
abbrev pub synced_baseline : Uuid → String → Option String → HashStatus → ℤ → ℤ → ℤ → SyncBaseline
synced_baseline task_id path hash status size modified now = record {
  task_id = task_id;
  relative_path = path;
  primary_hash = hash;
  primary_hash_status = status;
  primary_size = size;
  secondary_size = size;
  primary_modified_unix_ms = modified;
  secondary_hash = hash;
  secondary_hash_status = status;
  secondary_modified_unix_ms = modified;
  last_synced_unix_ms = now;
}

abbrev hashed_or_known : FileSnapshot → Option String → Option String × HashStatus
hashed_or_known snap (some hash) = (some hash, verified)
hashed_or_known snap none = (snap.blake3_hash, snap.hash_status)

-- `on_disk` is what hashing the file of the action gives.
unfoldable pub verified_hash_for_successful_apply :
    Option String → FileSnapshot → Option String → Option String × HashStatus
verified_hash_for_successful_apply on_disk snap (some hash) = (some hash, verified)
verified_hash_for_successful_apply on_disk snap none =
    if is_verified snap.hash_status
    then (snap.blake3_hash, snap.hash_status)
    else hashed_or_known snap on_disk

module _ (fails : ℕ → Option String) (like : String → String → Bool)
    (hash_file : String → String → Option String) where
  abbrev pub applied_baseline :
      SyncTask → ℤ → PlannedAction → FileSnapshot → Option String → SyncBaseline
  applied_baseline task now action snap transferred =
      let on_disk = hash_file task.local_path action.relative_path in
      let verdict = verified_hash_for_successful_apply on_disk snap transferred in
      synced_baseline task.id action.relative_path verdict.0 verdict.1 snap.size
        snap.modified_unix_ms now

  abbrev pub apply_statements :
      SyncTask → ℤ → PlannedAction → Option String → Option FileSnapshot → List Statement
  apply_statements task now action transferred none = []
  apply_statements task now action transferred (some snap) =
      parent_statements "parent baseline update failed: " task.id action.relative_path now
      ++ (record {
        label = "baseline update failed: ";
        change = write_baseline (applied_baseline task now action snap transferred);
      }
          ∷ [])

  abbrev pub delete_snapshots : SyncTask → PlannedAction → Statement
  delete_snapshots task action = record {
    label = "snapshot delete cleanup failed: ";
    change = λ st. record st {
      snapshots = remove_snapshot_tree like task.id action.relative_path st.snapshots;
    };
  }

  abbrev pub delete_baselines : SyncTask → PlannedAction → Statement
  delete_baselines task action = record {
    label = "baseline remove failed: ";
    change = λ st. record st {
      baselines = remove_baseline_tree like task.id action.relative_path st.baselines;
    };
  }

  abbrev pub delete_statements : SyncTask → PlannedAction → List Statement
  delete_statements task action = delete_snapshots task action ∷ delete_baselines task action ∷ []

  abbrev pub network_statements :
      SyncTask → ℤ → PlannedAction → Option String → SyncDecision → List Statement
  network_statements task now action transferred apply_to_secondary =
      apply_statements task now action transferred action.snapshot
  network_statements task now action transferred move_secondary_to_history =
      delete_statements task action
  network_statements task now action transferred _ = []

  -- One turn of the loop of `persist_network_successes`.
  unfoldable pub persist_network_success :
      SyncTask → ℤ → PlannedAction → TransferResult → Store → Store × ExecutionResult
  persist_network_success task now action transfer st =
      if transfer.result.success
      then settled
          (run fails (network_statements task now action transfer.transferred_hash action.decision)
            st)
          transfer.result
      else (st, transfer.result)

  -- The loop goes over the pairs of an action and its result.
  unfoldable pub persist_network_successes :
      SyncTask → ℤ → List PlannedAction → List TransferResult → Store → Store × List ExecutionResult
  persist_network_successes task now [] results st = (st, map (λ r. r.result) results)
  persist_network_successes task now (a ∷ as_) [] st = (st, [])
  persist_network_successes task now (a ∷ as_) (r ∷ rs) st =
      let (after, own) = persist_network_success task now a r st in
      let (last, others) = persist_network_successes task now as_ rs after in (last, own ∷ others)
