-- ===== src/Persist/Returns.antt =====
-- src-tauri/src/commands/mod.rs: what the secondary writes to the database after it has returned
-- changes.
use lan_bridge.Base.{
  ℕ, String, Option, none, some, List, [], ◌∷◌, if◌then◌else◌, string_eq, pair_eq,
}
use lan_bridge.Base.Int.{ℤ}
use lan_bridge.Base.Assoc.{HashMap, lookup}
use lan_bridge.Model.{Uuid, SyncBaseline, PendingReturnChange, is_deletion}
use lan_bridge.Repository.Snapshots
use lan_bridge.Repository.Baselines
use lan_bridge.Repository.Snapshots.{snapshot_key}
use lan_bridge.Repository.Baselines.{baseline_key}
use lan_bridge.Persist.{
  Store, Statement, ExecutionResult, run, settled, synced_baseline, write_baseline, clear_pending,
}

abbrev pub mark_snapshot : Uuid → String → Statement
mark_snapshot task_id path = record {
  label = "return-delete snapshot update failed: ";
  change = λ st. record st { snapshots = Snapshots.mark_deleted task_id path st.snapshots };
}

abbrev pub remove_baseline : Uuid → String → Statement
remove_baseline task_id path = record {
  label = "return-delete baseline remove failed: ";
  change = λ st. record st { baselines = Baselines.remove task_id path st.baselines };
}

abbrev pub remove_pending : String → Uuid → String → Statement
remove_pending label task_id path = record { label = label; change = clear_pending task_id path }

-- `size_on_disk` is the size of the local entry, which is 0 for a directory or a missing one.
abbrev pub returned_baseline : Uuid → String → ℤ → ℤ → PendingReturnChange → SyncBaseline
returned_baseline task_id path size_on_disk now change =
    synced_baseline task_id path change.secondary_hash change.secondary_hash_status size_on_disk
      change.secondary_modified_unix_ms now

abbrev pub return_delete_statements : Uuid → String → List Statement
return_delete_statements task_id path =
    mark_snapshot task_id path
    ∷ remove_baseline task_id path
    ∷ remove_pending "remove pending delete failed: " task_id path
    ∷ []

abbrev pub return_copy_statements : SyncBaseline → Uuid → String → List Statement
return_copy_statements b task_id path =
    record { label = "return-sync baseline update failed: "; change = write_baseline b }
    ∷ remove_pending "remove pending change failed: " task_id path
    ∷ []

abbrev pub return_statements : Uuid → String → ℤ → ℤ → PendingReturnChange → List Statement
return_statements task_id path size_on_disk now change =
    if is_deletion change.change_kind
    then return_delete_statements task_id path
    else return_copy_statements (returned_baseline task_id path size_on_disk now change) task_id
        path

module _ (fails : ℕ → Option String) (size_on_disk : String → ℤ) where
  abbrev pub return_change :
      Uuid → ℤ → ExecutionResult → Option PendingReturnChange → Store → Store × ExecutionResult
  return_change task_id now r none st = (st, r)
  return_change task_id now r (some change) st =
      settled
        (run fails
          (return_statements task_id r.relative_path (size_on_disk r.relative_path) now change) st)
        r

  -- One turn of the loop of `persist_return_successes`.
  unfoldable pub persist_return_success :
      Uuid
      → HashMap String PendingReturnChange
      → ℤ
      → ExecutionResult
      → Store
      → Store × ExecutionResult
  persist_return_success task_id pending now r st =
      if r.success then return_change task_id now r (lookup r.relative_path pending) st else (st, r)

  unfoldable pub persist_return_successes :
      Uuid
      → HashMap String PendingReturnChange
      → ℤ
      → List ExecutionResult
      → Store
      → Store × List ExecutionResult
  persist_return_successes task_id pending now [] st = (st, [])
  persist_return_successes task_id pending now (r ∷ rs) st =
      let (after, own) = persist_return_success task_id pending now r st in
      let (last, others) = persist_return_successes task_id pending now rs after in
      (last, own ∷ others)
