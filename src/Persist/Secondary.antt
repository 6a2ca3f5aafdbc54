-- ===== src/Persist/Secondary.antt =====
-- src-tauri/src/commands/mod.rs: what the secondary writes to the database after downloads.
use lan_bridge.Base.{
  ℕ, String, ◌<>◌, Bool, false, Option, none, some, List, [], ◌∷◌, ◌++◌, ◌⊎◌, inl, inr,
  if◌then◌else◌, string_eq, pair_eq,
}
use lan_bridge.Base.Int.{ℤ, pos}
use lan_bridge.Model.{
  Uuid, FileSnapshot, SyncBaseline, EntryKind, file, directory, HashStatus, verified, unavailable,
}
use lan_bridge.Persist.{
  Store, Statement, TransferResult, ExecutionResult, run, settled, failed_with, parent_statements,
  synced_baseline, write_snapshot, write_baseline, clear_pending,
}

pub record FileMetadata : Type 0 where
  pub is_dir : Bool
  pub len : ℕ
  pub modified_unix_ms : Option ℤ

-- Kind, size, hash and status of what was downloaded.
abbrev pub Pulled : Type 0
Pulled = EntryKind × ℤ × Option String × HashStatus

abbrev pub hashed_pulled : ℕ → String ⊎ String → String ⊎ Pulled
hashed_pulled len (inl error) = inl ("pulled file hash failed: " <> error)
hashed_pulled len (inr hash) = inr (file, pos len, some hash, verified)

abbrev pub file_pulled : ℕ → String ⊎ String → Option String → String ⊎ Pulled
file_pulled len on_disk (some hash) = inr (file, pos len, some hash, verified)
file_pulled len on_disk none = hashed_pulled len on_disk

abbrev pub pulled_entry : FileMetadata → String ⊎ String → Option String → String ⊎ Pulled
pulled_entry metadata on_disk transferred =
    if metadata.is_dir
    then inr (directory, pos 0, none, unavailable)
    else file_pulled metadata.len on_disk transferred

abbrev pub time_or : ℤ → Option ℤ → ℤ
time_or now none = now
time_or now (some modified) = modified

abbrev pub pulled_snapshot : Uuid → String → Pulled → ℤ → FileSnapshot
pulled_snapshot task_id path (kind, size, hash, status) modified = record {
  task_id = task_id;
  relative_path = path;
  kind = kind;
  size = size;
  modified_unix_ms = modified;
  blake3_hash = hash;
  hash_status = status;
  is_deleted = false;
  is_symlink = false;
}

abbrev pub pulled_baseline : Uuid → String → Pulled → ℤ → ℤ → SyncBaseline
pulled_baseline task_id path (kind, size, hash, status) modified now =
    synced_baseline task_id path hash status size modified now

abbrev pub snapshot_statement : FileSnapshot → Statement
snapshot_statement s = record {
  label = "pulled snapshot update failed: ";
  change = write_snapshot s;
}

abbrev pub baseline_statement : SyncBaseline → Statement
baseline_statement b = record {
  label = "pulled baseline update failed: ";
  change = write_baseline b;
}

abbrev pub pending_statement : Uuid → String → Statement
pending_statement task_id path = record {
  label = "pulled pending cleanup failed: ";
  change = clear_pending task_id path;
}

abbrev pub pull_statements : Uuid → String → Pulled → ℤ → ℤ → List Statement
pull_statements task_id path pulled modified now =
    snapshot_statement (pulled_snapshot task_id path pulled modified)
    ∷ (parent_statements "pulled parent baseline update failed: " task_id path now
        ++ (baseline_statement (pulled_baseline task_id path pulled modified now)
            ∷ pending_statement task_id path
            ∷ []))

-- `stat` reads the metadata of a downloaded path, `hash_file` its hash.
module _ (fails : ℕ → Option String) (stat : String → String ⊎ FileMetadata)
    (hash_file : String → String ⊎ String) where
  abbrev pub write_pulled :
      Uuid → ℤ → ℤ → ExecutionResult → String ⊎ Pulled → Store → Store × ExecutionResult
  write_pulled task_id now modified r (inl error) st = (st, failed_with error r)
  write_pulled task_id now modified r (inr pulled) st =
      settled (run fails (pull_statements task_id r.relative_path pulled modified now) st) r

  abbrev pub persist_entry :
      Uuid → ℤ → TransferResult → String ⊎ FileMetadata → Store → Store × ExecutionResult
  persist_entry task_id now pull (inl error) st =
      (st, failed_with ("pulled file metadata failed: " <> error) pull.result)
  persist_entry task_id now pull (inr metadata) st =
      write_pulled task_id now (time_or now metadata.modified_unix_ms) pull.result
        (pulled_entry metadata (hash_file pull.result.relative_path) pull.transferred_hash) st

  -- One turn of the loop of `persist_secondary_pull_successes`.
  unfoldable pub persist_secondary_pull_success :
      Uuid → ℤ → TransferResult → Store → Store × ExecutionResult
  persist_secondary_pull_success task_id now pull st =
      if pull.result.success
      then persist_entry task_id now pull (stat pull.result.relative_path) st
      else (st, pull.result)

  unfoldable pub persist_secondary_pull_successes :
      Uuid → ℤ → List TransferResult → Store → Store × List ExecutionResult
  persist_secondary_pull_successes task_id now [] st = (st, [])
  persist_secondary_pull_successes task_id now (pull ∷ pulls) st =
      let (after, own) = persist_secondary_pull_success task_id now pull st in
      let (last, others) = persist_secondary_pull_successes task_id now pulls after in
      (last, own ∷ others)
