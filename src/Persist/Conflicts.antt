-- ===== src/Persist/Conflicts.antt =====
-- src-tauri/src/commands/mod.rs: what the secondary writes to the database after its version has
-- replaced the primary's. The statements are those of one transaction.
use lan_bridge.Base.{ℕ, String, Option, none, some, [], ◌∷◌, ◌≡◌, ◌⊎◌, inl, inr}
use lan_bridge.Base.Int.{ℤ, pos}
use lan_bridge.Model.{Uuid, SyncBaseline, verified}
use lan_bridge.Repository.Baselines
use lan_bridge.Repository.Pending
use lan_bridge.Persist.{Store, Statement, run, synced_baseline, write_baseline, clear_pending}
use lan_bridge.Persist.Secondary.{FileMetadata, time_or}

-- An error ends the transaction with the tables as they were before: rusqlite rolls back what is
-- dropped without a commit. A failure of that rollback is not modelled.
abbrev rolled_back : Store → Store → String → Store × Option String
rolled_back before st error = (record before { statements = st.statements }, some error)

abbrev committed : Store → Store × Option String → Store × Option String
committed before (st, none) = (st, none)
committed before (st, some error) = rolled_back before st error

abbrev resolved_baseline : Uuid → String → ℤ → FileMetadata → String → SyncBaseline
resolved_baseline task_id path now m hash =
    synced_baseline task_id path (some hash) verified (pos m.len) (time_or now m.modified_unix_ms)
      now

abbrev clear_statement : Uuid → String → Statement
clear_statement task_id path = record { label = ""; change = clear_pending task_id path }

abbrev commit_statement : Statement
commit_statement = record { label = ""; change = λ st. st }

abbrev baseline_write : SyncBaseline → Statement
baseline_write b = record { label = ""; change = write_baseline b }

-- `metadata` and `on_disk` are the metadata and the hash of the source, or the error of reading them.
module _ (fails : ℕ → Option String) (metadata : String ⊎ FileMetadata)
    (on_disk : String ⊎ String) where
  abbrev after_hash :
      Uuid → String → ℤ → Store → Store → FileMetadata → String ⊎ String → Store × Option String
  after_hash task_id path now before st m (inl error) = rolled_back before st error
  after_hash task_id path now before st m (inr hash) = committed before (
      run fails (baseline_write (resolved_baseline task_id path now m hash) ∷ commit_statement ∷ [])
        st)

  abbrev after_metadata :
      Uuid → String → ℤ → Store → Store → String ⊎ FileMetadata → Store × Option String
  after_metadata task_id path now before st (inl error) = rolled_back before st error
  after_metadata task_id path now before st (inr m) =
      after_hash task_id path now before st m on_disk

  abbrev after_clear : Uuid → String → ℤ → Store → Store × Option String → Store × Option String
  after_clear task_id path now before (st, some error) = rolled_back before st error
  after_clear task_id path now before (st, none) =
      after_metadata task_id path now before st metadata

  unfoldable pub persist_secondary_conflict_success :
      Uuid → String → ℤ → Store → Store × Option String
  persist_secondary_conflict_success task_id path now st =
      after_clear task_id path now st (run fails (clear_statement task_id path ∷ []) st)

abbrev pub SameTables : Store → Store → Type 0
SameTables a b = (a.snapshots ≡ b.snapshots) × (a.baselines ≡ b.baselines) × (a.pending ≡ b.pending)

-- The version that was kept is the baseline of both sides, and nothing is pending.
abbrev pub IsResolved : Uuid → String → FileMetadata → String → Store → Type 0
IsResolved task_id path m hash st =
    (b : SyncBaseline) × (Baselines.get task_id path st.baselines ≡ some b)
    × (b.primary_hash ≡ some hash)
    × (b.secondary_hash ≡ some hash)
    × (b.primary_hash_status ≡ verified)
    × (b.secondary_hash_status ≡ verified)
    × (b.primary_size ≡ pos m.len)
    × (b.secondary_size ≡ pos m.len)
    × (b.primary_modified_unix_ms ≡ b.secondary_modified_unix_ms)
    × (Pending.get task_id path st.pending ≡ none)

-- Something that the resolution relies on failed.
abbrev pub HasCause : (ℕ → Option String) → String ⊎ FileMetadata → String ⊎ String → Type 0
HasCause fails metadata on_disk =
    ((error : String) × (metadata ≡ inl error))
    ⊎ (((error : String) × (on_disk ≡ inl error))
        ⊎ ((n : ℕ) × (error : String) × (fails n ≡ some error)))

-- The resolution was written as a whole, or there is an error with a cause and the tables are as
-- before.
abbrev pub WritesAll :
    (ℕ → Option String)
    → Uuid
    → String
    → String ⊎ FileMetadata
    → String ⊎ String
    → Store
    → Store × Option String
    → Type 0
WritesAll fails task_id path metadata on_disk before (st, none) =
    (m : FileMetadata) × (hash : String) × (metadata ≡ inr m)
    × (on_disk ≡ inr hash)
    × IsResolved task_id path m hash st
WritesAll fails task_id path metadata on_disk before (st, some error) =
    SameTables st before × HasCause fails metadata on_disk
