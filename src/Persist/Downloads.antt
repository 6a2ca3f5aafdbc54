-- ===== src/Persist/Downloads.antt =====
-- What a successful download leaves in the database.
use lan_bridge.Base.{
  ℕ, String, true, false, Option, none, some, List, [], ◌∷◌, ◌++◌, ◌≡◌, refl, sym, ap, ◌∙◌, ◌⊎◌,
  inl, inr, Bool-cases, if_true, All, map, beq_self, string_eq, pair_eq,
}
use lan_bridge.Base.Int.{ℤ}
use mathlib.Core.Path.{subst}
use lan_bridge.Model.{
  Uuid, FileSnapshot, SyncBaseline, secondary, noop, PendingReturnChange, is_directory,
}
use lan_bridge.Planner.{snapshot_decision, has_changed, differs_from, side}
use lan_bridge.Repository.Snapshots
use lan_bridge.Repository.Baselines
use lan_bridge.Repository.Pending
use lan_bridge.Repository.Snapshots.{snapshot_key}
use lan_bridge.Repository.Baselines.{baseline_key}
use lan_bridge.Repository.Pending.{pending_key}
use lan_bridge.Repository.Keyed.{select-upsert_self, select-delete}
use lan_bridge.Persist.{
  Store, Statement, TransferResult, ExecutionResult, run, counted, parent_statements,
  parent_directory_paths, directory_baseline, write_snapshot, write_baseline,
}
use lan_bridge.Persist.Statements.{run-append, run-keeps, run-step, settled_ok}
use lan_bridge.Persist.Network.{differs_from-side_of, baseline_written}
use lan_bridge.Persist.Secondary.{
  FileMetadata, Pulled, pulled_entry, time_or, pulled_snapshot, pulled_baseline, snapshot_statement,
  baseline_statement, pending_statement, pull_statements, write_pulled, persist_entry,
  persist_secondary_pull_success,
}

parents_keep_snapshots :
    (label : String) (task_id : Uuid) (path : String) (now : ℤ)
    → All
        (λ (s : Statement). (x : Store) → (s.change x).snapshots ≡ x.snapshots)
        (parent_statements label task_id path now)
unfolding parent_statements
parents_keep_snapshots label task_id path now = go (parent_directory_paths path)
  where
    go :
        (paths : List String)
        → All
            (λ (s : Statement). (x : Store) → (s.change x).snapshots ≡ x.snapshots)
            (map
              (λ p. record {
                label = label;
                change = write_baseline (directory_baseline task_id p now);
              })
              paths)
    go [] = tt
    go (p ∷ paths) = ((λ x. refl), go paths)

-- What a download leaves: its snapshot, a baseline equal to it and no pending change.
abbrev pub IsSettled : Uuid → String → Store → Type 0
IsSettled task_id path st =
    (s : FileSnapshot) × (b : SyncBaseline) × (Snapshots.get task_id path st.snapshots ≡ some s)
    × (Baselines.get task_id path st.baselines ≡ some b)
    × (Pending.get task_id path st.pending ≡ none)
    × (s.is_deleted ≡ false)
    × (snapshot_decision secondary s (some b) ≡ noop)

pulled_decision :
    (task_id : Uuid) (path : String) (pulled : Pulled) (modified now : ℤ)
    → snapshot_decision secondary
        (pulled_snapshot task_id path pulled modified)
        (some (pulled_baseline task_id path pulled modified now))
      ≡ noop
unfolding snapshot_decision has_changed
pulled_decision task_id path (kind, size, hash, status) modified now =
    let s = pulled_snapshot task_id path (kind, size, hash, status) modified in
    let b = pulled_baseline task_id path (kind, size, hash, status) modified now in
    let same : differs_from s (side secondary b) ≡ false =
      differs_from-side_of s hash status (inr refl) in
    elim (Bool-cases (is_directory kind)) [
      | inl dir ↦ rw dir refl
      | inr plain ↦ rw plain (rw same refl)
    ]

snapshot_written :
    (s : FileSnapshot) (table : List FileSnapshot)
    → Snapshots.get s.task_id s.relative_path (Snapshots.upsert s table) ≡ some s
unfolding Snapshots.get Snapshots.upsert
snapshot_written s table = select-upsert_self snapshot_key s table

pub pending_removed :
    (task_id : Uuid) (path : String) (table : List PendingReturnChange)
    → Pending.get task_id path (Pending.remove task_id path table) ≡ none
unfolding Pending.get Pending.remove
pending_removed task_id path table =
    select-delete pending_key (task_id, path) (task_id, path) table
    ∙ rw (beq_self {A = Uuid × String} (task_id, path)) refl

module _ (fails : ℕ → Option String) (stat : String → String ⊎ FileMetadata)
    (hash_file : String → String ⊎ String) where
  statements_settle :
      (task_id : Uuid) (path : String) (pulled : Pulled) (modified now : ℤ) (st : Store)
      → (run fails (pull_statements task_id path pulled modified now) st).1 ≡ none
      → IsSettled task_id path (run fails (pull_statements task_id path pulled modified now) st).0
  unfolding run
  statements_settle task_id path pulled modified now st h =
      let s = pulled_snapshot task_id path pulled modified in
      let b = pulled_baseline task_id path pulled modified now in
      let parents = parent_statements "pulled parent baseline update failed: " task_id path now in
      let ends = baseline_statement b ∷ pending_statement task_id path ∷ [] in
      let one = counted (write_snapshot s st) in
      let (first, h1) = run-step fails (snapshot_statement s) (parents ++ ends) st h in
      let (mid, ran, second) = run-append fails parents ends one h1 in
      let h2 : (run fails ends mid).1 ≡ none =
        ap (λ (x : Store × Option String). x.1) (sym second) ∙ h1 in
      let (third, h3) =
        run-step fails (baseline_statement b) (pending_statement task_id path ∷ []) mid h2 in
      let two = counted (write_baseline b mid) in
      let (fourth, h4) = run-step fails (pending_statement task_id path) [] two h3 in
      let final = ap (λ (x : Store × Option String). x.0) (first ∙ second ∙ third ∙ fourth) in
      let kept : mid.snapshots ≡ one.snapshots =
        ap (λ (x : Store × Option String). x.0.snapshots) (sym ran)
        ∙ run-keeps fails (λ (x : Store). x.snapshots) parents one (λ x. refl)
            (parents_keep_snapshots "pulled parent baseline update failed: " task_id path now) in
      subst (λ (x : Store). IsSettled task_id path x) (sym final)
        (
          s,
          b,
          ap (Snapshots.get task_id path) kept ∙ snapshot_written s st.snapshots,
          baseline_written b mid.baselines,
          pending_removed task_id path two.pending,
          refl,
          pulled_decision task_id path pulled modified now,
        )

  write_pulled_ends :
      (task_id : Uuid) (now modified : ℤ) (r : ExecutionResult) (entry : String ⊎ Pulled)
      (st : Store)
      → (write_pulled fails stat hash_file task_id now modified r entry st).1.success ≡ true
      → IsSettled task_id r.relative_path
          (write_pulled fails stat hash_file task_id now modified r entry st).0
  write_pulled_ends task_id now modified r (inl error) st h = cc
  write_pulled_ends task_id now modified r (inr pulled) st h =
      let outcome = run fails (pull_statements task_id r.relative_path pulled modified now) st in
      let (none_failed, state, was) = settled_ok outcome r h in
      subst (λ (x : Store). IsSettled task_id r.relative_path x) (sym state)
        (statements_settle task_id r.relative_path pulled modified now st none_failed)

  persist_entry_ends :
      (task_id : Uuid) (now : ℤ) (pull : TransferResult) (found : String ⊎ FileMetadata)
      (st : Store)
      → (persist_entry fails stat hash_file task_id now pull found st).1.success ≡ true
      → IsSettled task_id pull.result.relative_path
          (persist_entry fails stat hash_file task_id now pull found st).0
  persist_entry_ends task_id now pull (inl error) st h = cc
  persist_entry_ends task_id now pull (inr metadata) st h =
      write_pulled_ends task_id now (time_or now metadata.modified_unix_ms) pull.result
        (pulled_entry metadata (hash_file pull.result.relative_path) pull.transferred_hash) st h

  -- A download that is still a success once it is written to the database has a snapshot and a
  -- baseline there, between which the planner finds no change of the secondary's, and no pending
  -- change.
  pub persist_secondary_pull_success-IsSettled :
      (task_id : Uuid) (now : ℤ) (pull : TransferResult) (st : Store)
      → (persist_secondary_pull_success fails stat hash_file task_id now pull st).1.success ≡ true
      → IsSettled task_id pull.result.relative_path
          (persist_secondary_pull_success fails stat hash_file task_id now pull st).0
  unfolding persist_secondary_pull_success
  persist_secondary_pull_success-IsSettled task_id now pull st h =
      elim (Bool-cases pull.result.success) [
        | inr failed ↦ cc
        | inl good ↦
            let entry =
              persist_entry fails stat hash_file task_id now pull (stat pull.result.relative_path)
                st in
            let same : persist_secondary_pull_success fails stat hash_file task_id now pull st
                ≡ entry =
              if_true entry (st, pull.result) good in
            let still = ap (λ (x : Store × ExecutionResult). x.1.success) (sym same) ∙ h in
            subst (λ (x : Store × ExecutionResult). IsSettled task_id pull.result.relative_path x.0)
              (sym same)
              (persist_entry_ends task_id now pull (stat pull.result.relative_path) st still)
      ]
