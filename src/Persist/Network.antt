-- ===== src/Persist/Network.antt =====
-- What a success on the primary leaves in the database.
use lan_bridge.Base.{
  ℕ, String, Bool, true, false, ◌&&◌, ◌||◌, not, Option, none, some, List, [], ◌∷◌, ◌++◌, ◌≡◌, refl,
  sym, ap, ◌∙◌, ◌⊎◌, inl, inr, arith, Bool-cases, ◌==◌, string_eq, option_eq, int_eq, beq_self, All,
  All-of_mem, mem-filter, pair_eq,
}
use lan_bridge.Base.Int.{ℤ}
use mathlib.Core.Path.{subst}
use lan_bridge.Model.{
  Uuid, SyncTask, FileSnapshot, SyncBaseline, primary, HashStatus, apply_to_secondary,
  move_secondary_to_history, noop, is_verified, is_directory,
}
use lan_bridge.Planner.{
  PlannedAction, snapshot_decision, has_changed, metadata_differs, hashes_differ, Side,
  differs_from,
}
use lan_bridge.Actions.{is_descendant_path}
use lan_bridge.Repository.Baselines
use lan_bridge.Repository.Baselines.{baseline_key}
use lan_bridge.Repository.Keyed.{select-upsert_self}
use lan_bridge.Repository.Trees.{is_in_tree, remove_snapshot_tree, remove_baseline_tree}
use lan_bridge.Repository.Patterns.{IsLike, escaped_tree_like_pattern-below}
use lan_bridge.Persist.{
  Store, Statement, TransferResult, ExecutionResult, run, settled, applied_baseline,
  delete_statements, delete_snapshots, delete_baselines, counted, parent_statements, write_baseline,
  persist_network_success, verified_hash_for_successful_apply,
}
use lan_bridge.Persist.Statements.{run-last, run-step, settled_ok}

-- What was sent is what the snapshot says, if the snapshot has a verified hash.
abbrev pub SentSnapshot : FileSnapshot → Option String → Type 0
SentSnapshot snap none = Unit
SentSnapshot snap (some h) = (is_verified snap.hash_status ≡ false) ⊎ (snap.blake3_hash ≡ some h)

pub baseline_written :
    (b : SyncBaseline) (table : List SyncBaseline)
    → Baselines.get b.task_id b.relative_path (Baselines.upsert b table) ≡ some b
unfolding Baselines.get Baselines.upsert
baseline_written b table = select-upsert_self baseline_key b table

-- A side with the metadata of a snapshot, and with its hash if that is verified.
abbrev side_of : FileSnapshot → Option String → HashStatus → Side
side_of snap hash status = record {
  hash = hash;
  status = status;
  size = snap.size;
  modified = snap.modified_unix_ms;
}

same_hashes :
    (a : Option String) (otherwise : Bool) → otherwise ≡ false → hashes_differ a a otherwise ≡ false
same_hashes none otherwise h = h
same_hashes (some a) otherwise h = rw (beq_self a) refl

pub differs_from-side_of :
    (snap : FileSnapshot) (hash : Option String) (status : HashStatus)
    → (is_verified snap.hash_status ≡ false) ⊎ (snap.blake3_hash ≡ hash)
    → differs_from snap (side_of snap hash status) ≡ false
differs_from-side_of snap hash status h =
    let metadata : metadata_differs snap (side_of snap hash status) ≡ false =
      rw (beq_self snap.size, beq_self snap.modified_unix_ms) refl in
    elim h [
      | inl unverified ↦ rw unverified metadata
      | inr same ↦ elim (Bool-cases (is_verified snap.hash_status && is_verified status)) [
        | inl both ↦ rw both (rw same (same_hashes hash _ metadata))
        | inr one ↦ rw one metadata
      ]
    ]

hash_kept :
    (on_disk : Option String) (snap : FileSnapshot) (transferred : Option String)
    → SentSnapshot snap transferred
    → (is_verified snap.hash_status ≡ false)
      ⊎ (snap.blake3_hash ≡ (verified_hash_for_successful_apply on_disk snap transferred).0)
unfolding verified_hash_for_successful_apply
hash_kept on_disk snap (some h) sent = sent
hash_kept on_disk snap none sent = elim (Bool-cases (is_verified snap.hash_status)) [
  | inl known ↦ inr (rw known refl)
  | inr unverified ↦ inl unverified
]

not_repeated :
    (snap : FileSnapshot) (b : SyncBaseline)
    → has_changed snap b primary ≡ false
    → snapshot_decision primary snap (some b) ≡ noop
unfolding snapshot_decision
not_repeated snap b h = elim (Bool-cases (is_directory snap.kind)) [
  | inl dir ↦ rw dir refl
  | inr plain ↦ rw (plain, h) refl
]

module _ (fails : ℕ → Option String) (like : String → String → Bool)
    (hash_file : String → String → Option String) where
  -- A copy to the secondary that is still a success once it is written to the database has a baseline
  -- there, of which the planner then finds the snapshot unchanged, if what was sent is what the
  -- snapshot says.
  pub persist_network_success_copied :
      (task : SyncTask) (now : ℤ) (action : PlannedAction) (transfer : TransferResult) (st : Store)
      (snap : FileSnapshot)
      → action.decision ≡ apply_to_secondary
      → action.snapshot ≡ some snap
      → SentSnapshot snap transfer.transferred_hash
      → (persist_network_success fails like hash_file task now action transfer st).1.success ≡ true
      → (b : SyncBaseline) × (Baselines.get task.id action.relative_path
            (persist_network_success fails like hash_file task now action transfer st).0.baselines
          ≡ some b)
        × (snapshot_decision primary snap (some b) ≡ noop)
  unfolding persist_network_success has_changed
  persist_network_success_copied task now action transfer st snap decided has_snap sent h =
      elim (Bool-cases transfer.result.success) [
        | inr failed ↦ cc
        | inl good ↦
            let b =
              applied_baseline fails like hash_file task now action snap
                transfer.transferred_hash in
            let before =
              parent_statements "parent baseline update failed: " task.id action.relative_path
                now in
            let last : Statement = record {
              label = "baseline update failed: ";
              change = write_baseline b;
            } in
            let same : persist_network_success fails like hash_file task now action transfer st
                ≡ settled (run fails (before ++ (last ∷ [])) st) transfer.result =
              rw (good, decided, has_snap, persist_network_success) refl in
            let (none_failed, state, was) =
              settled_ok (run fails (before ++ (last ∷ [])) st) transfer.result
                (ap (λ (x : Store × ExecutionResult). x.1.success) (sym same) ∙ h) in
            let (earlier, written) = run-last fails before last st none_failed in
            (
              b,
              ap
                    (λ (x : Store × ExecutionResult).
                      Baselines.get task.id action.relative_path x.0.baselines)
                    same
                  ∙ ap (λ (x : Store). Baselines.get task.id action.relative_path x.baselines)
                      (state ∙ written)
                  ∙ baseline_written b earlier.baselines,
              not_repeated snap b (
                  differs_from-side_of snap b.primary_hash b.primary_hash_status (
                    hash_kept (hash_file task.local_path action.relative_path) snap
                      transfer.transferred_hash sent)),
            )
      ]

-- `path` itself and what lies below it, of a task.
abbrev pub belongs : Uuid → String → Uuid → String → Bool
belongs task_id path own_task own =
    own_task == task_id && (own == path || is_descendant_path own path)

-- LIKE is taken by what SQLite documents of it.
module _ (fails : ℕ → Option String) (like : String → String → Bool)
    (hash_file : String → String → Option String) (laws : IsLike like) where
  kept_outside :
      (task_id own_task : Uuid) (path own : String)
      → not (own_task == task_id && is_in_tree like path own) ≡ true
      → belongs task_id path own_task own ≡ false
  kept_outside task_id own_task path own h = elim (Bool-cases (is_descendant_path own path)) [
    | inl below ↦
        let matched = escaped_tree_like_pattern-below like laws own path below in ground arith
    | inr apart ↦ ground arith
  ]

  snapshot_tree_removed :
      (task_id : Uuid) (path : String) (table : List FileSnapshot)
      → All
          (λ s. belongs task_id path s.task_id s.relative_path ≡ false)
          (remove_snapshot_tree like task_id path table)
  unfolding remove_snapshot_tree
  snapshot_tree_removed task_id path table =
      All-of_mem _ (remove_snapshot_tree like task_id path table)
        (λ s m. kept_outside task_id s.task_id path s.relative_path (mem-filter _ table m).1)

  baseline_tree_removed :
      (task_id : Uuid) (path : String) (table : List SyncBaseline)
      → All
          (λ b. belongs task_id path b.task_id b.relative_path ≡ false)
          (remove_baseline_tree like task_id path table)
  unfolding remove_baseline_tree
  baseline_tree_removed task_id path table =
      All-of_mem _ (remove_baseline_tree like task_id path table)
        (λ b m. kept_outside task_id b.task_id path b.relative_path (mem-filter _ table m).1)

  -- A deletion on the secondary that is still a success once it is written to the database leaves
  -- neither a snapshot nor a baseline of the task at the path or below it, whatever characters the
  -- paths have, given what SQLite documents of LIKE: a `%` at the end matches any text, the escape
  -- character takes a special character literally, and any other character matches itself.
  pub persist_network_success_deleted :
      (task : SyncTask) (now : ℤ) (action : PlannedAction) (transfer : TransferResult) (st : Store)
      → action.decision ≡ move_secondary_to_history
      → (persist_network_success fails like hash_file task now action transfer st).1.success ≡ true
      → All
          (λ s. belongs task.id action.relative_path s.task_id s.relative_path ≡ false)
          (persist_network_success fails like hash_file task now action transfer st).0.snapshots
        × All
            (λ b. belongs task.id action.relative_path b.task_id b.relative_path ≡ false)
            (persist_network_success fails like hash_file task now action transfer st).0.baselines
  unfolding persist_network_success run
  persist_network_success_deleted task now action transfer st decided h =
      elim (Bool-cases transfer.result.success) [
        | inr failed ↦ cc
        | inl good ↦
            let statements = delete_statements fails like hash_file task action in
            let snapshots = delete_snapshots fails like hash_file task action in
            let baselines = delete_baselines fails like hash_file task action in
            let same : persist_network_success fails like hash_file task now action transfer st
                ≡ settled (run fails statements st) transfer.result =
              rw (good, decided, persist_network_success) refl in
            let (none_failed, state, was) =
              settled_ok (run fails statements st) transfer.result
                (ap (λ (x : Store × ExecutionResult). x.1.success) (sym same) ∙ h) in
            let (first, rest) = run-step fails snapshots (baselines ∷ []) st none_failed in
            let (second, end) = run-step fails baselines [] (counted (snapshots.change st)) rest in
            let final = state ∙ ap (λ (x : Store × Option String). x.0) (first ∙ second) in
            let stored = ap (λ (x : Store × ExecutionResult). x.0) same ∙ final in
            subst
              (λ (x : Store).
                All (λ s. belongs task.id action.relative_path s.task_id s.relative_path ≡ false)
                  x.snapshots
                × All (λ b. belongs task.id action.relative_path b.task_id b.relative_path ≡ false)
                    x.baselines)
              (sym stored)
              (
                snapshot_tree_removed task.id action.relative_path st.snapshots,
                baseline_tree_removed task.id action.relative_path st.baselines,
              )
      ]
