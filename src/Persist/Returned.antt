-- ===== src/Persist/Returned.antt =====
-- What a successful return leaves in the database.
use lan_bridge.Base.{
  false, ℕ, String, Bool, true, Option, none, some, List, [], ◌∷◌, ◌≡◌, refl, sym, ap, ◌∙◌, ◌⊎◌,
  inl, inr, Bool-cases, if_true, if_false, beq_self, string_eq, pair_eq,
}
use lan_bridge.Base.Int.{ℤ}
use lan_bridge.Base.Assoc.{HashMap, lookup}
use mathlib.Core.Path.{subst}
use lan_bridge.Model.{Uuid, FileSnapshot, SyncBaseline, PendingReturnChange, is_deletion}
use lan_bridge.Repository.Snapshots
use lan_bridge.Repository.Baselines
use lan_bridge.Repository.Pending
use lan_bridge.Repository.Snapshots.{snapshot_key}
use lan_bridge.Repository.Baselines.{baseline_key}
use lan_bridge.Repository.Keyed.{select, select-update, select-delete}
use lan_bridge.Persist.{Store, Statement, ExecutionResult, run, settled, counted, write_baseline}
use lan_bridge.Persist.Statements.{run-step, settled_ok}
use lan_bridge.Persist.Network.{baseline_written}
use lan_bridge.Persist.Downloads.{pending_removed}
use lan_bridge.Persist.Returns.{
  mark_snapshot, remove_baseline, remove_pending, returned_baseline, return_delete_statements,
  return_copy_statements, return_statements, return_change, persist_return_success,
}

abbrev pub is_gone : Option FileSnapshot → Bool
is_gone none = true
is_gone (some s) = s.is_deleted

-- After a returned change nothing is pending. A deletion leaves no baseline and no live snapshot,
-- another change a baseline with what the secondary had reported on both sides.
abbrev pub IsReturned : Uuid → String → PendingReturnChange → Store → Type 0
IsReturned task_id path change st =
    (Pending.get task_id path st.pending ≡ none)
    × (((is_deletion change.change_kind ≡ true)
          × (Baselines.get task_id path st.baselines ≡ none)
          × (is_gone (Snapshots.get task_id path st.snapshots) ≡ true))
        ⊎ ((is_deletion change.change_kind ≡ false)
            × (b : SyncBaseline) × (Baselines.get task_id path st.baselines ≡ some b)
            × (b.primary_hash ≡ change.secondary_hash)
            × (b.secondary_hash ≡ change.secondary_hash)
            × (b.primary_hash_status ≡ change.secondary_hash_status)
            × (b.secondary_hash_status ≡ change.secondary_hash_status)
            × (b.secondary_modified_unix_ms ≡ change.secondary_modified_unix_ms)))

marked_gone :
    (task_id : Uuid) (path : String) (table : List FileSnapshot)
    → is_gone (Snapshots.get task_id path (Snapshots.mark_deleted task_id path table)) ≡ true
unfolding Snapshots.get Snapshots.mark_deleted
marked_gone task_id path table =
    ap is_gone (
      select-update snapshot_key (λ s. record s { is_deleted = true }) (task_id, path)
        (task_id, path) table (λ r. refl))
    ∙ rw (beq_self {A = Uuid × String} (task_id, path))
        (go (select snapshot_key (task_id, path) table))
  where
    go :
        (found : Option FileSnapshot)
        → is_gone (elim found as (λ _. Option FileSnapshot) [
          | none ↦ none
          | some r ↦ some (record r { is_deleted = true })
        ])
          ≡ true
    go none = refl
    go (some r) = refl

baseline_removed :
    (task_id : Uuid) (path : String) (table : List SyncBaseline)
    → Baselines.get task_id path (Baselines.remove task_id path table) ≡ none
unfolding Baselines.get Baselines.remove
baseline_removed task_id path table =
    select-delete baseline_key (task_id, path) (task_id, path) table
    ∙ rw (beq_self {A = Uuid × String} (task_id, path)) refl

module _ (fails : ℕ → Option String) (size_on_disk : String → ℤ) where
  deleted_written :
      (task_id : Uuid) (path : String) (change : PendingReturnChange) (st : Store)
      → is_deletion change.change_kind ≡ true
      → (run fails (return_delete_statements task_id path) st).1 ≡ none
      → IsReturned task_id path change (run fails (return_delete_statements task_id path) st).0
  unfolding run
  deleted_written task_id path change st deletion h =
      let pending = remove_pending "remove pending delete failed: " task_id path in
      let (first, h1) =
        run-step fails (mark_snapshot task_id path) (remove_baseline task_id path ∷ pending ∷ []) st
          h in
      let one = counted ((mark_snapshot task_id path).change st) in
      let (second, h2) = run-step fails (remove_baseline task_id path) (pending ∷ []) one h1 in
      let two = counted ((remove_baseline task_id path).change one) in
      let (third, h3) = run-step fails pending [] two h2 in
      let final = ap (λ (x : Store × Option String). x.0) (first ∙ second ∙ third) in
      subst (λ (x : Store). IsReturned task_id path change x) (sym final)
        (
          pending_removed task_id path st.pending,
          inl (
            deletion,
            baseline_removed task_id path st.baselines,
            marked_gone task_id path st.snapshots,
          ),
        )

  copy_written :
      (b : SyncBaseline) (change : PendingReturnChange) (st : Store)
      → b.primary_hash ≡ change.secondary_hash
      → b.secondary_hash ≡ change.secondary_hash
      → b.primary_hash_status ≡ change.secondary_hash_status
      → b.secondary_hash_status ≡ change.secondary_hash_status
      → b.secondary_modified_unix_ms ≡ change.secondary_modified_unix_ms
      → is_deletion change.change_kind ≡ false
      → (run fails (return_copy_statements b b.task_id b.relative_path) st).1 ≡ none
      → IsReturned b.task_id b.relative_path change
          (run fails (return_copy_statements b b.task_id b.relative_path) st).0
  unfolding run
  copy_written b change st primary_side secondary_side p s modified copies h =
      let pending = remove_pending "remove pending change failed: " b.task_id b.relative_path in
      let write : Statement = record {
        label = "return-sync baseline update failed: ";
        change = write_baseline b;
      } in
      let (first, h1) = run-step fails write (pending ∷ []) st h in
      let one = counted (write_baseline b st) in
      let (second, h2) = run-step fails pending [] one h1 in
      let final = ap (λ (x : Store × Option String). x.0) (first ∙ second) in
      subst (λ (x : Store). IsReturned b.task_id b.relative_path change x) (sym final)
        (
          pending_removed b.task_id b.relative_path one.pending,
          inr (
            copies,
            b,
            baseline_written b st.baselines,
            primary_side,
            secondary_side,
            p,
            s,
            modified,
          ),
        )

  return_leaves :
      (task_id : Uuid) (path : String) (now : ℤ) (change : PendingReturnChange) (st : Store)
      → (run fails (return_statements task_id path (size_on_disk path) now change) st).1 ≡ none
      → IsReturned task_id path change
          (run fails (return_statements task_id path (size_on_disk path) now change) st).0
  return_leaves task_id path now change st h =
      let deletes = return_delete_statements task_id path in
      let b = returned_baseline task_id path (size_on_disk path) now change in
      let copies = return_copy_statements b task_id path in
      elim (Bool-cases (is_deletion change.change_kind)) [
        | inl deletion ↦
            let same : return_statements task_id path (size_on_disk path) now change ≡ deletes =
              if_true deletes copies deletion in
            subst (λ (ss : List Statement). IsReturned task_id path change (run fails ss st).0)
              (sym same)
              (deleted_written task_id path change st deletion
                (subst (λ (ss : List Statement). (run fails ss st).1 ≡ none) same h))
        | inr other ↦
            let same : return_statements task_id path (size_on_disk path) now change ≡ copies =
              if_false deletes copies other in
            subst (λ (ss : List Statement). IsReturned task_id path change (run fails ss st).0)
              (sym same)
              (copy_written b change st refl refl refl refl refl other
                (subst (λ (ss : List Statement). (run fails ss st).1 ≡ none) same h))
      ]

  -- A return of a pending change that is still a success once it is written to the database leaves
  -- nothing pending at its path, and there the baseline that the change calls for: none for a
  -- deletion, whose snapshot is gone as well, and else one with the hash that the secondary reported
  -- on both sides.
  pub persist_return_success-IsReturned :
      (task_id : Uuid) (pending : HashMap String PendingReturnChange) (now : ℤ)
      (r : ExecutionResult) (st : Store) (change : PendingReturnChange)
      → lookup r.relative_path pending ≡ some change
      → r.success ≡ true
      → (persist_return_success fails size_on_disk task_id pending now r st).1.success ≡ true
      → IsReturned task_id r.relative_path change
          (persist_return_success fails size_on_disk task_id pending now r st).0
  unfolding persist_return_success
  persist_return_success-IsReturned task_id pending now r st change found good h =
      let path = r.relative_path in
      let outcome = run fails (return_statements task_id path (size_on_disk path) now change) st in
      let entry = return_change fails size_on_disk task_id now r (lookup path pending) st in
      let same : persist_return_success fails size_on_disk task_id pending now r st
          ≡ settled outcome r =
        if_true entry (st, r) good
        ∙ ap
            (λ (x : Option PendingReturnChange).
              return_change fails size_on_disk task_id now r x st)
            found in
      let (none_failed, state, was) =
        settled_ok outcome r (ap (λ (x : Store × ExecutionResult). x.1.success) (sym same) ∙ h) in
      subst (λ (x : Store × ExecutionResult). IsReturned task_id path change x.0) (sym same)
        (subst (λ (x : Store). IsReturned task_id path change x) (sym state)
          (return_leaves task_id path now change st none_failed))
