-- ===== src/Examples/Outcomes.antt =====
-- What runs leave in the database.
use lan_bridge.Base.{
  ℕ, String, true, false, Option, none, some, [], ◌∷◌, ◌≡◌, ◌⊎◌, inl, inr, refl, eqb, if◌then◌else◌,
  All, string_eq,
}
use lan_bridge.Base.Int.{pos}
use lan_bridge.Base.Text.{parts}
use lan_bridge.Base.Assoc.{HashMap, lookup}
use lan_bridge.Model.{SyncBaseline, PendingReturnChange, apply_to_secondary, noop, primary}
use lan_bridge.Planner.{PlannedAction, snapshot_decision}
use lan_bridge.Repository.Baselines
use lan_bridge.Persist.{
  Store, run, TransferResult, persist_network_success, parent_statements, parent_directory_paths,
  proper_prefixes,
}
use lan_bridge.Persist.Network.{
  belongs, persist_network_success_copied, persist_network_success_deleted,
}
use lan_bridge.Persist.Secondary.{FileMetadata, persist_secondary_pull_success}
use lan_bridge.Persist.Downloads.{IsSettled, persist_secondary_pull_success-IsSettled}
use lan_bridge.Persist.Conflicts.{persist_secondary_conflict_success}
use lan_bridge.Persist.Returns.{persist_return_success}
use lan_bridge.Persist.Returned.{IsReturned, persist_return_success-IsReturned}
use lan_bridge.Examples.Data.{task, snapshot, baseline, pending, deletion, sync_task}
use lan_bridge.Examples.Like.{like_from, like_from-IsLike}

abbrev store : Store
store = record {
  snapshots = snapshot "d/a.txt" "h1" ∷ snapshot "b.txt" "h2" ∷ [];
  baselines = baseline "d/a.txt" "h1" ∷ [];
  pending = pending "d/a.txt" "h3" ∷ [];
  statements = 0;
}

abbrev done : String → TransferResult
done path = record {
  result = record { relative_path = path; success = true; error = none; retryable = false };
  transferred_hash = some "h2";
}

-- The fourth statement fails.
abbrev fails_later : ℕ → Option String
fails_later n = if eqb n 3 then some "disk full" else none

abbrev nothing_hashed : String → String → Option String
nothing_hashed root path = none

abbrev copy : PlannedAction
copy = record {
  relative_path = "e/b.txt";
  decision = apply_to_secondary;
  snapshot = some (snapshot "e/b.txt" "h2");
  baseline = none;
}

copy_succeeds :
    (persist_network_success fails_later
      (like_from false)
      nothing_hashed
      sync_task
      (pos 50)
      copy
      (done "e/b.txt")
      store).1.success
    ≡ true
unfolding persist_network_success run parent_statements parent_directory_paths proper_prefixes parts
copy_succeeds = refl

persist_network_success_copied_example :
    (b : SyncBaseline) × (Baselines.get task "e/b.txt"
        (persist_network_success fails_later
          (like_from false)
          nothing_hashed
          sync_task
          (pos 50)
          copy
          (done "e/b.txt")
          store).0.baselines
      ≡ some b)
    × (snapshot_decision primary (snapshot "e/b.txt" "h2") (some b) ≡ noop)
persist_network_success_copied_example =
    persist_network_success_copied fails_later (like_from false) nothing_hashed sync_task (pos 50)
      copy (done "e/b.txt") store (snapshot "e/b.txt" "h2") refl refl (inr refl) copy_succeeds

deletion_succeeds :
    (persist_network_success fails_later
      (like_from false)
      nothing_hashed
      sync_task
      (pos 50)
      (deletion (baseline "d" "h1"))
      (done "d")
      store).1.success
    ≡ true
unfolding persist_network_success run
deletion_succeeds = refl

persist_network_success_deleted_example :
    All
      (λ s. belongs task "d" s.task_id s.relative_path ≡ false)
      (persist_network_success fails_later
        (like_from false)
        nothing_hashed
        sync_task
        (pos 50)
        (deletion (baseline "d" "h1"))
        (done "d")
        store).0.snapshots
    × All
        (λ b. belongs task "d" b.task_id b.relative_path ≡ false)
        (persist_network_success fails_later
          (like_from false)
          nothing_hashed
          sync_task
          (pos 50)
          (deletion (baseline "d" "h1"))
          (done "d")
          store).0.baselines
persist_network_success_deleted_example =
    persist_network_success_deleted fails_later (like_from false) nothing_hashed like_from-IsLike
      sync_task (pos 50) (deletion (baseline "d" "h1")) (done "d") store refl deletion_succeeds

abbrev on_disk : String → String ⊎ FileMetadata
on_disk path = inr (record { is_dir = false; len = 3; modified_unix_ms = some (pos 33) })

abbrev no_hash : String → String ⊎ String
no_hash path = inl "unreadable"

abbrev never_fails : ℕ → Option String
never_fails n = none

download_succeeds :
    (persist_secondary_pull_success never_fails on_disk no_hash task
      (pos 50)
      (done "d/a.txt")
      store).1.success
    ≡ true
unfolding persist_secondary_pull_success run parent_statements parent_directory_paths
    proper_prefixes parts
download_succeeds = refl

persist_secondary_pull_success-IsSettled_example :
    IsSettled task "d/a.txt"
      (persist_secondary_pull_success never_fails on_disk no_hash task
        (pos 50)
        (done "d/a.txt")
        store).0
persist_secondary_pull_success-IsSettled_example =
    persist_secondary_pull_success-IsSettled never_fails on_disk no_hash task (pos 50)
      (done "d/a.txt") store download_succeeds

abbrev pub returned : HashMap String PendingReturnChange
returned = ("d/a.txt", pending "d/a.txt" "h3") ∷ []

returned_is_known : lookup "d/a.txt" returned ≡ some (pending "d/a.txt" "h3")
unfolding lookup
returned_is_known = refl

return_succeeds :
    (persist_return_success fails_later
      (λ path. pos 3)
      task
      returned
      (pos 50)
      (done "d/a.txt").result
      store).1.success
    ≡ true
unfolding persist_return_success run lookup
return_succeeds = refl

persist_return_success-IsReturned_example :
    IsReturned task "d/a.txt"
      (pending "d/a.txt" "h3")
      (persist_return_success fails_later
        (λ path. pos 3)
        task
        returned
        (pos 50)
        (done "d/a.txt").result
        store).0
persist_return_success-IsReturned_example =
    persist_return_success-IsReturned fails_later (λ path. pos 3) task returned (pos 50)
      (done "d/a.txt").result store (pending "d/a.txt" "h3") returned_is_known refl return_succeeds

resolution_succeeds :
    (persist_secondary_conflict_success never_fails
      (on_disk "d/a.txt")
      (inr "h3")
      task
      "d/a.txt"
      (pos 50)
      store).1
    ≡ none
unfolding persist_secondary_conflict_success run
resolution_succeeds = refl

-- The second statement of the resolution fails.
abbrev fails_second : ℕ → Option String
fails_second n = if eqb n 1 then some "disk full" else none

resolution_is_undone :
    (persist_secondary_conflict_success fails_second
      (on_disk "d/a.txt")
      (inr "h3")
      task
      "d/a.txt"
      (pos 50)
      store).0.pending
    ≡ store.pending
unfolding persist_secondary_conflict_success run
resolution_is_undone = refl
