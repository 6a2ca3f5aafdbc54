-- ===== src/Examples/Planning.antt =====
-- Plans, their completion and compression, and conflicts.
use lan_bridge.Base.{true, false, some, List, [], ◌∷◌, ◌≡◌, refl, ◌↔◌, ◌⊎◌, Memᴰ, arith, filter}
use lan_bridge.Base.Int.{pos}
use lan_bridge.Model.{
  primary, FileSnapshot, SyncBaseline, move_secondary_to_history, is_move_to_history,
}
use lan_bridge.Planner.{PlannedAction, plan_sync, has_live_snapshot, baseline_for}
use lan_bridge.Planner.Plan.{
  NeedsSync, snapshot_action, deletion_action, plan_sync_sound, plan_sync_complete,
}
use lan_bridge.Planner.Order.{DeepestFirst, plan_sync-DeepestFirst}
use mathlib.Core.List.Memᴰ
use lan_bridge.Base.Sort.{sort_by, insert_sorted, sort_by-perm}
use lan_bridge.Base.SortLaws.{sort_by-IsInOrder}
use lan_bridge.Planner.{deletes_later}
use lan_bridge.Planner.{snapshot_actions, deletion_actions}
use lan_bridge.Conflict.{detect_conflict, no_conflict, conflict_filename, conflict_candidate}
use lan_bridge.Conflict.Detection.{IsSafe, detect_conflict-no_conflict_iff}
use lan_bridge.Conflict.Names.{conflict_filename_first}
use lan_bridge.Actions.Compress.{
  compress_directory_delete_actions, directory_deletes, deletes_directory, compress-covers,
}
use lan_bridge.Actions.{
  is_descendant_path, action_is_directory_delete, baseline_looks_like_directory,
}
use lan_bridge.Base.Text.{strip_prefix, slash_follows}
use lan_bridge.Examples.Data.{snapshot, baseline, folder_baseline, pending, deletion}

-- The file `a.txt` is new, and the baselines are of a directory that is gone with its file.
abbrev snapshots : List FileSnapshot
snapshots = snapshot "a.txt" "h1" ∷ []

abbrev baselines : List SyncBaseline
baselines = folder_baseline "d" ∷ baseline "d/x" "h2" ∷ []

abbrev actions : List PlannedAction
actions = deletion (folder_baseline "d") ∷ deletion (baseline "d/x" "h2") ∷ []

plan_sync_complete_example :
    ((s : FileSnapshot)
      → Memᴰ s snapshots
      → NeedsSync baselines primary s
      → Memᴰ (snapshot_action baselines primary s) (plan_sync sort_by snapshots baselines primary))
    × ((b : SyncBaseline)
        → Memᴰ b baselines
        → has_live_snapshot b.relative_path snapshots ≡ false
        → Memᴰ (deletion_action primary b) (plan_sync sort_by snapshots baselines primary))
plan_sync_complete_example =
    plan_sync_complete sort_by (sort_by-perm deletes_later) snapshots baselines primary

plan_sync_sound_example :
    ((s : FileSnapshot) × Memᴰ s snapshots
      × NeedsSync [] primary s
      × (snapshot_action [] primary (snapshot "a.txt" "h1") ≡ snapshot_action [] primary s))
    ⊎ ((b : SyncBaseline) × Memᴰ b []
        × (has_live_snapshot b.relative_path snapshots ≡ false)
        × (snapshot_action [] primary (snapshot "a.txt" "h1") ≡ deletion_action primary b))
unfolding plan_sync snapshot_actions deletion_actions sort_by insert_sorted baseline_for
plan_sync_sound_example =
    plan_sync_sound sort_by (sort_by-perm deletes_later) snapshots [] primary (Memᴰ.head refl)

no_snapshot : (s : FileSnapshot) → Memᴰ s [] → ¬ NeedsSync baselines primary s
no_snapshot s m = absurd (Memᴰ.not-nil m)

plan_sync-DeepestFirst_example : DeepestFirst (plan_sync sort_by [] baselines primary)
plan_sync-DeepestFirst_example =
    plan_sync-DeepestFirst sort_by (sort_by-perm deletes_later) (sort_by-IsInOrder deletes_later) []
      baselines no_snapshot

detect_conflict-no_conflict_iff_example :
    (detect_conflict
        (pending "a.txt" "h3")
        (some (snapshot "a.txt" "h1"))
        (some (baseline "a.txt" "h2"))
      ≡ no_conflict)
    ↔ IsSafe (pending "a.txt" "h3") (some (snapshot "a.txt" "h1")) (some (baseline "a.txt" "h2"))
detect_conflict-no_conflict_iff_example =
    detect_conflict-no_conflict_iff (pending "a.txt" "h3") (some (snapshot "a.txt" "h1"))
      (some (baseline "a.txt" "h2"))

conflict_filename_first_example :
    conflict_filename (λ _. false) (λ _. "2026-01-01 000000") 1 "a.txt" "PC" (pos 0)
    ≡ some (conflict_candidate "a.txt" "PC" "2026-01-01 000000" 0)
conflict_filename_first_example =
    conflict_filename_first (λ _. false) (λ _. "2026-01-01 000000") 1 0 "a.txt" "PC" (pos 0)
      (omega arith) (λ j l. absurd (omega arith)) refl

compress-covers_example :
    Memᴰ (deletion (baseline "d/x" "h2")) (compress_directory_delete_actions actions)
    ⊎ ((is_move_to_history move_secondary_to_history ≡ true)
        × ((r : PlannedAction) × Memᴰ r (compress_directory_delete_actions actions)
            × (deletes_directory r ≡ true)
            × (is_descendant_path "d/x" r.relative_path ≡ true)))
compress-covers_example =
    compress-covers actions (deletion (baseline "d/x" "h2")) (Memᴰ.tail (Memᴰ.head refl))

abbrev folder_deletion : List PlannedAction
folder_deletion = deletion (folder_baseline "d") ∷ []

folder_kept :
    Memᴰ (deletion (folder_baseline "d")) (compress_directory_delete_actions folder_deletion)
unfolding compress_directory_delete_actions directory_deletes filter action_is_directory_delete
    baseline_looks_like_directory is_descendant_path strip_prefix slash_follows
folder_kept = Memᴰ.head refl
