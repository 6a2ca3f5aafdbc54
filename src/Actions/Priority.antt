-- ===== src/Actions/Priority.antt =====
-- commands/mod.rs: the order in which transfers are scheduled.
use lan_bridge.Base.{ℕ, eqb, Option, none, some, List, ◌≡◌, if◌then◌else◌, filter}
use lan_bridge.Base.Int.{ℤ, pos, leb_ℤ}
use lan_bridge.Base.Sort.{
  sort_by, by_key, IsSortedBy, sort_by-perm, sort_by-IsSortedBy, filter-sort_by,
}
use mathlib.Core.List.{Permᴰ}
use lan_bridge.Model.{
  SyncDecision, apply_to_secondary, move_secondary_to_history, FileSnapshot, is_directory,
}
use lan_bridge.Planner.{PlannedAction}
use lan_bridge.Actions.{RemoteFileState}

-- `8 * 1024 * 1024`
abbrev pub small_file : ℤ
small_file = pos 8388608

abbrev pub apply_priority : Option FileSnapshot → ℕ
apply_priority none = 1
apply_priority (some s) =
    if is_directory s.kind then 0 else if leb_ℤ s.size small_file then 1 else 2

abbrev pub decision_priority : SyncDecision → Option FileSnapshot → ℕ
decision_priority move_secondary_to_history snapshot = 0
decision_priority apply_to_secondary snapshot = apply_priority snapshot
decision_priority _ snapshot = 3

unfoldable pub action_priority : PlannedAction → ℕ
action_priority action = decision_priority action.decision action.snapshot

unfoldable pub sort_actions_by_priority : List PlannedAction → List PlannedAction
unfolding action_priority sort_by
sort_actions_by_priority actions = sort_by (by_key action_priority) actions

unfoldable pub remote_priority : RemoteFileState → ℕ
remote_priority f = if is_directory f.kind then 0 else if leb_ℤ f.size small_file then 1 else 2

unfoldable pub sort_remote_files_by_priority : List RemoteFileState → List RemoteFileState
unfolding remote_priority sort_by
sort_remote_files_by_priority files = sort_by (by_key remote_priority) files

-- Sorting by priority keeps all actions, puts no action after one of a higher number, and keeps the
-- order of the actions of one priority.
pub sort_actions_by_priority_lem :
    (actions : List PlannedAction)
    → Permᴰ (sort_actions_by_priority actions) actions
      × IsSortedBy action_priority (sort_actions_by_priority actions)
      × ((n : ℕ)
          → filter (λ a. eqb (action_priority a) n) (sort_actions_by_priority actions)
            ≡ filter (λ a. eqb (action_priority a) n) actions)
unfolding sort_actions_by_priority
sort_actions_by_priority_lem actions = (
  sort_by-perm (by_key action_priority) actions,
  sort_by-IsSortedBy action_priority actions,
  λ n. filter-sort_by action_priority n actions,
)

-- The files to download are the same, ordered by priority and, within one, as they were.
pub sort_remote_files_by_priority_lem :
    (files : List RemoteFileState)
    → Permᴰ (sort_remote_files_by_priority files) files
      × IsSortedBy remote_priority (sort_remote_files_by_priority files)
      × ((n : ℕ)
          → filter (λ f. eqb (remote_priority f) n) (sort_remote_files_by_priority files)
            ≡ filter (λ f. eqb (remote_priority f) n) files)
unfolding sort_remote_files_by_priority
sort_remote_files_by_priority_lem files = (
  sort_by-perm (by_key remote_priority) files,
  sort_by-IsSortedBy remote_priority files,
  λ n. filter-sort_by remote_priority n files,
)
