-- ===== src/Planner.antt =====
-- src-tauri/src/core/planner.rs: snapshots and baselines compared into a list of actions.
-- The two `HashMap`s are look-ups in the lists they are collected from, where the last entry of a
-- path wins.
pub mod Plan
pub mod Order
use lan_bridge.Base.{
  ℕ, String, Bool, true, false, ◌&&◌, ◌||◌, not, Option, none, some, List, [], ◌∷◌, ◌++◌,
  if◌then◌else◌, ◌==◌, string_eq, int_eq, filter, length, ltb,
}
use lan_bridge.Base.Int.{ℤ}
use lan_bridge.Base.Text.{parts}
use lan_bridge.Model.{
  DeviceRole, primary, secondary, EntryKind, HashStatus, SyncDecision, apply_to_secondary,
  move_secondary_to_history, mark_pending_return, noop, FileSnapshot, SyncBaseline, is_verified,
  is_directory, is_noop, is_move_to_history,
}

pub record PlannedAction : Type 0 where
  pub relative_path : String
  pub decision : SyncDecision
  pub snapshot : Option FileSnapshot
  pub baseline : Option SyncBaseline

unfoldable pub path_depth : String → ℕ
unfolding parts
path_depth path = length (parts path)

-- What a baseline records of one side.
pub record Side : Type 0 where
  pub hash : Option String
  pub status : HashStatus
  pub size : ℤ
  pub modified : ℤ

abbrev pub side : DeviceRole → SyncBaseline → Side
side primary b = record {
  hash = b.primary_hash;
  status = b.primary_hash_status;
  size = b.primary_size;
  modified = b.primary_modified_unix_ms;
}
side secondary b = record {
  hash = b.secondary_hash;
  status = b.secondary_hash_status;
  size = b.secondary_size;
  modified = b.secondary_modified_unix_ms;
}

-- `snapshot.size != size || snapshot.modified_unix_ms != modified`
abbrev pub metadata_differs : FileSnapshot → Side → Bool
metadata_differs s b = not (s.size == b.size) || not (s.modified_unix_ms == b.modified)

abbrev pub hashes_differ : Option String → Option String → Bool → Bool
hashes_differ (some snap_hash) (some base_hash) otherwise = not (snap_hash == base_hash)
hashes_differ none base_hash otherwise = otherwise
hashes_differ (some snap_hash) none otherwise = otherwise

abbrev pub differs_from : FileSnapshot → Side → Bool
differs_from s b =
    if is_verified s.hash_status && is_verified b.status
    then hashes_differ s.blake3_hash b.hash (metadata_differs s b)
    else metadata_differs s b

unfoldable pub has_changed : FileSnapshot → SyncBaseline → DeviceRole → Bool
has_changed s b role = differs_from s (side role b)

-- `!s.deleted && !s.is_symlink`
abbrev pub is_live : FileSnapshot → Bool
is_live s = not s.is_deleted && not s.is_symlink

-- `baseline_map.get(path)`
unfoldable pub baseline_for : String → List SyncBaseline → Option SyncBaseline
baseline_for path [] = none
baseline_for path (b ∷ bs) = elim (baseline_for path bs) [
  | some later ↦ some later
  | none ↦ if b.relative_path == path then some b else none
]

-- `snapshot_map.get(path).is_some()`
unfoldable pub has_live_snapshot : String → List FileSnapshot → Bool
has_live_snapshot path [] = false
has_live_snapshot path (s ∷ ss) =
    (is_live s && s.relative_path == path) || has_live_snapshot path ss

abbrev pub role_decision : DeviceRole → SyncDecision
role_decision primary = apply_to_secondary
role_decision secondary = mark_pending_return

abbrev pub delete_decision : DeviceRole → SyncDecision
delete_decision primary = move_secondary_to_history
delete_decision secondary = mark_pending_return

unfoldable pub snapshot_decision : DeviceRole → FileSnapshot → Option SyncBaseline → SyncDecision
unfolding has_changed
snapshot_decision role s none = role_decision role
snapshot_decision role s (some b) =
    if is_directory s.kind then noop else if has_changed s b role then role_decision role else noop

-- The loop over the current snapshots.
unfoldable pub snapshot_actions :
    List SyncBaseline → DeviceRole → List FileSnapshot → List PlannedAction
unfolding snapshot_decision baseline_for
snapshot_actions baselines role [] = []
snapshot_actions baselines role (s ∷ ss) =
    let rest = snapshot_actions baselines role ss in
    let found = baseline_for s.relative_path baselines in
    let decision = snapshot_decision role s found in
    if is_live s && not (is_noop decision)
    then record {
      relative_path = s.relative_path;
      decision = decision;
      snapshot = some s;
      baseline = found;
    }
      ∷ rest
    else rest

-- The loop over the baselines.
unfoldable pub deletion_actions :
    List FileSnapshot → DeviceRole → List SyncBaseline → List PlannedAction
unfolding has_live_snapshot
deletion_actions snapshots role [] = []
deletion_actions snapshots role (b ∷ bs) =
    let rest = deletion_actions snapshots role bs in
    if has_live_snapshot b.relative_path snapshots
    then rest
    else record {
      relative_path = b.relative_path;
      decision = delete_decision role;
      snapshot = none;
      baseline = some b;
    }
      ∷ rest

-- The comparator's `Greater`: of two deletions the shallower one goes later.
unfoldable pub deletes_later : PlannedAction → PlannedAction → Bool
unfolding path_depth
deletes_later left right =
    is_move_to_history left.decision
    && is_move_to_history right.decision
    && ltb (path_depth left.relative_path) (path_depth right.relative_path)

-- `sort gt` is `sort_by` of the standard library for a comparator that gives `Greater` where `gt` is
-- true. Between a deletion and another action the comparator of a plan gives `Equal`, and so it is no
-- total order on a plan with both: the library then leaves the order open, or panics, and no plan is
-- returned.
abbrev pub Sort : Type 0
Sort = (PlannedAction → PlannedAction → Bool) → List PlannedAction → List PlannedAction

unfoldable pub plan_sync :
    Sort → List FileSnapshot → List SyncBaseline → DeviceRole → List PlannedAction
unfolding snapshot_actions deletion_actions deletes_later
plan_sync sort snapshots baselines role =
    sort deletes_later
      (snapshot_actions baselines role snapshots ++ deletion_actions snapshots role baselines)
