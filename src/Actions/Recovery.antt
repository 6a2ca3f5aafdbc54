-- ===== src/Actions/Recovery.antt =====
-- commands/mod.rs: the actions that are added to a plan from the cached snapshots and from what the
-- peer lacks. Each function returns the longer list and the number of actions added.
use lan_bridge.Base.{
  ℕ, String, Bool, true, false, ◌&&◌, ◌||◌, Option, none, some, List, [], ◌∷◌, ◌++◌, ◌≡◌, refl, inl,
  inr, Memᴰ, if◌then◌else◌, ◌==◌, option_eq, string_eq, int_eq, Bool-cases, any, length,
}
use lan_bridge.Model.{
  move_secondary_to_history, apply_to_secondary, FileSnapshot, SyncBaseline, is_directory,
  is_verified,
}
use lan_bridge.Planner.{PlannedAction, is_live, has_live_snapshot}
use lan_bridge.Actions.{RemoteFileState, is_none}
use mathlib.Core.List.Memᴰ

-- `paths.contains(path)` of the paths of a list.
abbrev pub has_path {ℓ} : {A : Type ℓ} → (A → String) → String → List A → Bool
has_path path_of path xs = any (λ x. path_of x == path) xs

abbrev pub recovered_action : FileSnapshot → PlannedAction
recovered_action s = record {
  relative_path = s.relative_path;
  decision = move_secondary_to_history;
  snapshot = some s;
  baseline = none;
}

-- The `continue` of the loop.
abbrev pub skips_recovery :
    List PlannedAction → List FileSnapshot → List SyncBaseline → FileSnapshot → Bool
skips_recovery actions current baselines s =
    s.is_deleted
    || s.is_symlink
    || has_live_snapshot s.relative_path current
    || has_path (λ (b : SyncBaseline). b.relative_path) s.relative_path baselines
    || has_path (λ (a : PlannedAction). a.relative_path) s.relative_path actions

unfoldable pub recovered :
    List PlannedAction
    → List FileSnapshot
    → List SyncBaseline
    → List FileSnapshot
    → List PlannedAction
unfolding has_live_snapshot
recovered actions current baselines [] = []
recovered actions current baselines (s ∷ ss) =
    let rest = recovered actions current baselines ss in
    if skips_recovery actions current baselines s then rest else recovered_action s ∷ rest

unfoldable pub append_recovered_delete_actions :
    List PlannedAction
    → List FileSnapshot
    → List FileSnapshot
    → List SyncBaseline
    → List PlannedAction × ℕ
unfolding recovered
append_recovered_delete_actions actions cached current baselines = (
  actions ++ recovered actions current baselines cached,
  length (recovered actions current baselines cached),
)

unfoldable pub snapshot_matches_primary_baseline : FileSnapshot → SyncBaseline → Bool
snapshot_matches_primary_baseline s b =
    if is_directory s.kind
    then is_none b.primary_hash
    else if is_verified s.hash_status && is_verified b.primary_hash_status
    then s.blake3_hash == b.primary_hash
    else s.size == b.primary_size && s.modified_unix_ms == b.primary_modified_unix_ms

-- `snapshot_map.get(path)`: the last live snapshot of the path.
unfoldable pub live_snapshot : String → List FileSnapshot → Option FileSnapshot
live_snapshot path [] = none
live_snapshot path (s ∷ ss) = elim (live_snapshot path ss) [
  | some later ↦ some later
  | none ↦ if is_live s && s.relative_path == path then some s else none
]

abbrev pub repair_action : SyncBaseline → FileSnapshot → PlannedAction
repair_action b s = record {
  relative_path = b.relative_path;
  decision = apply_to_secondary;
  snapshot = some s;
  baseline = some b;
}

-- What the loop pushes for a baseline, given the snapshot of its path.
abbrev pub repair_for : Bool → SyncBaseline → Option FileSnapshot → List PlannedAction
repair_for known b none = []
repair_for known b (some s) =
    if known
    then []
    else if snapshot_matches_primary_baseline s b
    then repair_action b s ∷ []
    else []

-- The path has an action already or the peer has it.
abbrev pub is_known : List PlannedAction → List RemoteFileState → SyncBaseline → Bool
is_known actions remote b =
    has_path (λ (a : PlannedAction). a.relative_path) b.relative_path actions
    || has_path (λ (r : RemoteFileState). r.relative_path) b.relative_path remote

unfoldable pub repairs :
    List PlannedAction
    → List FileSnapshot
    → List RemoteFileState
    → List SyncBaseline
    → List PlannedAction
unfolding live_snapshot snapshot_matches_primary_baseline
repairs actions snapshots remote [] = []
repairs actions snapshots remote (b ∷ bs) =
    repair_for (is_known actions remote b) b (live_snapshot b.relative_path snapshots)
    ++ repairs actions snapshots remote bs

unfoldable pub append_remote_missing_repair_actions :
    List PlannedAction
    → List FileSnapshot
    → List SyncBaseline
    → List RemoteFileState
    → List PlannedAction × ℕ
unfolding repairs
append_remote_missing_repair_actions actions snapshots baselines remote = (
  actions ++ repairs actions snapshots remote baselines,
  length (repairs actions snapshots remote baselines),
)

repair_for_sound :
    (known : Bool) (b : SyncBaseline) (found : Option FileSnapshot) {a : PlannedAction}
    → Memᴰ a (repair_for known b found)
    → (s : FileSnapshot) × (known ≡ false)
      × (found ≡ some s)
      × (snapshot_matches_primary_baseline s b ≡ true)
      × (a ≡ repair_action b s)
repair_for_sound known b none m = absurd (Memᴰ.not-nil m)
repair_for_sound true b (some s) m = absurd (Memᴰ.not-nil m)
repair_for_sound false b (some s) m = elim (Bool-cases (snapshot_matches_primary_baseline s b)) [
  | inl same ↦ elim (Memᴰ.cases_cons (rw same at m)) [
    | inl e ↦ (s, refl, refl, same, e)
    | inr k ↦ absurd (Memᴰ.not-nil k)
  ]
  | inr differ ↦ absurd (Memᴰ.not-nil (rw differ at m))
]

mem-repairs :
    (actions : List PlannedAction) (snapshots : List FileSnapshot) (remote : List RemoteFileState)
    (baselines : List SyncBaseline) {a : PlannedAction}
    → Memᴰ a (repairs actions snapshots remote baselines)
    → (b : SyncBaseline) × Memᴰ b baselines
      × ((s : FileSnapshot) × (is_known actions remote b ≡ false)
          × (live_snapshot b.relative_path snapshots ≡ some s)
          × (snapshot_matches_primary_baseline s b ≡ true)
          × (a ≡ repair_action b s))
unfolding repairs
mem-repairs actions snapshots remote [] m = elim m [ ]
mem-repairs actions snapshots remote (b ∷ bs) m =
    elim (Memᴰ.append_cases
      (repair_for (is_known actions remote b) b (live_snapshot b.relative_path snapshots)) m) [
        | inl here ↦ (b, Memᴰ.head refl, repair_for_sound _ b _ here)
        | inr later ↦
            let (c, there, rest) = mem-repairs actions snapshots remote bs later in
            (c, Memᴰ.tail there, rest)
      ]

-- The repair sends only what the peer lacks: it keeps the plan as the front of the new list, reports
-- the number of actions added, and each of these is of a baseline whose path has no action and is
-- not reported by the peer, with a live snapshot of that path that still matches the baseline.
pub append_remote_missing_sound :
    (actions : List PlannedAction) (snapshots : List FileSnapshot) (baselines : List SyncBaseline)
    (remote : List RemoteFileState)
    → (added : List PlannedAction) × ((append_remote_missing_repair_actions actions snapshots
          baselines remote).0
        ≡ actions ++ added)
      × ((append_remote_missing_repair_actions actions snapshots baselines remote).1 ≡ length added)
      × ((a : PlannedAction)
          → Memᴰ a added
          → (b : SyncBaseline) × Memᴰ b baselines
            × ((s : FileSnapshot) × (is_known actions remote b ≡ false)
                × (live_snapshot b.relative_path snapshots ≡ some s)
                × (snapshot_matches_primary_baseline s b ≡ true)
                × (a ≡ repair_action b s)))
unfolding append_remote_missing_repair_actions
append_remote_missing_sound actions snapshots baselines remote = (
  repairs actions snapshots remote baselines,
  refl,
  refl,
  λ a m. mem-repairs actions snapshots remote baselines m,
)
