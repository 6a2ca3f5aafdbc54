-- ===== src/Actions.antt =====
-- src-tauri/src/commands/mod.rs: how a planned list of actions is completed, compressed, ordered and
-- checked against what the peer reports, before anything is sent.
pub mod Compress
pub mod Recovery
pub mod Recovered
pub mod Priority
pub mod Remote
pub mod Returns
pub mod Selection
pub mod Roots
pub mod Candidates
pub mod Reached
pub mod Metadata
use lan_bridge.Base.{
  ℕ, String, Bool, true, false, ◌&&◌, ◌||◌, not, Option, none, some, List, [], ◌∷◌, if◌then◌else◌,
  ◌==◌, option_eq, string_eq, int_eq, length,
}
use lan_bridge.Base.Int.{ℤ, pos, pos_part}
use lan_bridge.Base.Text.{strip_prefix, slash_follows, parts}
use lan_bridge.Model.{
  EntryKind, file, directory, HashStatus, verified, unverified_large_file, unavailable,
  FileSnapshot, SyncBaseline, is_directory, is_verified,
}
use lan_bridge.Planner.{PlannedAction}

-- transport/protocol.rs: what a peer reports of one of its files.
pub record RemoteFileState : Type 0 where
  pub relative_path : String
  pub kind : EntryKind
  pub blake3_hash : Option String
  pub hash_status : HashStatus
  pub size : ℤ
  pub modified_unix_ms : ℤ

-- commands/mod.rs: what a deletion expects to find.
pub record DeleteExpectation : Type 0 where
  pub expected_kind : EntryKind
  pub expected_hash : Option String
  pub expected_hash_status : HashStatus
  pub expected_size : ℤ
  pub expected_modified_unix_ms : ℤ

-- `status == HashStatus::Unavailable`
abbrev pub is_unavailable : HashStatus → Bool
is_unavailable unavailable = true
is_unavailable _ = false

abbrev pub is_none {ℓ} : {A : Type ℓ} → Option A → Bool
is_none none = true
is_none (some _) = false

unfoldable pub baseline_looks_like_directory : SyncBaseline → Bool
baseline_looks_like_directory b =
    is_none b.primary_hash
    && is_none b.secondary_hash
    && is_unavailable b.primary_hash_status
    && is_unavailable b.secondary_hash_status
    && b.primary_size == pos 0
    && b.secondary_size == pos 0

abbrev pub snapshot_is_directory : Option FileSnapshot → Bool
snapshot_is_directory none = false
snapshot_is_directory (some s) = is_directory s.kind

abbrev pub looks_like_directory : Option SyncBaseline → Bool
looks_like_directory none = false
looks_like_directory (some b) = baseline_looks_like_directory b

unfoldable pub action_is_directory_delete : PlannedAction → Bool
unfolding baseline_looks_like_directory
action_is_directory_delete action =
    snapshot_is_directory action.snapshot || looks_like_directory action.baseline

unfoldable pub is_descendant_path : String → String → Bool
unfolding slash_follows strip_prefix
is_descendant_path path parent = slash_follows (strip_prefix parent path)

unfoldable pub return_path_depth : String → ℕ
unfolding parts
return_path_depth path = length (parts path)

-- The bytes that an action has to move.
abbrev pub file_bytes : Option FileSnapshot → ℕ
file_bytes none = 0
file_bytes (some s) = if is_directory s.kind then 0 else pos_part s.size

unfoldable pub action_progress_bytes : PlannedAction → ℕ
action_progress_bytes action = file_bytes action.snapshot

unfoldable pub remote_progress_bytes : RemoteFileState → ℕ
remote_progress_bytes remote = if is_directory remote.kind then 0 else pos_part remote.size
