-- ===== src/Model.antt =====
-- src-tauri/src/core/model.rs: the records and enumerations that every part of the program shares.
-- A uuid is its text, the form in which the database holds it; an `i64` is its value in ℤ.
use lan_bridge.Base.{ℕ, String, Bool, true, false, Option, List}
use lan_bridge.Base.Int.{ℤ}

abbrev pub Uuid : Type 0
Uuid = String

pub data DeviceRole : Type 0 where
  primary secondary : DeviceRole

pub data EntryKind : Type 0 where
  file directory : EntryKind

pub data ChangeKind : Type 0 where
  created modified deleted : ChangeKind

pub data HashStatus : Type 0 where
  verified unverified_large_file unavailable : HashStatus

pub data SyncDecision : Type 0 where
  apply_to_secondary move_secondary_to_history mark_pending_return : SyncDecision
  require_conflict_decision keep_both noop : SyncDecision

pub data HistoryReason : Type 0 where
  trash overwritten : HistoryReason

pub data LogLevel : Type 0 where
  info warn error : LogLevel

pub record SyncTask : Type 0 where
  pub id : Uuid
  pub name : String
  pub primary_device_id : String
  pub secondary_device_id : String
  pub local_path : String
  pub remote_path : String
  pub local_role : DeviceRole
  pub enabled : Bool
  pub created_unix_ms : ℤ
  pub updated_unix_ms : ℤ
  pub last_transfer_activity_unix_ms : ℤ

pub record FileSnapshot : Type 0 where
  pub task_id : Uuid
  pub relative_path : String
  pub kind : EntryKind
  pub size : ℤ
  pub modified_unix_ms : ℤ
  pub blake3_hash : Option String
  pub hash_status : HashStatus
  pub is_deleted : Bool
  pub is_symlink : Bool

pub record SyncBaseline : Type 0 where
  pub task_id : Uuid
  pub relative_path : String
  pub primary_hash : Option String
  pub primary_hash_status : HashStatus
  pub primary_size : ℤ
  pub secondary_size : ℤ
  pub primary_modified_unix_ms : ℤ
  pub secondary_hash : Option String
  pub secondary_hash_status : HashStatus
  pub secondary_modified_unix_ms : ℤ
  pub last_synced_unix_ms : ℤ

pub record PendingReturnChange : Type 0 where
  pub task_id : Uuid
  pub relative_path : String
  pub change_kind : ChangeKind
  pub secondary_hash : Option String
  pub secondary_hash_status : HashStatus
  pub secondary_modified_unix_ms : ℤ
  pub created_unix_ms : ℤ

pub record HistoryEntry : Type 0 where
  pub id : Uuid
  pub task_id : Uuid
  pub original_relative_path : String
  pub stored_path : String
  pub reason : HistoryReason
  pub created_unix_ms : ℤ
  pub size : ℤ

pub record DeferredTransferRecord : Type 0 where
  pub task_id : Uuid
  pub relative_path : String
  pub direction : String
  pub reason : String
  pub created_unix_ms : ℤ

pub record LogEntry : Type 0 where
  pub id : Option ℤ
  pub level : LogLevel
  pub task_id : Option Uuid
  pub relative_path : Option String
  pub message : String
  pub created_unix_ms : ℤ

pub record PairedDevice : Type 0 where
  pub device_id : String
  pub display_name : String
  pub public_key : List ℕ
  pub last_seen_unix_ms : ℤ
  pub trusted : Bool
  pub last_address : Option String

-- `status == HashStatus::Verified`
abbrev pub is_verified : HashStatus → Bool
is_verified verified = true
is_verified _ = false

-- `kind == EntryKind::Directory`
abbrev pub is_directory : EntryKind → Bool
is_directory directory = true
is_directory file = false

-- `left == right` on entry kinds.
abbrev pub same_kind : EntryKind → EntryKind → Bool
same_kind file file = true
same_kind directory directory = true
same_kind _ _ = false

-- `decision == SyncDecision::MoveSecondaryToHistory`
abbrev pub is_move_to_history : SyncDecision → Bool
is_move_to_history move_secondary_to_history = true
is_move_to_history _ = false

-- `decision == SyncDecision::Noop`
abbrev pub is_noop : SyncDecision → Bool
is_noop noop = true
is_noop _ = false

-- `kind == ChangeKind::Deleted`
abbrev pub is_deletion : ChangeKind → Bool
is_deletion deleted = true
is_deletion _ = false

-- `SyncTask::peer_device_id`
unfoldable pub peer_device_id : SyncTask → String
peer_device_id task = elim task.local_role [
  | primary ↦ task.secondary_device_id
  | secondary ↦ task.primary_device_id
]
