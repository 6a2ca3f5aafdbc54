-- ===== src/Examples/Data.antt =====
-- The test data: one task with a directory and two files.
use lan_bridge.Base.{String, true, false, none, some, [], ◌∷◌}
use lan_bridge.Base.Int.{pos}
use lan_bridge.Model.{
  Uuid, primary, file, verified, unavailable, modified, FileSnapshot, SyncBaseline,
  PendingReturnChange, HistoryEntry, trash, DeferredTransferRecord, SyncTask, PairedDevice,
  move_secondary_to_history,
}
use lan_bridge.Planner.{PlannedAction}
use lan_bridge.Actions.{RemoteFileState}

abbrev pub task : Uuid
task = "task-1"

abbrev pub snapshot : String → String → FileSnapshot
snapshot path hash = record {
  task_id = task;
  relative_path = path;
  kind = file;
  size = pos 3;
  modified_unix_ms = pos 10;
  blake3_hash = some hash;
  hash_status = verified;
  is_deleted = false;
  is_symlink = false;
}

abbrev pub baseline : String → String → SyncBaseline
baseline path hash = record {
  task_id = task;
  relative_path = path;
  primary_hash = some hash;
  primary_hash_status = verified;
  primary_size = pos 3;
  secondary_size = pos 3;
  primary_modified_unix_ms = pos 10;
  secondary_hash = some hash;
  secondary_hash_status = verified;
  secondary_modified_unix_ms = pos 10;
  last_synced_unix_ms = pos 20;
}

abbrev pub folder_baseline : String → SyncBaseline
folder_baseline path = record {
  task_id = task;
  relative_path = path;
  primary_hash = none;
  primary_hash_status = unavailable;
  primary_size = pos 0;
  secondary_size = pos 0;
  primary_modified_unix_ms = pos 0;
  secondary_hash = none;
  secondary_hash_status = unavailable;
  secondary_modified_unix_ms = pos 0;
  last_synced_unix_ms = pos 20;
}

abbrev pub pending : String → String → PendingReturnChange
pending path hash = record {
  task_id = task;
  relative_path = path;
  change_kind = modified;
  secondary_hash = some hash;
  secondary_hash_status = verified;
  secondary_modified_unix_ms = pos 30;
  created_unix_ms = pos 40;
}

abbrev pub remote : String → String → RemoteFileState
remote path hash = record {
  relative_path = path;
  kind = file;
  blake3_hash = some hash;
  hash_status = verified;
  size = pos 3;
  modified_unix_ms = pos 10;
}

abbrev pub deletion : SyncBaseline → PlannedAction
deletion b = record {
  relative_path = b.relative_path;
  decision = move_secondary_to_history;
  snapshot = none;
  baseline = some b;
}

abbrev pub history_entry : Uuid → String → HistoryEntry
history_entry id stored = record {
  id = id;
  task_id = task;
  original_relative_path = "a.txt";
  stored_path = stored;
  reason = trash;
  created_unix_ms = pos 5;
  size = pos 3;
}

abbrev pub deferred : String → DeferredTransferRecord
deferred direction = record {
  task_id = task;
  relative_path = "a.txt";
  direction = direction;
  reason = "user";
  created_unix_ms = pos 5;
}

abbrev pub sync_task : SyncTask
sync_task = record {
  id = task;
  name = "Photos";
  primary_device_id = "pc";
  secondary_device_id = "laptop";
  local_path = "/photos";
  remote_path = "/copy";
  local_role = primary;
  enabled = true;
  created_unix_ms = pos 1;
  updated_unix_ms = pos 2;
  last_transfer_activity_unix_ms = pos 3;
}

abbrev pub device : PairedDevice
device = record {
  device_id = "laptop";
  display_name = "Laptop";
  public_key = 1 ∷ 2 ∷ [];
  last_seen_unix_ms = pos 7;
  trusted = true;
  last_address = none;
}
