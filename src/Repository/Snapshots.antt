-- ===== src/Repository/Snapshots.antt =====
-- state/repository.rs: `FileSnapshotRepository`, the table `file_snapshots`.
use lan_bridge.Base.{String, true, Option, List, ◌==◌, string_eq, pair_eq, filter}
use lan_bridge.Model.{Uuid, FileSnapshot}
use lan_bridge.Repository.Keyed
use lan_bridge.Repository.Keyed.{IsKeyed}

abbrev pub Key : Type 0
Key = Uuid × String

abbrev pub snapshot_key : FileSnapshot → Key
snapshot_key s = (s.task_id, s.relative_path)

-- Every column but the key is set from the new row.
abbrev pub replaced : FileSnapshot → FileSnapshot → FileSnapshot
replaced old new = new

unfoldable pub upsert : FileSnapshot → List FileSnapshot → List FileSnapshot
upsert snap table = Keyed.upsert snapshot_key replaced snap table

unfoldable pub get : Uuid → String → List FileSnapshot → Option FileSnapshot
get task_id path table = Keyed.select snapshot_key (task_id, path) table

unfoldable pub list_by_task : Uuid → List FileSnapshot → List FileSnapshot
list_by_task task_id table = filter (λ s. s.task_id == task_id) table

unfoldable pub mark_deleted : Uuid → String → List FileSnapshot → List FileSnapshot
mark_deleted task_id path table =
    Keyed.update snapshot_key (λ s. record s { is_deleted = true }) (task_id, path) table
