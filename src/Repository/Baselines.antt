-- ===== src/Repository/Baselines.antt =====
-- state/repository.rs: `SyncBaselineRepository`, the table `sync_baselines`.
use lan_bridge.Base.{String, Option, List, ◌==◌, string_eq, pair_eq, filter}
use lan_bridge.Model.{Uuid, SyncBaseline}
use lan_bridge.Repository.Keyed

abbrev pub baseline_key : SyncBaseline → Uuid × String
baseline_key b = (b.task_id, b.relative_path)

-- Every column but the key is set from the new row.
unfoldable pub upsert : SyncBaseline → List SyncBaseline → List SyncBaseline
upsert baseline table = Keyed.upsert baseline_key (λ old new. new) baseline table

unfoldable pub get : Uuid → String → List SyncBaseline → Option SyncBaseline
get task_id path table = Keyed.select baseline_key (task_id, path) table

unfoldable pub list_by_task : Uuid → List SyncBaseline → List SyncBaseline
list_by_task task_id table = filter (λ b. b.task_id == task_id) table

unfoldable pub remove : Uuid → String → List SyncBaseline → List SyncBaseline
remove task_id path table = Keyed.delete baseline_key (task_id, path) table
