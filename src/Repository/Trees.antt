-- ===== src/Repository/Trees.antt =====
-- state/repository.rs: `remove_tree` of three tables, which deletes a path and what lies below it.
-- `like text pattern` is SQLite's `text LIKE pattern ESCAPE '\'`.
use lan_bridge.Base.{
  String, ◌<>◌, Bool, ◌&&◌, ◌||◌, not, List, ◌==◌, string_eq, filter, if◌then◌else◌, eqb,
}
use lan_bridge.Base.Text.{is_empty}
use Prim.Native.Char.{Char, code}
use lan_bridge.Model.{Uuid, FileSnapshot, SyncBaseline, PendingReturnChange}

-- `text.trim_end_matches('/')`
unfoldable pub trim_end_slashes : String → String
trim_end_slashes String.[] = String.[]
trim_end_slashes (String.◌∷◌ c s) =
    let rest = trim_end_slashes s in
    if eqb (code c) b'/' && is_empty rest then String.[] else String.◌∷◌ c rest

abbrev pub is_special : Char → Bool
is_special c = eqb (code c) b'\\' || (eqb (code c) b'%' || eqb (code c) b'_')

unfoldable pub escaped : String → String
escaped String.[] = String.[]
escaped (String.◌∷◌ c s) =
    let rest = escaped s in
    if is_special c then String.◌∷◌ "\\" (String.◌∷◌ c rest) else String.◌∷◌ c rest

unfoldable pub escaped_tree_like_pattern : String → String
escaped_tree_like_pattern relative_path = escaped (trim_end_slashes relative_path) <> "/%"

module _ (like : String → String → Bool) where
  abbrev pub is_in_tree : String → String → Bool
  is_in_tree path own = own == path || like own (escaped_tree_like_pattern path)

  unfoldable pub remove_snapshot_tree : Uuid → String → List FileSnapshot → List FileSnapshot
  remove_snapshot_tree task_id path table =
      filter (λ s. not (s.task_id == task_id && is_in_tree path s.relative_path)) table

  unfoldable pub remove_baseline_tree : Uuid → String → List SyncBaseline → List SyncBaseline
  remove_baseline_tree task_id path table =
      filter (λ b. not (b.task_id == task_id && is_in_tree path b.relative_path)) table

  unfoldable pub remove_pending_tree :
      Uuid → String → List PendingReturnChange → List PendingReturnChange
  remove_pending_tree task_id path table =
      filter (λ c. not (c.task_id == task_id && is_in_tree path c.relative_path)) table
