-- ===== src/Transient.antt =====
-- src-tauri/src/core/transient.rs: the names that synchronisation passes over, and the removal of what
-- interrupted transfers have left.
pub mod Cleanup
use lan_bridge.Base.{
  String, Bool, true, false, ◌||◌, ◌&&◌, not, Option, none, some, List, [], ◌∷◌, ◌==◌, string_eq,
  any, if◌then◌else◌,
}
use lan_bridge.Base.Text.{ends_with, starts_with}
use lan_bridge.PathSafety.{Component, normal, root_dir, cur_dir, parent_dir, components}

abbrev pub lanbridge_temp_dir : String
lanbridge_temp_dir = ".lanbridge-temp"

abbrev pub lanbridge_history_dir : String
lanbridge_history_dir = ".lanbridge-history"

abbrev pub lanbridge_partial_marker : String
lanbridge_partial_marker = ".lanbridge-partial"

abbrev pub internal_diagnostic_file_names : List String
internal_diagnostic_file_names =
    "lanbridge.log" ∷ "startup-crash.log" ∷ "crash-diagnostics.log" ∷ []

abbrev pub is_one_of : String → List String → Bool
is_one_of name names = any (λ own. own == name) names

unfoldable pub is_lanbridge_transient_dir_name : String → Bool
is_lanbridge_transient_dir_name entry_name = entry_name == lanbridge_temp_dir

unfoldable pub is_lanbridge_partial_file_name : String → Bool
is_lanbridge_partial_file_name entry_name = ends_with entry_name lanbridge_partial_marker

unfoldable pub is_common_incomplete_download_name : String → Bool
is_common_incomplete_download_name entry_name =
    ends_with entry_name ".part"
    || (ends_with entry_name ".crdownload" || ends_with entry_name ".download")

unfoldable pub is_protocol_ignored_component_name : String → Bool
is_protocol_ignored_component_name entry_name =
    entry_name == lanbridge_history_dir
    || (is_lanbridge_transient_dir_name entry_name
        || (is_lanbridge_partial_file_name entry_name
            || (is_common_incomplete_download_name entry_name
                || is_one_of entry_name internal_diagnostic_file_names)))

abbrev pub common_junk_file_names : List String
common_junk_file_names =
    ".DS_Store" ∷ ".AppleDouble" ∷ "Thumbs.db" ∷ "desktop.ini" ∷ "Desktop.ini" ∷ []

abbrev pub common_junk_dir_names : List String
common_junk_dir_names =
    "$RECYCLE.BIN" ∷ "System Volume Information" ∷ ".DocumentRevisions-V100" ∷ ".Spotlight-V100"
    ∷ ".TemporaryItems" ∷ ".Trashes" ∷ []

unfoldable pub is_common_ignored_entry_name : String → Bool → Bool
is_common_ignored_entry_name name is_dir =
    if is_protocol_ignored_component_name name
    then true
    else if is_dir
    then is_one_of name common_junk_dir_names
    else is_one_of name common_junk_file_names
      || (starts_with name "~$" || (ends_with name ".tmp" || ends_with name ".lnk"))

abbrev pub is_ignored_component : Component → Bool
is_ignored_component (normal name) = is_protocol_ignored_component_name name
is_ignored_component root_dir = false
is_ignored_component cur_dir = false
is_ignored_component parent_dir = false

unfoldable pub path_has_protocol_ignored_component : String → Bool
path_has_protocol_ignored_component path = any is_ignored_component (components path)

-- What a directory holds. A link or a device is neither a directory nor a file.
mutual
  pub data Entry : Type 0 where
    directory : String → Entries → Entry
    file : String → Entry
    other : String → Entry

  pub data Entries : Type 0 where
    none_left : Entries
    entry : Entry → Entries → Entries

-- The walk over a directory in which every call of the file system succeeds.
unfoldable mutual
  pub cleaned : Entry → Option Entry
  cleaned (directory name entries) =
      let inner = cleanup_lanbridge_transient_files entries in
      if is_lanbridge_transient_dir_name name then none else some (directory name inner)
  cleaned (file name) = if is_lanbridge_partial_file_name name then none else some (file name)
  cleaned (other name) = some (other name)

  pub cleanup_lanbridge_transient_files : Entries → Entries
  cleanup_lanbridge_transient_files none_left = none_left
  cleanup_lanbridge_transient_files (entry e entries) =
      let rest = cleanup_lanbridge_transient_files entries in
      elim (cleaned e) [ none ↦ rest | some left ↦ entry left rest ]
