-- ===== src/Repository/Columns.antt =====
-- state/repository.rs: the text that a column holds for an enumeration, written by `format!("{:?}")`
-- and read by the `parse_` functions.
use lan_bridge.Base.{String, if◌then◌else◌, ◌==◌, string_eq, ◌≡◌, refl}
use lan_bridge.Model.{
  DeviceRole, primary, secondary, EntryKind, file, directory, HashStatus, verified,
  unverified_large_file, unavailable, ChangeKind, created, modified, deleted, HistoryReason, trash,
  overwritten, LogLevel, info, warn, error,
}

abbrev pub print_device_role : DeviceRole → String
print_device_role primary = "Primary"
print_device_role secondary = "Secondary"

unfoldable pub parse_device_role : String → DeviceRole
parse_device_role value = if value == "Primary" then primary else secondary

abbrev pub print_entry_kind : EntryKind → String
print_entry_kind file = "File"
print_entry_kind directory = "Directory"

unfoldable pub parse_entry_kind : String → EntryKind
parse_entry_kind value = if value == "Directory" then directory else file

abbrev pub print_hash_status : HashStatus → String
print_hash_status verified = "Verified"
print_hash_status unverified_large_file = "UnverifiedLargeFile"
print_hash_status unavailable = "Unavailable"

unfoldable pub parse_hash_status : String → HashStatus
parse_hash_status value =
    if value == "Verified"
    then verified
    else if value == "UnverifiedLargeFile"
    then unverified_large_file
    else unavailable

abbrev pub print_change_kind : ChangeKind → String
print_change_kind created = "Created"
print_change_kind modified = "Modified"
print_change_kind deleted = "Deleted"

unfoldable pub parse_change_kind : String → ChangeKind
parse_change_kind value =
    if value == "Created" then created else if value == "Modified" then modified else deleted

abbrev pub print_history_reason : HistoryReason → String
print_history_reason trash = "Trash"
print_history_reason overwritten = "Overwritten"

unfoldable pub parse_history_reason : String → HistoryReason
parse_history_reason value = if value == "Overwritten" then overwritten else trash

abbrev pub print_log_level : LogLevel → String
print_log_level info = "Info"
print_log_level warn = "Warn"
print_log_level error = "Error"

unfoldable pub parse_log_level : String → LogLevel
parse_log_level value = if value == "Warn" then warn else if value == "Error" then error else info

-- What is written for an enumeration is read back as the same value, for all six of them.
pub parse-print :
    ((r : DeviceRole) → parse_device_role (print_device_role r) ≡ r)
    × ((k : EntryKind) → parse_entry_kind (print_entry_kind k) ≡ k)
    × ((h : HashStatus) → parse_hash_status (print_hash_status h) ≡ h)
    × ((c : ChangeKind) → parse_change_kind (print_change_kind c) ≡ c)
    × ((r : HistoryReason) → parse_history_reason (print_history_reason r) ≡ r)
    × ((l : LogLevel) → parse_log_level (print_log_level l) ≡ l)
unfolding parse_device_role parse_entry_kind parse_hash_status parse_change_kind
    parse_history_reason parse_log_level
parse-print = (
  elim [ primary ↦ refl | secondary ↦ refl ],
  elim [ file ↦ refl | directory ↦ refl ],
  elim [ verified ↦ refl | unverified_large_file ↦ refl | unavailable ↦ refl ],
  elim [ created ↦ refl | modified ↦ refl | deleted ↦ refl ],
  elim [ trash ↦ refl | overwritten ↦ refl ],
  elim [ info ↦ refl | warn ↦ refl | error ↦ refl ],
)
