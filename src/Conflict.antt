-- ===== src/Conflict.antt =====
-- src-tauri/src/core/conflict.rs: whether a pending return change may overwrite the primary, and
-- the name under which a conflicting copy is kept.
pub mod Detection
pub mod Names
use lan_bridge.Base.{
  ℕ, zero, suc, ◌+◌, ◌/◌, ◌%◌, String, ◌<>◌, Bool, true, false, ◌&&◌, ◌||◌, not, Option, none, some,
  if◌then◌else◌, ◌==◌, string_eq, int_eq, nat_eq, ltb,
}
use lan_bridge.Base.Text.{is_empty, rsplit_once}
use lan_bridge.Base.Decimal.{print_ℕ}
use lan_bridge.Base.Int.{ℤ}
use lan_bridge.Model.{
  ChangeKind, created, modified, deleted, HashStatus, FileSnapshot, SyncBaseline,
  PendingReturnChange, is_verified,
}

pub record ConflictData : Type 0 where
  pub relative_path : String
  pub primary_hash : Option String
  pub primary_hash_status : HashStatus
  pub primary_modified_unix_ms : ℤ
  pub secondary_hash : Option String
  pub secondary_hash_status : HashStatus
  pub secondary_modified_unix_ms : ℤ
  pub hash_unverified : Bool

pub data ConflictResult : Type 0 where
  no_conflict : ConflictResult
  conflict : ConflictData → ConflictResult

-- `primary.size != baseline.primary_size || primary.modified_unix_ms != …`
abbrev primary_metadata_differs : FileSnapshot → SyncBaseline → Bool
primary_metadata_differs p b =
    not (p.size == b.primary_size) || not (p.modified_unix_ms == b.primary_modified_unix_ms)

abbrev unequal_hashes : Option String → Option String → Bool → Bool
unequal_hashes (some ph) (some bh) fallback = not (ph == bh)
unequal_hashes (some ph) none fallback = fallback
unequal_hashes none bh fallback = fallback

unfoldable pub has_primary_changed_since_baseline : FileSnapshot → SyncBaseline → Bool
has_primary_changed_since_baseline p b =
    if is_verified p.hash_status && is_verified b.primary_hash_status
    then unequal_hashes p.blake3_hash b.primary_hash (primary_metadata_differs p b)
    else primary_metadata_differs p b

abbrev pub snapshot_conflict : PendingReturnChange → FileSnapshot → ConflictResult
snapshot_conflict pending primary = conflict (record {
  relative_path = pending.relative_path;
  primary_hash = primary.blake3_hash;
  primary_hash_status = primary.hash_status;
  primary_modified_unix_ms = primary.modified_unix_ms;
  secondary_hash = pending.secondary_hash;
  secondary_hash_status = pending.secondary_hash_status;
  secondary_modified_unix_ms = pending.secondary_modified_unix_ms;
  hash_unverified =
      not (is_verified primary.hash_status) || not (is_verified pending.secondary_hash_status);
})

abbrev pub baseline_conflict : PendingReturnChange → SyncBaseline → ConflictResult
baseline_conflict pending b = conflict (record {
  relative_path = pending.relative_path;
  primary_hash = b.primary_hash;
  primary_hash_status = b.primary_hash_status;
  primary_modified_unix_ms = b.primary_modified_unix_ms;
  secondary_hash = pending.secondary_hash;
  secondary_hash_status = pending.secondary_hash_status;
  secondary_modified_unix_ms = pending.secondary_modified_unix_ms;
  hash_unverified =
      not (is_verified b.primary_hash_status) || not (is_verified pending.secondary_hash_status);
})

abbrev missing_primary : ChangeKind → PendingReturnChange → Option SyncBaseline → ConflictResult
missing_primary modified pending (some b) = baseline_conflict pending b
missing_primary modified pending none = no_conflict
missing_primary _ pending baseline = no_conflict

unfoldable pub detect_missing_primary_conflict :
    PendingReturnChange → Option SyncBaseline → ConflictResult
detect_missing_primary_conflict pending baseline =
    missing_primary pending.change_kind pending baseline

-- The part of `detect_conflict` after the primary is known to be there.
unfoldable pub present_primary_conflict :
    PendingReturnChange → FileSnapshot → Option SyncBaseline → ConflictResult
unfolding has_primary_changed_since_baseline
present_primary_conflict pending primary none = snapshot_conflict pending primary
present_primary_conflict pending primary (some b) =
    if has_primary_changed_since_baseline primary b
    then snapshot_conflict pending primary
    else no_conflict

unfoldable pub detect_conflict :
    PendingReturnChange → Option FileSnapshot → Option SyncBaseline → ConflictResult
unfolding present_primary_conflict detect_missing_primary_conflict
detect_conflict pending none baseline = detect_missing_primary_conflict pending baseline
detect_conflict pending (some p) baseline =
    if p.is_deleted
    then detect_missing_primary_conflict pending baseline
    else present_primary_conflict pending p baseline

-- The directory part of a path with its `/`, and the name.
unfoldable pub split_name : String → String × String
unfolding rsplit_once
split_name path = elim (rsplit_once b'/' path) [
  | some (dir, name) ↦ (dir <> "/", name)
  | none ↦ ("", path)
]

-- A name with a dot that does not come first ends in an extension.
unfoldable pub split_stem_ext : String → String × String
unfolding split_name
split_stem_ext path = elim (rsplit_once b'.' (split_name path).1) [
  | none ↦ (path, "")
  | some (stem, ext) ↦
      if is_empty stem then (path, "") else ((split_name path).0 <> stem, "." <> ext)
]

abbrev pub conflict_suffix : ℕ → String
conflict_suffix zero = ""
conflict_suffix (suc i) = "-" <> print_ℕ (i + 2)

-- The first name tried has no number, the next ones `-2`, `-3`, … The text of the time stamp, which
-- `chrono` formats, is given.
unfoldable pub conflict_candidate : String → String → String → ℕ → String
conflict_candidate path device timestamp_str i =
    let (stem, ext) = split_stem_ext path in
    stem
    <> (" (conflict from "
        <> (device <> (" " <> (timestamp_str <> (")" <> (conflict_suffix i <> ext))))))

-- The file system answers `path_exists`.
module _ (path_exists : String → Bool) where
  -- `none` says that the fuel ran out: the source goes on for ever.
  unfoldable pub next_candidate : ℕ → ℕ → String → String → String → Option String
  next_candidate zero i path device timestamp_str = none
  next_candidate (suc fuel) i path device timestamp_str =
      let rest = next_candidate fuel (suc i) path device timestamp_str in
      let candidate = conflict_candidate path device timestamp_str i in
      if path_exists candidate then rest else some candidate

  -- `format_timestamp` is chrono's `%Y-%m-%d %H%M%S` of the time, or of 0 where it has no date.
  unfoldable pub conflict_filename : (ℤ → String) → ℕ → String → String → ℤ → Option String
  unfolding next_candidate
  conflict_filename format_timestamp fuel path device timestamp =
      next_candidate fuel 0 path device (format_timestamp timestamp)
