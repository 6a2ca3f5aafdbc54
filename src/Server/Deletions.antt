-- ===== src/Server/Deletions.antt =====
-- src-tauri/src/transport/server.rs: what the receiver of a deletion checks of its target. The
-- metadata and the hash of the target, or the error of reading them, are arguments.
use lan_bridge.Base.{
  String, Bool, true, false, ◌&&◌, not, Option, none, some, ◌≡◌, ◌⊎◌, inl, inr, refl, sym, ap, ◌∙◌,
  ◌==◌, string_eq, option_eq, int_eq, eq_iff, arith, Bool-cases, if◌then◌else◌,
}
use lan_bridge.Base.Int.{ℤ, pos, eqb_ℤ_iff}
use mathlib.Core.Option.{none-ne-some}
use mathlib.Core.Bool.{true≢false}
use lan_bridge.Base.Text.{is_empty}
use lan_bridge.Model.{
  EntryKind, file, directory, HashStatus, verified, unverified_large_file, unavailable,
  is_directory, is_verified, same_kind,
}
use lan_bridge.Planner.{PlannedAction}
use lan_bridge.Actions.{RemoteFileState, DeleteExpectation}
use lan_bridge.Actions.Remote.{
  remote_delete_safety_error, delete_expectation_from_action, safe_delete-IsSeen,
}
use lan_bridge.Persist.Secondary.{FileMetadata, time_or}

abbrev no_longer : String
no_longer = "remote content no longer matches delete baseline"

abbrev pub kind_of : FileMetadata → EntryKind
kind_of m = if m.is_dir then directory else file

abbrev filled : Option String → Option String
filled none = none
filled (some hash) = if is_empty hash then none else some hash

abbrev or_unavailable : Option HashStatus → HashStatus
or_unavailable none = unavailable
or_unavailable (some status) = status

abbrev check_hash : Option String → String ⊎ String → Option String
check_hash none on_disk = some "delete baseline missing expected hash"
check_hash (some hash) (inl error) = some error
check_hash (some hash) (inr actual) = if actual == hash then none else some no_longer

abbrev agrees : Option ℤ → ℤ → Bool
agrees none value = false
agrees (some expected) value = expected == value

abbrev check_content :
    Option String
    → Option HashStatus
    → Option ℤ
    → Option ℤ
    → FileMetadata
    → String ⊎ String
    → Option String
check_content hash status size modified m on_disk =
    if is_verified (or_unavailable status)
    then check_hash (filled hash) on_disk
    else if agrees size (pos m.len) && agrees modified (time_or (pos 0) m.modified_unix_ms)
    then none
    else some no_longer

abbrev check_entry :
    EntryKind
    → Option String
    → Option HashStatus
    → Option ℤ
    → Option ℤ
    → String ⊎ FileMetadata
    → String ⊎ String
    → Option String
check_entry kind hash status size modified (inl error) on_disk = some error
check_entry kind hash status size modified (inr m) on_disk =
    if not (same_kind (kind_of m) kind)
    then some no_longer
    else if is_directory kind
    then none
    else check_content hash status size modified m on_disk

-- The error of the check, if it fails.
unfoldable pub validate_delete_expectation :
    Option EntryKind
    → Option String
    → Option HashStatus
    → Option ℤ
    → Option ℤ
    → String ⊎ FileMetadata
    → String ⊎ String
    → Option String
validate_delete_expectation none hash status size modified metadata on_disk =
    some "TargetPreconditionFailed: legacy delete lacks target state"
validate_delete_expectation (some kind) hash status size modified metadata on_disk =
    check_entry kind hash status size modified metadata on_disk

-- The receiver checks what the message of a deletion carries of an expectation.
abbrev pub validate_sent :
    DeleteExpectation → String ⊎ FileMetadata → String ⊎ String → Option String
validate_sent e =
    validate_delete_expectation (some e.expected_kind) e.expected_hash (some e.expected_hash_status)
      (some e.expected_size) (some e.expected_modified_unix_ms)

hash_checked :
    (hash : Option String) (on_disk : String ⊎ String)
    → check_hash (filled hash) on_disk ≡ none
    → (h : String) × (hash ≡ some h) × (on_disk ≡ inr h)
hash_checked none on_disk h = absurd (none-ne-some _ (sym h))
hash_checked (some hash) on_disk h = elim (Bool-cases (is_empty hash)) [
  | inl empty ↦ absurd (none-ne-some _ (sym (rw empty at h)))
  | inr full ↦ (hash, refl, same on_disk (rw full at h))
]
  where
    same : (found : String ⊎ String) → check_hash (some hash) found ≡ none → found ≡ inr hash
    same (inl error) k = absurd (none-ne-some error (sym k))
    same (inr actual) k = ap inr ((eq_iff actual hash).0 (ground arith))

is_verified_eq : (status : HashStatus) → is_verified status ≡ true → status ≡ verified
is_verified_eq verified h = refl
is_verified_eq unverified_large_file h = cc
is_verified_eq unavailable h = cc

kind_checked : (kind expected : EntryKind) → same_kind kind expected ≡ true → kind ≡ expected
kind_checked file file h = refl
kind_checked file directory h = cc
kind_checked directory file h = cc
kind_checked directory directory h = refl

-- The content of a file is what the expectation says: it has the verified hash, or the size and the
-- time where none is verified.
abbrev pub IsUnchanged : DeleteExpectation → FileMetadata → String ⊎ String → Type 0
IsUnchanged e m on_disk =
    ((h : String) × (e.expected_hash_status ≡ verified)
      × (e.expected_hash ≡ some h)
      × (on_disk ≡ inr h))
    ⊎ ((is_verified e.expected_hash_status ≡ false)
        × (e.expected_size ≡ pos m.len)
        × (e.expected_modified_unix_ms ≡ time_or (pos 0) m.modified_unix_ms))

content_checked :
    (e : DeleteExpectation) (m : FileMetadata) (on_disk : String ⊎ String)
    → check_content e.expected_hash
        (some e.expected_hash_status)
        (some e.expected_size)
        (some e.expected_modified_unix_ms)
        m
        on_disk
      ≡ none
    → IsUnchanged e m on_disk
content_checked e m on_disk h = elim (Bool-cases (is_verified e.expected_hash_status)) [
  | inl known ↦
      let (hash, expected, found) = hash_checked e.expected_hash on_disk (rw known at h) in
      inl (hash, is_verified_eq e.expected_hash_status known, expected, found)
  | inr unknown ↦
      let k = rw unknown at h in
      inr (
        unknown,
        (eqb_ℤ_iff e.expected_size (pos m.len)).0 (ground arith),
        (eqb_ℤ_iff e.expected_modified_unix_ms (time_or (pos 0) m.modified_unix_ms)).0
            (ground arith),
      )
]

validated :
    (e : DeleteExpectation) (metadata : String ⊎ FileMetadata) (on_disk : String ⊎ String)
    → validate_sent e metadata on_disk ≡ none
    → (m : FileMetadata) × (metadata ≡ inr m)
      × (kind_of m ≡ e.expected_kind)
      × (e.expected_kind ≡ file → IsUnchanged e m on_disk)
unfolding validate_delete_expectation
validated e (inl error) on_disk h = absurd (none-ne-some error (sym h))
validated e (inr m) on_disk h = elim (Bool-cases (same_kind (kind_of m) e.expected_kind)) [
  | inr other ↦ absurd (none-ne-some _ (sym (rw other at h)))
  | inl same ↦ (
    m,
    refl,
    kind_checked (kind_of m) e.expected_kind same,
    λ plain. content_checked e m on_disk (rw (same, plain) at h),
  )
]

-- A deletion of something that the peer reports and that the primary's safety check lets through
-- carries an expectation. If the peer then accepts it, the target is of the reported kind. If it is a
-- file, it has the hash that was reported where both sides have verified one, and where the primary
-- has verified none the size and the time that it knows.
pub validate_delete_expectation-remote_delete_safety_error :
    (action : PlannedAction) (remote : RemoteFileState) (metadata : String ⊎ FileMetadata)
    (on_disk : String ⊎ String)
    → remote_delete_safety_error action (some remote) ≡ none
    → (e : DeleteExpectation) × (delete_expectation_from_action action ≡ some e)
      × (validate_sent e metadata on_disk ≡ none
          → (m : FileMetadata) × (metadata ≡ inr m)
            × (kind_of m ≡ remote.kind)
            × (e.expected_kind ≡ file → IsUnchanged e m on_disk)
            × (e.expected_kind ≡ file
                → e.expected_hash_status ≡ verified
                → remote.hash_status ≡ verified
                → (h : String) × (remote.blake3_hash ≡ some h) × (on_disk ≡ inr h)))
unfolding validate_delete_expectation
validate_delete_expectation-remote_delete_safety_error action remote metadata on_disk safe =
    let (e, carried, seen) = safe_delete-IsSeen action remote safe in
    (
      e,
      carried,
      λ accepted.
          let (m, read, kind, unchanged) = validated e metadata on_disk accepted in
          (
            m,
            read,
            kind ∙ seen.0,
            unchanged,
            λ plain known reported. elim (unchanged plain) [
              | inl (h, status, expected, found) ↦
                  (h, sym (seen.1 plain known reported) ∙ expected, found)
              | inr (unknown, size, modified) ↦
                  absurd (true≢false (sym (ap is_verified known) ∙ unknown))
            ],
          ),
    )
