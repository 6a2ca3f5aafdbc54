-- ===== src/Actions/Remote.antt =====
-- commands/mod.rs: what the primary checks of the peer's report before it deletes or overwrites. The
-- report is the look-up that the source makes of its map of remote files, `none` for a path that
-- the peer does not report; an error is its text.
use lan_bridge.Base.{
  String, Bool, true, false, ◌&&◌, ◌||◌, not, Option, none, some, ◌≡◌, refl, if◌then◌else◌, ◌==◌,
  option_eq, string_eq, int_eq, arith,
}
use lan_bridge.Model.{
  EntryKind, file, directory, HashStatus, verified, FileSnapshot, SyncBaseline, is_directory,
  is_verified, same_kind,
}
use lan_bridge.Planner.{PlannedAction}
use lan_bridge.Actions.{
  RemoteFileState, DeleteExpectation, baseline_looks_like_directory, is_none, snapshot_is_directory,
}

abbrev pub changed_since : String
changed_since = "remote changed since last sync"

unfoldable pub remote_matches_baseline_for_delete : RemoteFileState → SyncBaseline → Bool
unfolding baseline_looks_like_directory
remote_matches_baseline_for_delete remote b =
    if baseline_looks_like_directory b
    then is_directory remote.kind
    else if is_directory remote.kind
    then false
    else if is_verified b.secondary_hash_status && not (is_none b.secondary_hash)
    then not (is_verified remote.hash_status) || b.secondary_hash == remote.blake3_hash
    else not (is_verified b.secondary_hash_status)
      && not (is_verified remote.hash_status)
      && b.secondary_size == remote.size
      && b.secondary_modified_unix_ms == remote.modified_unix_ms

abbrev pub snapshot_safety_error : FileSnapshot → RemoteFileState → Option String
snapshot_safety_error s remote =
    if not (same_kind s.kind remote.kind)
    then some changed_since
    else if is_directory s.kind
    then some "directory delete requires baseline"
    else if is_verified s.hash_status
        && is_verified remote.hash_status
        && s.blake3_hash == remote.blake3_hash
    then none
    else some changed_since

abbrev pub delete_safety_error :
    Option SyncBaseline → Option FileSnapshot → RemoteFileState → Option String
delete_safety_error (some b) snapshot remote =
    if remote_matches_baseline_for_delete remote b then none else some changed_since
delete_safety_error none none remote = some "delete requires baseline or verified previous snapshot"
delete_safety_error none (some s) remote = snapshot_safety_error s remote

unfoldable pub remote_delete_safety_error : PlannedAction → Option RemoteFileState → Option String
unfolding remote_matches_baseline_for_delete
remote_delete_safety_error action none = none
remote_delete_safety_error action (some remote) =
    delete_safety_error action.baseline action.snapshot remote

abbrev pub file_conflict : Option SyncBaseline → RemoteFileState → Option String
file_conflict none remote = some "remote file already exists"
file_conflict (some b) remote =
    if b.secondary_hash == remote.blake3_hash
    then none
    else some "remote file changed since last sync"

unfoldable pub remote_conflict : PlannedAction → Option RemoteFileState → Option String
remote_conflict action none = none
remote_conflict action (some remote) =
    if snapshot_is_directory action.snapshot
    then if is_directory remote.kind then none else some "remote path exists and is not a directory"
    else file_conflict action.baseline remote

abbrev pub expectation_of_snapshot : Option FileSnapshot → Option DeleteExpectation
expectation_of_snapshot none = none
expectation_of_snapshot (some s) = some (record {
  expected_kind = s.kind;
  expected_hash = s.blake3_hash;
  expected_hash_status = s.hash_status;
  expected_size = s.size;
  expected_modified_unix_ms = s.modified_unix_ms;
})

abbrev pub delete_expectation : Option SyncBaseline → Option FileSnapshot → Option DeleteExpectation
delete_expectation none snapshot = expectation_of_snapshot snapshot
delete_expectation (some b) snapshot = some (record {
  expected_kind = if baseline_looks_like_directory b then directory else file;
  expected_hash = b.secondary_hash;
  expected_hash_status = b.secondary_hash_status;
  expected_size = b.secondary_size;
  expected_modified_unix_ms = b.secondary_modified_unix_ms;
})

unfoldable pub delete_expectation_from_action : PlannedAction → Option DeleteExpectation
unfolding baseline_looks_like_directory
delete_expectation_from_action action = delete_expectation action.baseline action.snapshot

-- What the primary knows of a file that it is about to delete on the peer is still so: the kinds
-- agree and, where both hashes are verified, the hashes.
abbrev pub IsSeen : EntryKind → HashStatus → Option String → RemoteFileState → Type 0
IsSeen kind status hash remote =
    (kind ≡ remote.kind)
    × (kind ≡ file → status ≡ verified → remote.hash_status ≡ verified → hash ≡ remote.blake3_hash)

snapshot-IsSeen :
    (s : FileSnapshot) (remote : RemoteFileState)
    → snapshot_safety_error s remote ≡ none
    → IsSeen s.kind s.hash_status s.blake3_hash remote
snapshot-IsSeen s remote h =
    (ground arith, λ f v w. (option_eq.beq_iff s.blake3_hash remote.blake3_hash).0 (ground arith))

baseline-IsSeen :
    (b : SyncBaseline) (remote : RemoteFileState)
    → remote_matches_baseline_for_delete remote b ≡ true
    → IsSeen
        (if baseline_looks_like_directory b then directory else file)
        b.secondary_hash_status
        b.secondary_hash
        remote
unfolding remote_matches_baseline_for_delete
baseline-IsSeen b remote h = (
  ground arith,
  λ f v w. (option_eq.beq_iff b.secondary_hash remote.blake3_hash).0 (ground arith),
)

-- A deletion of something that the peer reports and that passes the safety check carries an
-- expectation, and the report agrees with it in kind and, for a file whose hashes are both
-- verified, in hash.
pub safe_delete-IsSeen :
    (action : PlannedAction) (remote : RemoteFileState)
    → remote_delete_safety_error action (some remote) ≡ none
    → (e : DeleteExpectation) × (delete_expectation_from_action action ≡ some e)
      × IsSeen e.expected_kind e.expected_hash_status e.expected_hash remote
unfolding remote_delete_safety_error delete_expectation_from_action
safe_delete-IsSeen action remote h = go action.baseline action.snapshot h
  where
    go :
        (b : Option SyncBaseline) (s : Option FileSnapshot)
        → delete_safety_error b s remote ≡ none
        → (e : DeleteExpectation) × (delete_expectation b s ≡ some e)
          × IsSeen e.expected_kind e.expected_hash_status e.expected_hash remote
    go none none k = cc
    go none (some s) k = (_, refl, snapshot-IsSeen s remote k)
    go (some b) s k = (_, refl, baseline-IsSeen b remote (ground arith))
