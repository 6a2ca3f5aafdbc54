-- ===== src/Actions/Returns.antt =====
-- commands/mod.rs: what the secondary checks before it downloads from the primary and before it
-- returns its own changes. The maps of the source are given by their look-ups at the path.
use lan_bridge.Base.{
  String, Bool, true, false, ◌&&◌, ◌||◌, not, Option, none, some, ◌≡◌, refl, ◌⊎◌, ◌≢◌,
  if◌then◌else◌, ◌==◌, option_eq, string_eq, arith,
}
use lan_bridge.Conflict.{has_primary_changed_since_baseline}
use lan_bridge.Model.{
  directory, unavailable, Uuid, file, created, modified, deleted, FileSnapshot, SyncBaseline,
  PendingReturnChange, is_directory, is_deletion,
}
use lan_bridge.Conflict.{ConflictResult, no_conflict, conflict, detect_conflict}
use lan_bridge.Actions.{
  RemoteFileState, DeleteExpectation, is_none, is_unavailable, snapshot_is_directory,
}

abbrev pub hashless : Option SyncBaseline → Bool
hashless none = false
hashless (some b) = is_none b.primary_hash && is_none b.secondary_hash

abbrev pub downloads_directory : Option FileSnapshot → Option SyncBaseline → Bool
downloads_directory none baseline = not (hashless baseline)
downloads_directory (some local) baseline = not (is_directory local.kind)

abbrev pub hash_differs : RemoteFileState → Option FileSnapshot → Bool
hash_differs remote none = true
hash_differs remote (some local) = not (local.blake3_hash == remote.blake3_hash)

abbrev pub downloads_file : RemoteFileState → Option FileSnapshot → Option SyncBaseline → Bool
downloads_file remote local none = hash_differs remote local
downloads_file remote local (some b) =
    if b.primary_hash == remote.blake3_hash then false else hash_differs remote local

unfoldable pub secondary_should_download :
    RemoteFileState → Option FileSnapshot → Option SyncBaseline → Bool
secondary_should_download remote local baseline =
    if is_directory remote.kind
    then downloads_directory local baseline
    else downloads_file remote local baseline

abbrev pub local_conflict : FileSnapshot → Option SyncBaseline → Option String
local_conflict local none = some "local file already exists"
local_conflict local (some b) =
    if local.blake3_hash == b.secondary_hash
    then none
    else some "local file changed since last sync"

unfoldable pub secondary_pull_conflict :
    RemoteFileState → Option FileSnapshot → Option SyncBaseline → Option String
secondary_pull_conflict remote none baseline = none
secondary_pull_conflict remote (some local) baseline =
    if is_directory remote.kind
    then if is_directory local.kind then none else some "local path exists and is not a directory"
    else local_conflict local baseline

unfoldable pub return_delete_expectation : Option RemoteFileState → Option DeleteExpectation
return_delete_expectation none = none
return_delete_expectation (some remote) = some (record {
  expected_kind = remote.kind;
  expected_hash = remote.blake3_hash;
  expected_hash_status = remote.hash_status;
  expected_size = remote.size;
  expected_modified_unix_ms = remote.modified_unix_ms;
})

unfoldable pub remote_file_state_to_snapshot : Uuid → RemoteFileState → FileSnapshot
remote_file_state_to_snapshot task_id remote = record {
  task_id = task_id;
  relative_path = remote.relative_path;
  kind = remote.kind;
  size = remote.size;
  modified_unix_ms = remote.modified_unix_ms;
  blake3_hash = remote.blake3_hash;
  hash_status = remote.hash_status;
  is_deleted = false;
  is_symlink = false;
}

abbrev pub current_primary : Uuid → Option RemoteFileState → Option FileSnapshot
current_primary task_id none = none
current_primary task_id (some remote) = some (remote_file_state_to_snapshot task_id remote)

unfoldable pub return_conflict_message :
    PendingReturnChange → Option FileSnapshot → Option SyncBaseline → String
return_conflict_message change (some p) none = "primary file already exists"
return_conflict_message change none (some b) = elim change.change_kind [
  | created ↦ "primary file changed since last sync"
  | modified ↦ "primary file was deleted since last sync"
  | deleted ↦ "primary file changed since last sync"
]
return_conflict_message change (some p) (some b) = "primary file changed since last sync"
return_conflict_message change none none = "primary file changed since last sync"

-- The change is of a directory that the primary has: its deletion, or its creation.
abbrev pub is_directory_return : PendingReturnChange → Option FileSnapshot → Bool
is_directory_return change primary =
    (is_deletion change.change_kind && snapshot_is_directory primary)
    || (snapshot_is_directory primary
        && is_none change.secondary_hash
        && is_unavailable change.secondary_hash_status)

abbrev pub conflict_message :
    PendingReturnChange → Option FileSnapshot → Option SyncBaseline → ConflictResult → Option String
conflict_message change primary baseline no_conflict = none
conflict_message change primary baseline (conflict d) =
    some (return_conflict_message change primary baseline)

unfoldable pub secondary_return_conflict :
    PendingReturnChange → Option RemoteFileState → Option SyncBaseline → Option String
unfolding return_conflict_message remote_file_state_to_snapshot detect_conflict
secondary_return_conflict change remote baseline =
    let primary = current_primary change.task_id remote in
    if is_directory_return change primary
    then none
    else conflict_message change primary baseline (detect_conflict change primary baseline)

-- When a pending change may be returned without a question: it deletes a directory of the primary or
-- is the creation of a directory that the primary has, which has no hash; what the primary reports is
-- unchanged since the baseline; or the primary reports nothing, and the change is no modification or
-- has no baseline.
abbrev pub MayReturn : PendingReturnChange → Option RemoteFileState → Option SyncBaseline → Type 0
MayReturn change remote baseline =
    ((r : RemoteFileState) × (remote ≡ some r)
      × (r.kind ≡ directory)
      × ((change.change_kind ≡ deleted)
          ⊎ ((change.secondary_hash ≡ none) × (change.secondary_hash_status ≡ unavailable))))
    ⊎ (((r : RemoteFileState) × (b : SyncBaseline) × (remote ≡ some r)
          × (baseline ≡ some b)
          × (has_primary_changed_since_baseline (remote_file_state_to_snapshot change.task_id r) b
              ≡ false))
        ⊎ ((remote ≡ none) × ((change.change_kind ≢ modified) ⊎ (baseline ≡ none))))

-- Where the secondary has an entry at the path, what it downloads without a conflict is a file with
-- a baseline, its own entry has the hash of the baseline's secondary side, so that nothing it has
-- not returned is overwritten, and the primary's file differs from the baseline and from its own.
pub secondary_pull-keeps :
    (remote : RemoteFileState) (local : FileSnapshot) (baseline : Option SyncBaseline)
    → secondary_pull_conflict remote (some local) baseline ≡ none
    → secondary_should_download remote (some local) baseline ≡ true
    → (remote.kind ≡ file)
      × ((b : SyncBaseline) × (baseline ≡ some b)
          × (local.blake3_hash ≡ b.secondary_hash)
          × (b.primary_hash ≢ remote.blake3_hash)
          × (local.blake3_hash ≢ remote.blake3_hash))
unfolding secondary_pull_conflict secondary_should_download
secondary_pull-keeps remote local none h k = ground arith
secondary_pull-keeps remote local (some b) h k = (
  ground arith,
  (
    b,
    refl,
    ground (arith, option_eq.beq_iff local.blake3_hash b.secondary_hash),
    ground (arith, option_eq.beq_iff b.primary_hash remote.blake3_hash),
    ground (arith, option_eq.beq_iff local.blake3_hash remote.blake3_hash),
  ),
)
