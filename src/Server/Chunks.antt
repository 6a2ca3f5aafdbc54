-- ===== src/Server/Chunks.antt =====
-- server.rs: `append_incoming_chunk`, `finish_incoming_chunked_file` and `finish_incoming_v2`.
use lan_bridge.Base.{
  ℕ, ◌+◌, String, Bool, ◌||◌, ◌&&◌, not, Option, none, some, List, ◌++◌, ltb, leb, ◌==◌, nat_eq,
  string_eq, if◌then◌else◌, length,
}
use lan_bridge.Base.Text.{is_empty}
use lan_bridge.Base.Assoc.{lookup, insert, erase}
use lan_bridge.Server.{IncomingTransfer, TaskRootRegistry, transfer_key}
use lan_bridge.Server.Incoming.{
  Outcome, ack_interval, give_up, release_incoming_lease, cancel_incoming_transfer,
}

pub data IncomingChunkAck : Type 0 where
  no_ack legacy_file_ack : IncomingChunkAck
  checkpoint : ℕ → IncomingChunkAck

pub data ChunkResult : Type 0 where
  accepted : IncomingChunkAck → ChunkResult
  refused : String → ChunkResult

-- The transfer with the chunk written and hashed.
abbrev pub grown : List ℕ → IncomingTransfer → IncomingTransfer
grown bytes tr = record tr {
  written_bytes = tr.written_bytes + length bytes;
  received = tr.received ++ bytes;
}

abbrev pub should_ack : IncomingTransfer → Bool
should_ack tr = leb tr.next_ack_at tr.written_bytes || leb tr.total_bytes tr.written_bytes

abbrev pub acknowledged : IncomingTransfer → IncomingTransfer
acknowledged tr = record tr {
  next_ack_at =
      if not tr.ack_every_chunk && should_ack tr
      then tr.next_ack_at + ack_interval tr.protocol_version
      else tr.next_ack_at;
}

abbrev pub ack_of : IncomingTransfer → IncomingChunkAck
ack_of tr =
    if tr.ack_every_chunk
    then legacy_file_ack
    else if should_ack tr
    then checkpoint tr.written_bytes
    else no_ack

-- A chunk for a transfer that is found under its key.
abbrev pub append_to :
    Option String
    → ℕ
    → List ℕ
    → String
    → IncomingTransfer
    → TaskRootRegistry
    → TaskRootRegistry × ChunkResult
append_to write_error offset bytes key tr reg =
    if not (tr.written_bytes == offset)
    then (give_up key tr reg, refused "unexpected chunk offset")
    else elim write_error [
      | some e ↦ (give_up key tr reg, refused e)
      | none ↦
          if ltb tr.total_bytes (tr.written_bytes + length bytes)
          then (give_up key tr reg, refused "chunked transfer exceeded expected size")
          else (
            record reg { incoming = insert key (acknowledged (grown bytes tr)) reg.incoming },
            accepted (ack_of (grown bytes tr)),
          )
    ]

-- `cancelled` is the user's cancellation of the transfer, `write_error` the failure of the write.
unfoldable pub append_incoming_chunk :
    Bool
    → Option String
    → String
    → String
    → String
    → ℕ
    → List ℕ
    → TaskRootRegistry
    → TaskRootRegistry × ChunkResult
unfolding transfer_key give_up cancel_incoming_transfer
append_incoming_chunk cancelled write_error connection_id task_id path offset bytes reg =
    if cancelled
    then (cancel_incoming_transfer task_id path reg, refused "transfer cancelled")
    else elim (lookup (transfer_key connection_id task_id path) reg.incoming) [
      | none ↦ (reg, refused "chunked transfer not started")
      | some tr ↦
          append_to write_error offset bytes (transfer_key connection_id task_id path) tr reg
    ]

-- What the end of a transfer asks of the file system: the error of the flush or of the guard, and
-- with a root that of the target's safety and precondition or of the commit.
pub record FinishChecks : Type 0 where
  pub flush_error : Option String
  pub commit_error : Option String

abbrev pub expected_hash : Option String → IncomingTransfer → String
expected_hash none tr = tr.file_hash
expected_hash (some h) tr = if is_empty h then tr.file_hash else h

abbrev pub without : String → TaskRootRegistry → TaskRootRegistry
without key reg = record reg { incoming = erase key reg.incoming }

-- The last steps: without a root the function returns at once, with the transfer out of the map.
abbrev pub commit :
    FinishChecks → String → IncomingTransfer → Option String → TaskRootRegistry → Outcome
commit checks key tr none reg = (without key reg, some "task root not registered")
commit checks key tr (some root) reg = elim checks.commit_error [
  | some e ↦ (give_up key tr reg, some e)
  | none ↦ (release_incoming_lease tr (without key reg), none)
]

abbrev pub finish_found :
    (List ℕ → String)
    → FinishChecks
    → Option String
    → String
    → String
    → String
    → String
    → IncomingTransfer
    → TaskRootRegistry
    → Outcome
finish_found hash checks root size_error hash_error wanted key tr reg =
    if not (tr.written_bytes == tr.total_bytes)
    then (give_up key tr reg, some size_error)
    else if not (hash tr.received == wanted)
    then (give_up key tr reg, some hash_error)
    else elim checks.flush_error [
      | some e ↦ (give_up key tr reg, some e)
      | none ↦ commit checks key tr root reg
    ]

unfoldable pub finish_incoming_chunked_file :
    (List ℕ → String)
    → FinishChecks
    → String
    → String
    → String
    → Option String
    → TaskRootRegistry
    → Outcome
unfolding transfer_key give_up release_incoming_lease
finish_incoming_chunked_file hash checks connection_id task_id path end_hash reg =
    elim (lookup (transfer_key connection_id task_id path) reg.incoming) [
      | none ↦ (reg, some "chunked transfer not started")
      | some tr ↦
          finish_found hash checks (lookup task_id reg.roots) "chunked transfer size mismatch"
            "file hash mismatch" (expected_hash end_hash tr)
            (transfer_key connection_id task_id path) tr reg
    ]

unfoldable pub finish_incoming_v2 :
    (List ℕ → String)
    → FinishChecks
    → String
    → String
    → String
    → String
    → TaskRootRegistry
    → Outcome
unfolding transfer_key give_up release_incoming_lease
finish_incoming_v2 hash checks connection_id task_id path file_hash reg =
    elim (lookup (transfer_key connection_id task_id path) reg.incoming) [
      | none ↦ (reg, some "v2 stream not started")
      | some tr ↦
          finish_found hash checks (lookup task_id reg.roots) "v2 stream size mismatch"
            "v2 file hash mismatch" file_hash (transfer_key connection_id task_id path) tr reg
    ]
