-- ===== src/Server.antt =====
-- src-tauri/src/transport/server.rs: the registry of task roots, who may use them, and the files that
-- peers are sending. What the file system answers to a call is an argument of the operation.
pub mod Access
pub mod Incoming
pub mod Chunks
pub mod Leases
pub mod Steps
pub mod Ends
pub mod Transfers
pub mod Finished
pub mod Deletions
use lan_bridge.Base.{
  ℕ, ◌+◌, ◌≤◌, String, Bool, true, false, ◌||◌, ◌&&◌, not, Option, none, some, List, [], ◌∷◌, ◌<>◌,
}
use lan_bridge.Base.Assoc.{HashMap}

pub data ProtocolVersion : Type 0 where
  v1_json v2_binary : ProtocolVersion

-- A file that is being received. `received` is what was written to the partial file and hashed.
pub record IncomingTransfer : Type 0 where
  pub connection_id : String
  pub task_id : String
  pub relative_path : String
  pub file_hash : String
  pub expected_target_hash : Option String
  pub total_bytes : ℕ
  pub written_bytes : ℕ
  pub received : List ℕ
  pub next_ack_at : ℕ
  pub ack_every_chunk : Bool
  pub protocol_version : ProtocolVersion

pub record TaskRootRegistry : Type 0 where
  pub roots : HashMap String String
  pub authorized_peers : HashMap String String
  pub incoming : HashMap String IncomingTransfer
  pub incoming_leases : HashMap String String

unfoldable pub transfer_target_key : String → String → String
transfer_target_key task_id relative_path = task_id <> ("\n" <> relative_path)

unfoldable pub transfer_key : String → String → String → String
unfolding transfer_target_key
transfer_key connection_id task_id relative_path =
    connection_id <> ("\n" <> transfer_target_key task_id relative_path)
