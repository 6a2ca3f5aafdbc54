-- ===== src/Server/Incoming.antt =====
-- server.rs: the life of an incoming file: start, chunks, end, and the ways it is given up.
use lan_bridge.Base.{
  ℕ, String, Bool, ◌&&◌, not, Option, none, some, List, [], ◌∷◌, ◌==◌, nat_eq, string_eq, option_eq,
  if◌then◌else◌, filter, map,
}
use lan_bridge.Base.Text.{is_empty}
use lan_bridge.Base.Assoc.{HashMap, lookup, insert, erase}
use lan_bridge.Server.{
  ProtocolVersion, v1_json, v2_binary, IncomingTransfer, TaskRootRegistry, transfer_target_key,
  transfer_key,
}

-- The new registry and the error, if there is one.
abbrev pub Outcome : Type 0
Outcome = TaskRootRegistry × Option String

unfoldable pub acquire_incoming_lease : String → String → String → TaskRootRegistry → Outcome
unfolding transfer_target_key
acquire_incoming_lease connection_id task_id path reg =
    elim (lookup (transfer_target_key task_id path) reg.incoming_leases) [
      | none ↦ (
        record reg {
          incoming_leases =
              insert (transfer_target_key task_id path) connection_id reg.incoming_leases;
        },
        none,
      )
      | some holder ↦ (reg, some "TransferAlreadyInProgress")
    ]

-- The lease is given up only by its holder.
unfoldable pub release_incoming_lease_key :
    String → String → String → TaskRootRegistry → TaskRootRegistry
unfolding transfer_target_key
release_incoming_lease_key connection_id task_id path reg =
    if lookup (transfer_target_key task_id path) reg.incoming_leases == some connection_id
    then record reg {
      incoming_leases = erase (transfer_target_key task_id path) reg.incoming_leases;
    }
    else reg

unfoldable pub release_incoming_lease : IncomingTransfer → TaskRootRegistry → TaskRootRegistry
unfolding release_incoming_lease_key
release_incoming_lease tr reg =
    release_incoming_lease_key tr.connection_id tr.task_id tr.relative_path reg

-- `cleanup_incoming_transfer` of a transfer that is taken out of the map under a key.
unfoldable pub give_up : String → IncomingTransfer → TaskRootRegistry → TaskRootRegistry
unfolding release_incoming_lease
give_up key tr reg = release_incoming_lease tr (record reg { incoming = erase key reg.incoming })

-- The loops of the `cancel_` functions over the keys that they collect.
unfoldable pub give_up_all : List String → TaskRootRegistry → TaskRootRegistry
unfolding give_up
give_up_all [] reg = reg
give_up_all (key ∷ keys) reg = elim (lookup key reg.incoming) [
  | none ↦ give_up_all keys reg
  | some tr ↦ give_up_all keys (give_up key tr reg)
]

abbrev pub keys_where : (IncomingTransfer → Bool) → HashMap String IncomingTransfer → List String
keys_where p incoming = map (λ entry. entry.0) (filter (λ entry. p entry.1) incoming)

unfoldable pub cancel_incoming_transfer : String → String → TaskRootRegistry → TaskRootRegistry
unfolding give_up_all
cancel_incoming_transfer task_id path reg =
    give_up_all (keys_where (λ tr. tr.task_id == task_id && tr.relative_path == path) reg.incoming)
      reg

unfoldable pub cancel_incoming_for_task : String → TaskRootRegistry → TaskRootRegistry
unfolding give_up_all
cancel_incoming_for_task task_id reg =
    give_up_all (keys_where (λ tr. tr.task_id == task_id) reg.incoming) reg

unfoldable pub cancel_incoming_for_connection : String → TaskRootRegistry → TaskRootRegistry
unfolding give_up_all
cancel_incoming_for_connection connection_id reg =
    give_up_all (keys_where (λ tr. tr.connection_id == connection_id) reg.incoming) reg

unfoldable pub cancel_incoming_transfer_for_connection :
    String → String → String → TaskRootRegistry → Outcome
unfolding transfer_key give_up
cancel_incoming_transfer_for_connection connection_id task_id path reg =
    elim (lookup (transfer_key connection_id task_id path) reg.incoming) [
      | none ↦ (reg, some "transfer is not owned by this connection")
      | some tr ↦ (give_up (transfer_key connection_id task_id path) tr reg, none)
    ]

unfoldable pub unregister : String → TaskRootRegistry → TaskRootRegistry
unfolding cancel_incoming_for_task
unregister task_id reg = cancel_incoming_for_task task_id (record reg {
  roots = erase task_id reg.roots;
  authorized_peers = erase task_id reg.authorized_peers;
})

-- What is asked before a transfer starts: the errors of the deferral and of the path, those of the
-- target and its precondition, and that of making the partial file.
pub record StartChecks : Type 0 where
  pub refused : Option String
  pub target_error : Option String
  pub setup_error : Option String

-- The first error before the lease.
abbrev pub start_error : StartChecks → Option String → Option String
start_error checks root = elim checks.refused [
  | some e ↦ some e
  | none ↦ elim root [ none ↦ some "task root not registered" | some r ↦ checks.target_error ]
]

-- The fields in which the two protocols differ.
abbrev pub v1_ack_interval : ℕ
v1_ack_interval = 16777216

abbrev pub v2_ack_interval : ℕ
v2_ack_interval = 67108864

abbrev pub ack_interval : ProtocolVersion → ℕ
ack_interval v1_json = v1_ack_interval
ack_interval v2_binary = v2_ack_interval

abbrev pub new_transfer :
    ProtocolVersion → String → Option String → ℕ → String → String → String → IncomingTransfer
new_transfer version file_hash expected total connection_id task_id path = record {
  connection_id = connection_id;
  task_id = task_id;
  relative_path = path;
  file_hash = file_hash;
  expected_target_hash = expected;
  total_bytes = total;
  written_bytes = 0;
  received = [];
  next_ack_at = ack_interval version;
  ack_every_chunk = not (is_empty file_hash);
  protocol_version = version;
}

abbrev pub key_of : IncomingTransfer → String
key_of tr = transfer_key tr.connection_id tr.task_id tr.relative_path

abbrev pub start_leased : StartChecks → IncomingTransfer → Outcome → Outcome
start_leased checks tr (reg, some e) = (reg, some e)
start_leased checks tr (reg, none) = elim checks.setup_error [
  | some e ↦ (release_incoming_lease_key tr.connection_id tr.task_id tr.relative_path reg, some e)
  | none ↦ (record reg { incoming = insert (key_of tr) tr reg.incoming }, none)
]

unfoldable pub start_transfer : StartChecks → IncomingTransfer → TaskRootRegistry → Outcome
unfolding acquire_incoming_lease release_incoming_lease_key transfer_key
start_transfer checks tr reg = elim (start_error checks (lookup tr.task_id reg.roots)) [
  | some e ↦ (reg, some e)
  | none ↦
      start_leased checks tr
        (acquire_incoming_lease tr.connection_id tr.task_id tr.relative_path reg)
]

unfoldable pub start_incoming_chunked_file :
    StartChecks → String → String → String → ℕ → Option String → String → TaskRootRegistry → Outcome
unfolding start_transfer
start_incoming_chunked_file checks task_id path file_hash total expected connection_id reg =
    start_transfer checks (new_transfer v1_json file_hash expected total connection_id task_id path)
      reg

unfoldable pub start_incoming_v2 :
    StartChecks → String → String → ℕ → Option String → String → TaskRootRegistry → Outcome
unfolding start_transfer
start_incoming_v2 checks task_id path total expected connection_id reg =
    start_transfer checks (new_transfer v2_binary "" expected total connection_id task_id path) reg
