-- ===== src/Server/Transfers.antt =====
-- The registry over any sequence of requests, cancellations and lost connections.
use lan_bridge.Base.{
  ℕ, ◌≤◌, String, Bool, ◌&&◌, Option, none, some, List, [], ◌∷◌, ◌≡◌, refl, sym, ap, ◌∙◌, ◌==◌,
  nat_eq, string_eq, option_eq, length, arith,
}
use lan_bridge.Base.Assoc.{lookup}
use mathlib.Core.Option.{some-injective}
use lan_bridge.Server.{IncomingTransfer, TaskRootRegistry, transfer_key}
use lan_bridge.Server.Access.{register_inner}
use lan_bridge.Server.Incoming.{
  Outcome, StartChecks, give_up, keys_where, cancel_incoming_transfer, cancel_incoming_for_task,
  cancel_incoming_for_connection, cancel_incoming_transfer_for_connection, unregister,
  start_incoming_chunked_file, start_incoming_v2,
}
use lan_bridge.Server.Chunks.{
  append_incoming_chunk, FinishChecks, finish_incoming_chunked_file, finish_incoming_v2,
}
use lan_bridge.Server.Leases.{
  IsLeased, target_of, same_target-key, give_up-IsLeased, give_up_all-IsLeased,
}
use lan_bridge.Server.Steps.{start-IsLeased, append-IsLeased}
use lan_bridge.Server.Ends.{finish_v1-IsLeased, finish_v2-IsLeased}

-- The operations, with what the file system answers in each.
pub data Operation : Type 0 where
  register : String → String → Option String → Operation
  drop_task : String → Operation
  start_v1 : StartChecks → String → String → String → ℕ → Option String → String → Operation
  start_v2 : StartChecks → String → String → ℕ → Option String → String → Operation
  chunk : Bool → Option String → String → String → String → ℕ → List ℕ → Operation
  finish_v1 : FinishChecks → String → String → String → Option String → Operation
  finish_v2 : FinishChecks → String → String → String → String → Operation
  cancel : String → String → Operation
  cancel_own : String → String → String → Operation
  disconnect : String → Operation

module _ (hash : List ℕ → String) where
  unfoldable pub perform : Operation → TaskRootRegistry → TaskRootRegistry
  perform (register task root peer) reg = register_inner task root peer reg
  perform (drop_task task) reg = unregister task reg
  perform (start_v1 checks task path file_hash total expected conn) reg =
      (start_incoming_chunked_file checks task path file_hash total expected conn reg).0
  perform (start_v2 checks task path total expected conn) reg =
      (start_incoming_v2 checks task path total expected conn reg).0
  perform (chunk cancelled write_error conn task path offset bytes) reg =
      (append_incoming_chunk cancelled write_error conn task path offset bytes reg).0
  perform (finish_v1 checks conn task path end_hash) reg =
      (finish_incoming_chunked_file hash checks conn task path end_hash reg).0
  perform (finish_v2 checks conn task path file_hash) reg =
      (finish_incoming_v2 hash checks conn task path file_hash reg).0
  perform (cancel task path) reg = cancel_incoming_transfer task path reg
  perform (cancel_own conn task path) reg =
      (cancel_incoming_transfer_for_connection conn task path reg).0
  perform (disconnect conn) reg = cancel_incoming_for_connection conn reg

  unfoldable pub perform_all : List Operation → TaskRootRegistry → TaskRootRegistry
  unfolding perform
  perform_all [] reg = reg
  perform_all (op ∷ ops) reg = perform_all ops (perform op reg)

  cancel_own-IsLeased :
      (conn task path : String) (reg : TaskRootRegistry)
      → IsLeased reg
      → IsLeased (cancel_incoming_transfer_for_connection conn task path reg).0
  unfolding cancel_incoming_transfer_for_connection
  cancel_own-IsLeased conn task path reg h =
      go (lookup (transfer_key conn task path) reg.incoming) refl
    where
      go :
          (found : Option IncomingTransfer)
          → lookup (transfer_key conn task path) reg.incoming ≡ found
          → IsLeased
              (elim found as (λ _. Outcome) [
                | none ↦ (reg, some "transfer is not owned by this connection")
                | some tr ↦ (give_up (transfer_key conn task path) tr reg, none)
              ]).0
      go none e = h
      go (some tr) e = give_up-IsLeased (transfer_key conn task path) tr reg e h

  perform-IsLeased :
      (op : Operation) (reg : TaskRootRegistry) → IsLeased reg → IsLeased (perform op reg)
  unfolding perform register_inner unregister cancel_incoming_transfer cancel_incoming_for_task
      cancel_incoming_for_connection start_incoming_chunked_file start_incoming_v2
  perform-IsLeased (register task root peer) reg h = h
  perform-IsLeased (drop_task task) reg h =
      give_up_all-IsLeased (keys_where (λ tr. tr.task_id == task) reg.incoming) _ h
  perform-IsLeased (start_v1 checks task path file_hash total expected conn) reg h =
      start-IsLeased checks _ reg (refl, omega arith) h
  perform-IsLeased (start_v2 checks task path total expected conn) reg h =
      start-IsLeased checks _ reg (refl, omega arith) h
  perform-IsLeased (chunk cancelled write_error conn task path offset bytes) reg h =
      append-IsLeased cancelled write_error conn task path offset bytes reg h
  perform-IsLeased (finish_v1 checks conn task path end_hash) reg h =
      finish_v1-IsLeased hash checks conn task path end_hash reg h
  perform-IsLeased (finish_v2 checks conn task path file_hash) reg h =
      finish_v2-IsLeased hash checks conn task path file_hash reg h
  perform-IsLeased (cancel task path) reg h =
      give_up_all-IsLeased
        (keys_where (λ tr. tr.task_id == task && tr.relative_path == path) reg.incoming) reg h
  perform-IsLeased (cancel_own conn task path) reg h = cancel_own-IsLeased conn task path reg h
  perform-IsLeased (disconnect conn) reg h =
      give_up_all-IsLeased (keys_where (λ tr. tr.connection_id == conn) reg.incoming) reg h

  -- From a registry whose transfers hold the leases of their targets and have counted their bytes,
  -- any operations, with any answers of the file system, lead to such a registry.
  pub perform_all-IsLeased :
      (ops : List Operation) (reg : TaskRootRegistry)
      → IsLeased reg
      → IsLeased (perform_all ops reg)
  unfolding perform_all
  perform_all-IsLeased [] reg h = h
  perform_all-IsLeased (op ∷ ops) reg h =
      perform_all-IsLeased ops (perform op reg) (perform-IsLeased op reg h)

abbrev pub empty_registry : TaskRootRegistry
empty_registry = record { roots = []; authorized_peers = []; incoming = []; incoming_leases = [] }

pub empty-IsLeased : IsLeased empty_registry
unfolding lookup
empty-IsLeased key tr there = cc

-- One writer per file: whatever the operations since the start, two transfers in progress for one
-- target are the same transfer, and each has received as many bytes as it counts, which are no more
-- than were announced.
pub one_writer :
    (hash : List ℕ → String) (ops : List Operation) (k j : String) (x y : IncomingTransfer)
    → lookup k (perform_all hash ops empty_registry).incoming ≡ some x
    → lookup j (perform_all hash ops empty_registry).incoming ≡ some y
    → target_of x ≡ target_of y
    → (k ≡ j) × (x ≡ y) × (x.written_bytes ≡ length x.received) × (x.written_bytes ≤ x.total_bytes)
one_writer hash ops k j x y here there same =
    let reg = perform_all hash ops empty_registry in
    let leased = perform_all-IsLeased hash ops empty_registry empty-IsLeased in
    let (own, counted, held) = leased k x here in
    let (other, _, holds) = leased j y there in
    let conn : x.connection_id ≡ y.connection_id =
      some-injective _ _ (sym held ∙ (ap (λ t. lookup t reg.incoming_leases) same ∙ holds)) in
    let key : k ≡ j = own ∙ (same_target-key x y same conn ∙ sym other) in
    (
      key,
      some-injective x y (sym here ∙ (ap (λ t. lookup t reg.incoming) key ∙ there)),
      counted.0,
      counted.1,
    )
