-- ===== src/Server/Steps.antt =====
-- The start and the chunks of an incoming file keep the leases.
use lan_bridge.Base.{
  ℕ, ◌+◌, String, Bool, true, false, ◌&&◌, Option, none, some, List, ◌≡◌, refl, sym, ap, ◌∙◌, inl,
  inr, ◌==◌, nat_eq, string_eq, if◌then◌else◌, ltb, length, length-append, arith, Bool-cases,
  beq_self, option_eq,
}
use lan_bridge.Base.Assoc.{lookup, insert, lookup-insert}
use mathlib.Core.Option.{some-injective, none-ne-some}
use lan_bridge.Server.{IncomingTransfer, TaskRootRegistry, transfer_key}
use lan_bridge.Server.Incoming.{
  Outcome, acquire_incoming_lease, release_incoming_lease_key, release_incoming_lease, give_up,
  cancel_incoming_transfer, key_of, StartChecks, start_leased, start_transfer, start_error,
  keys_where,
}
use lan_bridge.Server.Chunks.{
  ChunkResult, accepted, refused, ack_of, append_to, append_incoming_chunk, grown, acknowledged,
}
use lan_bridge.Server.Leases.{
  IsLeased, IsCounted, target_of, give_up-IsLeased, give_up_all-IsLeased, release-incoming,
  release-leases,
}

-- An entry is written under its key with its lease held.
put-IsLeased :
    (key : String) (tr : IncomingTransfer) (reg : TaskRootRegistry)
    → key ≡ key_of tr
    → IsCounted tr
    → lookup (target_of tr) reg.incoming_leases ≡ some tr.connection_id
    → IsLeased reg
    → IsLeased (record reg { incoming = insert key tr reg.incoming })
put-IsLeased key tr reg own counted leased h k x there = elim (Bool-cases (key == k)) [
  | inl same ↦
      let one : tr ≡ x =
        some-injective tr x (rw same at (rw (lookup-insert key k tr reg.incoming) at there)) in
      let path : key ≡ k = (string_eq.beq_iff key k).0 same in
      rw (sym path, sym one) (own, counted, leased)
  | inr differ ↦ h k x (rw differ at (rw (lookup-insert key k tr reg.incoming) at there))
]

-- A free target is no transfer's.
free-apart :
    (l : String) (reg : TaskRootRegistry) (k : String) (x : IncomingTransfer)
    → lookup l reg.incoming_leases ≡ none
    → IsLeased reg
    → lookup k reg.incoming ≡ some x
    → (l == target_of x) ≡ false
free-apart l reg k x free h there = elim (Bool-cases (l == target_of x)) [
  | inr differ ↦ differ
  | inl same ↦
      let one : l ≡ target_of x = (string_eq.beq_iff l (target_of x)).0 same in
      let held : lookup l reg.incoming_leases ≡ some x.connection_id =
        ap (λ t. lookup t reg.incoming_leases) one ∙ (h k x there).2 in
      absurd (none-ne-some x.connection_id (sym free ∙ held))
]

-- The registry with a new lease.
abbrev with_lease : String → String → TaskRootRegistry → TaskRootRegistry
with_lease l conn reg = record reg { incoming_leases = insert l conn reg.incoming_leases }

lease-IsLeased :
    (l conn : String) (reg : TaskRootRegistry)
    → lookup l reg.incoming_leases ≡ none
    → IsLeased reg
    → IsLeased (with_lease l conn reg)
lease-IsLeased l conn reg free h k x there =
    let (own, counted, leased) = h k x there in
    (
      own,
      counted,
      lookup-insert l (target_of x) conn reg.incoming_leases
          ∙ (rw (free-apart l reg k x free h there) leased),
    )

unlease-IsLeased :
    (tr : IncomingTransfer) (reg : TaskRootRegistry)
    → lookup (target_of tr) reg.incoming_leases ≡ none
    → IsLeased reg
    → IsLeased (release_incoming_lease tr (with_lease (target_of tr) tr.connection_id reg))
unlease-IsLeased tr reg free h k x there =
    let before : lookup k reg.incoming ≡ some x =
      rw (release-incoming tr (with_lease (target_of tr) tr.connection_id reg)) at there in
    let (own, counted, leased) = h k x before in
    (
      own,
      counted,
      release-leases tr (with_lease (target_of tr) tr.connection_id reg) (target_of x)
          ∙ (rw (free-apart (target_of tr) reg k x free h before) (
              ground
                (arith, (lease-IsLeased (target_of tr) tr.connection_id reg free h k x before).2))),
    )

set_up-IsLeased :
    (checks : StartChecks) (tr : IncomingTransfer) (reg : TaskRootRegistry)
    → IsCounted tr
    → lookup (target_of tr) reg.incoming_leases ≡ none
    → IsLeased reg
    → IsLeased (start_leased checks tr (with_lease (target_of tr) tr.connection_id reg, none)).0
unfolding release_incoming_lease
set_up-IsLeased checks tr reg counted free h = go checks.setup_error
  where
    leased : TaskRootRegistry
    leased = with_lease (target_of tr) tr.connection_id reg

    go :
        (e : Option String)
        → IsLeased
            (elim e as (λ _. Outcome) [
              | some e ↦ (
                release_incoming_lease_key tr.connection_id tr.task_id tr.relative_path leased,
                some e,
              )
              | none ↦ (record leased { incoming = insert (key_of tr) tr leased.incoming }, none)
            ]).0
    go (some e) = unlease-IsLeased tr reg free h
    go none =
        put-IsLeased (key_of tr) tr leased refl counted
          (lookup-insert (target_of tr) (target_of tr) tr.connection_id reg.incoming_leases
            ∙ (rw (beq_self (target_of tr)) refl))
          (lease-IsLeased (target_of tr) tr.connection_id reg free h)

pub start-IsLeased :
    (checks : StartChecks) (tr : IncomingTransfer) (reg : TaskRootRegistry)
    → IsCounted tr
    → IsLeased reg
    → IsLeased (start_transfer checks tr reg).0
unfolding start_transfer acquire_incoming_lease
start-IsLeased checks tr reg counted h =
    go (start_error checks (lookup tr.task_id reg.roots))
      (lookup (target_of tr) reg.incoming_leases) refl
  where
    go :
        (e : Option String) (holder : Option String)
        → lookup (target_of tr) reg.incoming_leases ≡ holder
        → IsLeased
            (elim e as (λ _. Outcome) [
              | some e ↦ (reg, some e)
              | none ↦ start_leased checks tr (elim holder as (λ _. Outcome) [
                | none ↦ (with_lease (target_of tr) tr.connection_id reg, none)
                | some holder ↦ (reg, some "TransferAlreadyInProgress")
              ])
            ]).0
    go (some e) holder free = h
    go none (some holder) free = h
    go none none free = set_up-IsLeased checks tr reg counted free h

grown-IsCounted :
    (bytes : List ℕ) (tr : IncomingTransfer)
    → IsCounted tr
    → ltb tr.total_bytes (tr.written_bytes + length bytes) ≡ false
    → IsCounted (acknowledged (grown bytes tr))
grown-IsCounted bytes tr h fits = ground (arith, length-append tr.received bytes, h.0, h.1)

append_to-IsLeased :
    (write_error : Option String) (offset : ℕ) (bytes : List ℕ) (key : String)
    (tr : IncomingTransfer) (reg : TaskRootRegistry)
    → lookup key reg.incoming ≡ some tr
    → IsLeased reg
    → IsLeased (append_to write_error offset bytes key tr reg).0
append_to-IsLeased write_error offset bytes key tr reg found h =
    elim (Bool-cases (tr.written_bytes == offset)) [
      | inr gap ↦ rw gap (give_up-IsLeased key tr reg found h)
      | inl next ↦ rw next (go write_error)
    ]
  where
    go :
        (e : Option String)
        → IsLeased
            (elim e as (λ _. TaskRootRegistry × ChunkResult) [
              | some e ↦ (give_up key tr reg, refused e)
              | none ↦
                  if ltb tr.total_bytes (tr.written_bytes + length bytes)
                  then (give_up key tr reg, refused "chunked transfer exceeded expected size")
                  else (
                    record reg {
                      incoming = insert key (acknowledged (grown bytes tr)) reg.incoming;
                    },
                    accepted (ack_of (grown bytes tr)),
                  )
            ]).0
    go (some e) = give_up-IsLeased key tr reg found h
    go none = elim (Bool-cases (ltb tr.total_bytes (tr.written_bytes + length bytes))) [
      | inl over ↦ rw over (give_up-IsLeased key tr reg found h)
      | inr fits ↦
          let (own, counted, leased) = h key tr found in
          rw fits (
            put-IsLeased key (acknowledged (grown bytes tr)) reg own
              (grown-IsCounted bytes tr counted fits) leased h)
    ]

pub append-IsLeased :
    (cancelled : Bool) (write_error : Option String) (conn task path : String) (offset : ℕ)
    (bytes : List ℕ) (reg : TaskRootRegistry)
    → IsLeased reg
    → IsLeased (append_incoming_chunk cancelled write_error conn task path offset bytes reg).0
unfolding append_incoming_chunk cancel_incoming_transfer
append-IsLeased true write_error conn task path offset bytes reg h =
    give_up_all-IsLeased
      (keys_where (λ tr. tr.task_id == task && tr.relative_path == path) reg.incoming) reg h
append-IsLeased false write_error conn task path offset bytes reg h =
    go (lookup (transfer_key conn task path) reg.incoming) refl
  where
    go :
        (found : Option IncomingTransfer)
        → lookup (transfer_key conn task path) reg.incoming ≡ found
        → IsLeased
            (elim found as (λ _. TaskRootRegistry × ChunkResult) [
              | none ↦ (reg, refused "chunked transfer not started")
              | some tr ↦ append_to write_error offset bytes (transfer_key conn task path) tr reg
            ]).0
    go none e = h
    go (some tr) e =
        append_to-IsLeased write_error offset bytes (transfer_key conn task path) tr reg e h
