-- ===== src/Server/Ends.antt =====
-- server.rs: the end of an incoming file keeps the leases of the others.
use lan_bridge.Base.{
  ℕ, String, Option, none, some, List, ◌≡◌, refl, inl, inr, ◌==◌, nat_eq, string_eq, arith,
  Bool-cases, option_eq,
}
use lan_bridge.Base.Assoc.{lookup, lookup-erase}
use lan_bridge.Server.{IncomingTransfer, TaskRootRegistry, transfer_key}
use lan_bridge.Server.Incoming.{Outcome, release_incoming_lease, give_up}
use lan_bridge.Server.Chunks.{
  FinishChecks, commit, finish_found, finish_incoming_chunked_file, finish_incoming_v2, without,
  expected_hash,
}
use lan_bridge.Server.Leases.{IsLeased, taken_out-IsLeased, give_up-IsLeased}

without-IsLeased :
    (key : String) (reg : TaskRootRegistry) → IsLeased reg → IsLeased (without key reg)
without-IsLeased key reg h k x there =
    h k x (ground (arith, rw (lookup-erase key k reg.incoming) at there))

commit-IsLeased :
    (checks : FinishChecks) (key : String) (tr : IncomingTransfer) (root : Option String)
    (reg : TaskRootRegistry)
    → lookup key reg.incoming ≡ some tr
    → IsLeased reg
    → IsLeased (commit checks key tr root reg).0
commit-IsLeased checks key tr none reg found h = without-IsLeased key reg h
commit-IsLeased checks key tr (some root) reg found h = go checks.commit_error
  where
    go :
        (e : Option String)
        → IsLeased
            (elim e as (λ _. Outcome) [
              | some e ↦ (give_up key tr reg, some e)
              | none ↦ (release_incoming_lease tr (without key reg), none)
            ]).0
    go (some e) = give_up-IsLeased key tr reg found h
    go none = taken_out-IsLeased key tr reg found h

finish_found-IsLeased :
    (hash : List ℕ → String) (checks : FinishChecks) (root : Option String)
    (size_error hash_error wanted key : String) (tr : IncomingTransfer) (reg : TaskRootRegistry)
    → lookup key reg.incoming ≡ some tr
    → IsLeased reg
    → IsLeased (finish_found hash checks root size_error hash_error wanted key tr reg).0
finish_found-IsLeased hash checks root size_error hash_error wanted key tr reg found h =
    elim (Bool-cases (tr.written_bytes == tr.total_bytes)) [
      | inr short ↦ rw short (give_up-IsLeased key tr reg found h)
      | inl full ↦ rw full (elim (Bool-cases (hash tr.received == wanted)) [
        | inr wrong ↦ rw wrong (give_up-IsLeased key tr reg found h)
        | inl right ↦ rw right (go checks.flush_error)
      ])
    ]
  where
    go :
        (e : Option String)
        → IsLeased
            (elim e as (λ _. Outcome) [
              | some e ↦ (give_up key tr reg, some e)
              | none ↦ commit checks key tr root reg
            ]).0
    go (some e) = give_up-IsLeased key tr reg found h
    go none = commit-IsLeased checks key tr root reg found h

-- The end of either protocol, for the error of a transfer that was not started.
abbrev found_or :
    (List ℕ → String)
    → FinishChecks
    → String
    → String
    → String
    → (IncomingTransfer → String)
    → Option String
    → String
    → TaskRootRegistry
    → Option IncomingTransfer
    → Outcome
found_or hash checks missing size_error hash_error wanted root key reg none = (reg, some missing)
found_or hash checks missing size_error hash_error wanted root key reg (some tr) =
    finish_found hash checks root size_error hash_error (wanted tr) key tr reg

pub found_or-IsLeased :
    (hash : List ℕ → String) (checks : FinishChecks) (missing size_error hash_error : String)
    (wanted : IncomingTransfer → String) (root : Option String) (key : String)
    (reg : TaskRootRegistry) (found : Option IncomingTransfer)
    → lookup key reg.incoming ≡ found
    → IsLeased reg
    → IsLeased (found_or hash checks missing size_error hash_error wanted root key reg found).0
found_or-IsLeased hash checks missing size_error hash_error wanted root key reg none e h = h
found_or-IsLeased hash checks missing size_error hash_error wanted root key reg (some tr) e h =
    finish_found-IsLeased hash checks root size_error hash_error (wanted tr) key tr reg e h

pub finish_v2-IsLeased :
    (hash : List ℕ → String) (checks : FinishChecks) (conn task path file_hash : String)
    (reg : TaskRootRegistry)
    → IsLeased reg
    → IsLeased (finish_incoming_v2 hash checks conn task path file_hash reg).0
unfolding finish_incoming_v2
finish_v2-IsLeased hash checks conn task path file_hash reg h =
    found_or-IsLeased hash checks "v2 stream not started" "v2 stream size mismatch"
      "v2 file hash mismatch" (λ tr. file_hash) (lookup task reg.roots)
      (transfer_key conn task path) reg (lookup (transfer_key conn task path) reg.incoming) refl h

pub finish_v1-IsLeased :
    (hash : List ℕ → String) (checks : FinishChecks) (conn task path : String)
    (end_hash : Option String) (reg : TaskRootRegistry)
    → IsLeased reg
    → IsLeased (finish_incoming_chunked_file hash checks conn task path end_hash reg).0
unfolding finish_incoming_chunked_file
finish_v1-IsLeased hash checks conn task path end_hash reg h =
    found_or-IsLeased hash checks "chunked transfer not started" "chunked transfer size mismatch"
      "file hash mismatch" (expected_hash end_hash) (lookup task reg.roots)
      (transfer_key conn task path) reg (lookup (transfer_key conn task path) reg.incoming) refl h
