-- ===== src/Server/Finished.antt =====
-- What the end of an incoming file answers, and what it leaves.
use lan_bridge.Base.{
  ℕ, String, Option, none, some, List, ◌≡◌, refl, sym, ◌∙◌, inl, inr, ◌==◌, nat_eq, string_eq,
  length, Bool-cases, beq_self, option_eq,
}
use lan_bridge.Base.Assoc.{lookup, lookup-erase}
use lan_bridge.Server.{IncomingTransfer, TaskRootRegistry, transfer_key}
use lan_bridge.Server.Incoming.{Outcome, give_up, release_incoming_lease}
use lan_bridge.Server.Chunks.{FinishChecks, commit, finish_found, finish_incoming_v2, without}
use lan_bridge.Server.Leases.{IsLeased, target_of, release-incoming, release-leases}

-- What is so when a transfer is committed.
abbrev pub IsWhole :
    (List ℕ → String)
    → String
    → String
    → IncomingTransfer
    → TaskRootRegistry
    → TaskRootRegistry
    → Type 0
IsWhole hash wanted key tr before after =
    (length tr.received ≡ tr.total_bytes)
    × (hash tr.received ≡ wanted)
    × (lookup key after.incoming ≡ none)
    × (lookup (target_of tr) after.incoming_leases ≡ none)

committed-IsWhole :
    (hash : List ℕ → String) (wanted key : String) (tr : IncomingTransfer) (reg : TaskRootRegistry)
    → tr.written_bytes ≡ tr.total_bytes
    → hash tr.received ≡ wanted
    → lookup key reg.incoming ≡ some tr
    → IsLeased reg
    → IsWhole hash wanted key tr reg (release_incoming_lease tr (without key reg))
committed-IsWhole hash wanted key tr reg full right found h =
    let (own, counted, leased) = h key tr found in
    (
      sym counted.0 ∙ full,
      right,
      rw (release-incoming tr (without key reg))
          (lookup-erase key key reg.incoming ∙ (rw (beq_self key) refl)),
      release-leases tr (without key reg) (target_of tr)
          ∙ (rw leased (rw (beq_self (target_of tr)) (rw (beq_self tr.connection_id) refl))),
    )

commit-IsWhole :
    (hash : List ℕ → String) (checks : FinishChecks) (wanted key : String) (tr : IncomingTransfer)
    (root : Option String) (reg : TaskRootRegistry)
    → tr.written_bytes ≡ tr.total_bytes
    → hash tr.received ≡ wanted
    → lookup key reg.incoming ≡ some tr
    → IsLeased reg
    → (commit checks key tr root reg).1 ≡ none
    → IsWhole hash wanted key tr reg (commit checks key tr root reg).0
commit-IsWhole hash checks wanted key tr none reg full right found h ok = cc
commit-IsWhole hash checks wanted key tr (some root) reg full right found h ok =
    go checks.commit_error ok
  where
    go :
        (e : Option String)
        → (elim e as (λ _. Outcome) [
          | some e ↦ (give_up key tr reg, some e)
          | none ↦ (release_incoming_lease tr (without key reg), none)
        ]).1
          ≡ none
        → IsWhole hash wanted key tr reg
            (elim e as (λ _. Outcome) [
              | some e ↦ (give_up key tr reg, some e)
              | none ↦ (release_incoming_lease tr (without key reg), none)
            ]).0
    go (some e) k = cc
    go none k = committed-IsWhole hash wanted key tr reg full right found h

found-IsWhole :
    (hash : List ℕ → String) (checks : FinishChecks) (root : Option String)
    (size_error hash_error wanted key : String) (tr : IncomingTransfer) (reg : TaskRootRegistry)
    → lookup key reg.incoming ≡ some tr
    → IsLeased reg
    → (finish_found hash checks root size_error hash_error wanted key tr reg).1 ≡ none
    → IsWhole hash wanted key tr reg
        (finish_found hash checks root size_error hash_error wanted key tr reg).0
found-IsWhole hash checks root size_error hash_error wanted key tr reg found h ok =
    elim (Bool-cases (tr.written_bytes == tr.total_bytes)) [
      | inr short ↦ cc (rw short at ok)
      | inl full ↦ elim (Bool-cases (hash tr.received == wanted)) [
        | inr wrong ↦ cc (rw (full, wrong) at ok)
        | inl right ↦
            rw (full, right)
              (go ((nat_eq.beq_iff tr.written_bytes tr.total_bytes).0 full)
                ((string_eq.beq_iff (hash tr.received) wanted).0 right) checks.flush_error
                (rw (full, right) at ok))
      ]
    ]
  where
    go :
        tr.written_bytes ≡ tr.total_bytes
        → hash tr.received ≡ wanted
        → (e : Option String)
        → (elim e as (λ _. Outcome) [
          | some e ↦ (give_up key tr reg, some e)
          | none ↦ commit checks key tr root reg
        ]).1
          ≡ none
        → IsWhole hash wanted key tr reg
            (elim e as (λ _. Outcome) [
              | some e ↦ (give_up key tr reg, some e)
              | none ↦ commit checks key tr root reg
            ]).0
    go full right (some e) k = cc
    go full right none k = commit-IsWhole hash checks wanted key tr root reg full right found h k

-- A file is committed only whole: when `finish_incoming_v2` succeeds in a registry whose transfers
-- hold their leases, the transfer has received exactly the bytes announced, they have the hash that
-- was sent, and the transfer and its lease are gone.
pub finish_incoming_v2-IsWhole :
    (hash : List ℕ → String) (checks : FinishChecks) (conn task path file_hash : String)
    (reg : TaskRootRegistry)
    → IsLeased reg
    → (finish_incoming_v2 hash checks conn task path file_hash reg).1 ≡ none
    → (tr : IncomingTransfer) × (lookup (transfer_key conn task path) reg.incoming ≡ some tr)
      × IsWhole hash file_hash
          (transfer_key conn task path)
          tr
          reg
          (finish_incoming_v2 hash checks conn task path file_hash reg).0
unfolding finish_incoming_v2
finish_incoming_v2-IsWhole hash checks conn task path file_hash reg h ok =
    go (lookup (transfer_key conn task path) reg.incoming) refl ok
  where
    answer : Option IncomingTransfer → Outcome
    answer found = elim found [
      | none ↦ (reg, some "v2 stream not started")
      | some tr ↦
          finish_found hash checks (lookup task reg.roots) "v2 stream size mismatch"
            "v2 file hash mismatch" file_hash (transfer_key conn task path) tr reg
    ]

    go :
        (found : Option IncomingTransfer)
        → lookup (transfer_key conn task path) reg.incoming ≡ found
        → (answer found).1 ≡ none
        → (tr : IncomingTransfer) × (found ≡ some tr)
          × IsWhole hash file_hash (transfer_key conn task path) tr reg (answer found).0
    go none e k = cc
    go (some tr) e k = (
      tr,
      refl,
      found-IsWhole hash checks (lookup task reg.roots) "v2 stream size mismatch"
          "v2 file hash mismatch" file_hash (transfer_key conn task path) tr reg e h k,
    )

-- In a registry whose transfers hold their leases, a transfer whose task has lost its root is
-- refused at its end when its bytes are whole, have the hash that was sent and are flushed, and it
-- leaves the lease of its target held by its connection although it is no longer in progress.
pub finish_without_root :
    (hash : List ℕ → String) (checks : FinishChecks) (conn task path : String)
    (reg : TaskRootRegistry) (tr : IncomingTransfer)
    → IsLeased reg
    → lookup (transfer_key conn task path) reg.incoming ≡ some tr
    → tr.written_bytes ≡ tr.total_bytes
    → checks.flush_error ≡ none
    → lookup task reg.roots ≡ none
    → let result = finish_incoming_v2 hash checks conn task path (hash tr.received) reg in
      (result.1 ≡ some "task root not registered")
      × (lookup (transfer_key conn task path) result.0.incoming ≡ none)
      × (lookup (target_of tr) result.0.incoming_leases ≡ some tr.connection_id)
unfolding finish_incoming_v2
finish_without_root hash checks conn task path reg tr h found full flushed gone =
    let leased = (h (transfer_key conn task path) tr found).2 in
    rw (found, finish_incoming_v2)
      (rw full (
        rw (beq_self tr.total_bytes) (
          rw (beq_self (hash tr.received)) (
            rw flushed (
              rw gone (
                refl,
                lookup-erase _ _ reg.incoming ∙ (rw (beq_self (transfer_key conn task path)) refl),
                leased,
              ))))))
