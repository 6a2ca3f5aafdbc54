-- ===== src/Server/Leases.antt =====
-- Every file in transit holds the lease of its target, and has received what it says.
use lan_bridge.Base.{
  ◌≤◌, String, false, ◌&&◌, Option, none, some, List, [], ◌∷◌, ◌≡◌, refl, sym, ap, ◌∙◌, inl, inr,
  ◌==◌, nat_eq, string_eq, option_eq, if◌then◌else◌, length, arith, Bool-cases,
}
use lan_bridge.Base.Assoc.{lookup, erase, lookup-erase}
use mathlib.Core.Bool.{false≢true}
use mathlib.Core.Option.{some-injective}
use lan_bridge.Server.{IncomingTransfer, TaskRootRegistry, transfer_target_key, transfer_key}
use lan_bridge.Server.Incoming.{
  release_incoming_lease_key, release_incoming_lease, give_up, give_up_all, key_of,
}
use lan_bridge.Server.Chunks.{without}

abbrev pub target_of : IncomingTransfer → String
target_of tr = transfer_target_key tr.task_id tr.relative_path

-- The count is of the bytes received, and no more than announced.
abbrev pub IsCounted : IncomingTransfer → Type 0
IsCounted tr = (tr.written_bytes ≡ length tr.received) × (tr.written_bytes ≤ tr.total_bytes)

-- Each entry stands under its own key, is counted, and holds the lease of its target.
abbrev pub IsLeased : TaskRootRegistry → Type 0
IsLeased reg =
    (key : String) (tr : IncomingTransfer)
    → lookup key reg.incoming ≡ some tr
    → (key ≡ key_of tr)
      × IsCounted tr
      × (lookup (target_of tr) reg.incoming_leases ≡ some tr.connection_id)

-- Two transfers with one target and one connection have one key.
pub same_target-key :
    (x y : IncomingTransfer)
    → target_of x ≡ target_of y
    → x.connection_id ≡ y.connection_id
    → key_of x ≡ key_of y
unfolding transfer_key
same_target-key x y t c = rw (t, c) refl

pub release-incoming :
    (tr : IncomingTransfer) (reg : TaskRootRegistry)
    → (release_incoming_lease tr reg).incoming ≡ reg.incoming
unfolding release_incoming_lease release_incoming_lease_key
release-incoming tr reg = ground arith

-- A release takes away the lease of the transfer's own target, and only from its holder.
pub release-leases :
    (tr : IncomingTransfer) (reg : TaskRootRegistry) (l : String)
    → lookup l (release_incoming_lease tr reg).incoming_leases ≡ (
        if lookup (target_of tr) reg.incoming_leases == some tr.connection_id && target_of tr == l
        then none
        else lookup l reg.incoming_leases)
unfolding release_incoming_lease release_incoming_lease_key
release-leases tr reg l =
    elim (Bool-cases (lookup (target_of tr) reg.incoming_leases == some tr.connection_id)) [
      | inl mine ↦ rw mine (lookup-erase (target_of tr) l reg.incoming_leases)
      | inr other ↦ rw other refl
    ]

-- A transfer leaves the map and its lease is released.
pub taken_out-IsLeased :
    (key : String) (tr : IncomingTransfer) (reg : TaskRootRegistry)
    → lookup key reg.incoming ≡ some tr
    → IsLeased reg
    → IsLeased (release_incoming_lease tr (without key reg))
taken_out-IsLeased key tr reg found h k x there =
    let (differs, before) =
      erased-lookup key k x reg (rw (release-incoming tr (without key reg)) at there) in
    let (own, counted, leased) = h k x before in
    let (mine, _, held) = h key tr found in
    let apart : (target_of tr == target_of x) ≡ false =
      elim (Bool-cases (target_of tr == target_of x)) [
        | inr distinct ↦ distinct
        | inl same ↦
            let target : target_of tr ≡ target_of x =
              (string_eq.beq_iff (target_of tr) (target_of x)).0 same in
            let conn : tr.connection_id ≡ x.connection_id =
              some-injective _ _
                (sym held ∙ (ap (λ l. lookup l reg.incoming_leases) target ∙ leased)) in
            let one : key ≡ k = mine ∙ (same_target-key tr x target conn ∙ sym own) in
            absurd (false≢true (sym differs ∙ (string_eq.beq_iff key k).1 one))
      ] in
    (
      own,
      counted,
      release-leases tr (without key reg) (target_of x) ∙ (rw apart (ground (arith, leased))),
    )
  where
    erased-lookup :
        (key k : String) (x : IncomingTransfer) (reg : TaskRootRegistry)
        → lookup k (erase key reg.incoming) ≡ some x
        → ((key == k) ≡ false) × (lookup k reg.incoming ≡ some x)
    erased-lookup key k x reg there = ground (arith, rw (lookup-erase key k reg.incoming) at there)

pub give_up-IsLeased :
    (key : String) (tr : IncomingTransfer) (reg : TaskRootRegistry)
    → lookup key reg.incoming ≡ some tr
    → IsLeased reg
    → IsLeased (give_up key tr reg)
unfolding give_up
give_up-IsLeased key tr reg found h = taken_out-IsLeased key tr reg found h

pub give_up_all-IsLeased :
    (keys : List String) (reg : TaskRootRegistry) → IsLeased reg → IsLeased (give_up_all keys reg)
unfolding give_up_all
give_up_all-IsLeased [] reg h = h
give_up_all-IsLeased (key ∷ keys) reg h =
    go (lookup key reg.incoming)
      (λ tr found.
        give_up_all-IsLeased keys (give_up key tr reg) (give_up-IsLeased key tr reg found h))
      (give_up_all-IsLeased keys reg h)
  where
    go :
        (found : Option IncomingTransfer)
        → ((tr : IncomingTransfer)
            → found ≡ some tr
            → IsLeased (give_up_all keys (give_up key tr reg)))
        → IsLeased (give_up_all keys reg)
        → IsLeased (elim found [
          | none ↦ give_up_all keys reg
          | some tr ↦ give_up_all keys (give_up key tr reg)
        ])
    go none dropped skipped = skipped
    go (some tr) dropped skipped = dropped tr refl
