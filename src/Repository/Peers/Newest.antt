-- ===== src/Repository/Peers/Newest.antt =====
-- A peer's messages, delivered in any order and any number of times, leave its newest state.
use lan_bridge.Base.{
  ℕ, ◌≤◌, String, Bool, ◌&&◌, Option, none, some, List, [], ◌∷◌, ◌≡◌, refl, sym, ap, ◌∙◌, ◌⊎◌, inl,
  inr, Memᴰ, ◌==◌, nat_eq, if◌then◌else◌, ltb, arith, All, Bool-cases, beq_self, string_eq,
}
use lan_bridge.Base.Int.{ℤ}
use lan_bridge.Repository.Peers.{
  PeerConnectionStateRecord, same_flag, get, accepts, remote_update, apply_remote_disconnected,
}
use lan_bridge.Repository.Peers.Order.{received, get-apply_remote}

pub record Message : Type 0 where
  pub disconnected : Bool
  pub revision : ℕ
  pub received_unix_ms : ℤ

unfoldable pub deliver :
    String → List Message → List PeerConnectionStateRecord → List PeerConnectionStateRecord
deliver peer [] table = table
deliver peer (m ∷ ms) table =
    deliver peer ms
      (apply_remote_disconnected peer m.disconnected m.revision m.received_unix_ms table).0

-- The sender has one state per revision.
abbrev pub IsConsistent : (ℕ → Bool) → List Message → Type 0
IsConsistent flag ms = All (λ m. m.disconnected ≡ flag m.revision) ms

-- Nothing has been heard of the peer yet.
abbrev pub IsUnknown : Option PeerConnectionStateRecord → Type 0
IsUnknown none = Unit
IsUnknown (some r) = r.remote_revision ≡ none

-- The row holds revision `n` with its state.
abbrev pub Holds : (ℕ → Bool) → ℕ → Option PeerConnectionStateRecord → Type 0
Holds flag n none = ⊥
Holds flag n (some r) = (r.remote_revision ≡ some n) × (r.remote_disconnected ≡ flag n)

-- The greatest revision of a list of messages and one more.
unfoldable pub newest : ℕ → List Message → ℕ
newest n [] = n
newest n (m ∷ ms) = newest (if ltb n m.revision then m.revision else n) ms

received-unknown :
    (flag : ℕ → Bool) (peer : String) (m : Message) (before : Option PeerConnectionStateRecord)
    → m.disconnected ≡ flag m.revision
    → IsUnknown before
    → Holds flag m.revision
        (some (received peer m.disconnected m.revision m.received_unix_ms before))
unfolding accepts
received-unknown flag peer m none e h = (refl, e)
received-unknown flag peer m (some r) e h = rw h (refl, e)

update-Holds :
    (flag : ℕ → Bool) (m : Message) (n : ℕ) (r : PeerConnectionStateRecord)
    → m.disconnected ≡ flag m.revision
    → r.remote_revision ≡ some n
    → r.remote_disconnected ≡ flag n
    → Holds flag
        (if ltb n m.revision then m.revision else n)
        (some (remote_update m.disconnected m.revision m.received_unix_ms r))
unfolding accepts
update-Holds flag m n r e known state =
    rw (ap (λ v. accepts v r.remote_disconnected m.revision m.disconnected) known)
      (elim (Bool-cases (ltb n m.revision)) [
        | inl newer ↦ rw newer (refl, e)
        | inr older ↦
            rw older
              (elim (Bool-cases
                (m.revision == n && same_flag m.disconnected r.remote_disconnected)) [
                  | inl again ↦ rw again (
                    ground (arith, nat_eq.beq_iff m.revision n),
                    e ∙ ap flag (ground (arith, nat_eq.beq_iff m.revision n)),
                  )
                  | inr ignored ↦ rw ignored (known, state)
                ])
      ])

received-Holds :
    (flag : ℕ → Bool) (peer : String) (m : Message) (n : ℕ)
    (before : Option PeerConnectionStateRecord)
    → m.disconnected ≡ flag m.revision
    → Holds flag n before
    → Holds flag
        (if ltb n m.revision then m.revision else n)
        (some (received peer m.disconnected m.revision m.received_unix_ms before))
received-Holds flag peer m n none e h = absurd h
received-Holds flag peer m n (some r) e h = update-Holds flag m n r e h.0 h.1

get-step :
    (peer : String) (m : Message) (table : List PeerConnectionStateRecord)
    → get peer (apply_remote_disconnected peer m.disconnected m.revision m.received_unix_ms table).0
      ≡ some (received peer m.disconnected m.revision m.received_unix_ms (get peer table))
get-step peer m table =
    get-apply_remote peer peer m.disconnected m.revision m.received_unix_ms table
    ∙ (rw (beq_self peer))

deliver-Holds :
    (flag : ℕ → Bool) (peer : String) (n : ℕ) (ms : List Message)
    (table : List PeerConnectionStateRecord)
    → IsConsistent flag ms
    → Holds flag n (get peer table)
    → Holds flag (newest n ms) (get peer (deliver peer ms table))
unfolding deliver newest
deliver-Holds flag peer n [] table c h = h
deliver-Holds flag peer n (m ∷ ms) table c h =
    deliver-Holds flag peer (if ltb n m.revision then m.revision else n) ms _ c.1
      (rw (get-step peer m table) (received-Holds flag peer m n (get peer table) c.0 h))

newest-ge : (n : ℕ) (ms : List Message) → (n ≤ newest n ms) × All (λ m. m.revision ≤ newest n ms) ms
unfolding newest
newest-ge n [] = (omega arith, tt)
newest-ge n (m ∷ ms) =
    let (own, rest) = newest-ge (if ltb n m.revision then m.revision else n) ms in
    (ground arith, (ground arith, rest))

newest-mem :
    (n : ℕ) (ms : List Message)
    → (newest n ms ≡ n) ⊎ ((m : Message) × Memᴰ m ms × (m.revision ≡ newest n ms))
unfolding newest
newest-mem n [] = inl refl
newest-mem n (m ∷ ms) = elim (Bool-cases (ltb n m.revision)) [
  | inl newer ↦ rw newer (elim (newest-mem m.revision ms) [
    | inl e ↦ inr (m, Memᴰ.head refl, sym e)
    | inr (k, there, e) ↦ inr (k, Memᴰ.tail there, e)
  ])
  | inr older ↦
      rw older
        (elim (newest-mem n ms) [ inl e ↦ inl e | inr (k, there, e) ↦ inr (k, Memᴰ.tail there, e) ])
]

-- Delivered in any order, with any repetitions, the messages of a peer with one state per revision
-- and of which nothing was known leave the row at the greatest revision among them, with the state
-- of that revision.
pub deliver-newest :
    (flag : ℕ → Bool) (peer : String) (m : Message) (ms : List Message)
    (table : List PeerConnectionStateRecord)
    → IsConsistent flag (m ∷ ms)
    → IsUnknown (get peer table)
    → (last : Message) × Memᴰ last (m ∷ ms)
      × All (λ k. k.revision ≤ last.revision) (m ∷ ms)
      × Holds flag last.revision (get peer (deliver peer (m ∷ ms) table))
unfolding deliver
deliver-newest flag peer m ms table c h =
    let held =
      deliver-Holds flag peer m.revision ms
        (apply_remote_disconnected peer m.disconnected m.revision m.received_unix_ms table).0 c.1
        (rw (get-step peer m table) (received-unknown flag peer m (get peer table) c.0 h)) in
    let bounds = newest-ge m.revision ms in
    elim (newest-mem m.revision ms) [
      | inl e ↦ (m, Memᴰ.head refl, rw e at bounds, rw e at held)
      | inr (k, there, e) ↦ (k, Memᴰ.tail there, rw (sym e) at bounds, rw (sym e) at held)
    ]
