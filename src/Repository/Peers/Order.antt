-- ===== src/Repository/Peers/Order.antt =====
-- What `apply_remote_disconnected` makes of the messages of a peer, in whatever order they arrive.
use lan_bridge.Base.{
  ℕ, ◌≤◌, String, Bool, true, Option, none, some, List, ◌≡◌, refl, sym, inl, inr, ◌==◌, string_eq,
  nat_eq, if◌then◌else◌, arith, Bool-cases,
}
use lan_bridge.Base.Int.{ℤ}
use lan_bridge.Repository.Keyed
use lan_bridge.Repository.Peers.{
  PeerConnectionStateRecord, peer_key, get, accepts, fresh, remote_update,
  apply_remote_disconnected,
}

-- A row after a message for its peer.
abbrev pub received :
    String → Bool → ℕ → ℤ → Option PeerConnectionStateRecord → PeerConnectionStateRecord
received peer d n now none = record (fresh peer now) {
  remote_disconnected = d;
  remote_revision = some n;
}
received peer d n now (some old) = remote_update d n now old

remote-KeepsKey :
    (d : Bool) (n : ℕ) (now : ℤ) → Keyed.KeepsKey peer_key (λ old new. remote_update d n now old)
unfolding accepts
remote-KeepsKey d n now old new same = ground arith

pub get-apply_remote :
    (peer q : String) (d : Bool) (n : ℕ) (now : ℤ) (table : List PeerConnectionStateRecord)
    → get q (apply_remote_disconnected peer d n now table).0
      ≡ (if peer == q then some (received peer d n now (get peer table)) else get q table)
unfolding get apply_remote_disconnected
get-apply_remote peer q d n now table =
    rw
      (Keyed.select-upsert peer_key (λ old new. remote_update d n now old)
        (record (fresh peer now) { remote_disconnected = d; remote_revision = some n }) q table
        (remote-KeepsKey d n now))
      (ground arith)

-- No revision is less than any.
abbrev pub NotNewer : Option ℕ → Option ℕ → Type 0
NotNewer none later = Unit
NotNewer (some old) none = ⊥
NotNewer (some old) (some new) = old ≤ new

-- What a message leaves of a row that is there.
abbrev pub IsKept : Option PeerConnectionStateRecord → Option PeerConnectionStateRecord → Type 0
IsKept none after = Unit
IsKept (some old) none = ⊥
IsKept (some old) (some new) =
    (new.local_disconnected ≡ old.local_disconnected)
    × (new.local_revision ≡ old.local_revision)
    × NotNewer old.remote_revision new.remote_revision

NotNewer-refl : (n : Option ℕ) → NotNewer n n
NotNewer-refl none = tt
NotNewer-refl (some n) = omega arith

IsKept-refl : (r : Option PeerConnectionStateRecord) → IsKept r r
IsKept-refl none = tt
IsKept-refl (some r) = (refl, refl, NotNewer-refl r.remote_revision)

update-NotNewer :
    (d : Bool) (n : ℕ) (now : ℤ) (old : PeerConnectionStateRecord) (before : Option ℕ)
    → old.remote_revision ≡ before
    → accepts before old.remote_disconnected n d ≡ true
    → NotNewer before (some n)
unfolding accepts
update-NotNewer d n now old none e h = tt
update-NotNewer d n now old (some m) e h = ground arith

received-IsKept :
    (peer : String) (d : Bool) (n : ℕ) (now : ℤ) (before : Option PeerConnectionStateRecord)
    → IsKept before (some (received peer d n now before))
received-IsKept peer d n now none = tt
received-IsKept peer d n now (some old) =
    elim (Bool-cases (accepts old.remote_revision old.remote_disconnected n d)) [
      | inl takes ↦
          rw takes (refl, refl, update-NotNewer d n now old old.remote_revision refl takes)
      | inr ignores ↦ rw ignores (IsKept-refl (some old))
    ]

-- No message of a peer changes the local fields of any row or takes a remote revision back.
pub apply_remote_disconnected-IsKept :
    (peer q : String) (d : Bool) (n : ℕ) (now : ℤ) (table : List PeerConnectionStateRecord)
    → IsKept (get q table) (get q (apply_remote_disconnected peer d n now table).0)
apply_remote_disconnected-IsKept peer q d n now table =
    rw (get-apply_remote peer q d n now table) (elim (Bool-cases (peer == q)) [
      | inl same ↦ rw same (
          rw (sym ((string_eq.beq_iff peer q).0 same))
            (received-IsKept peer d n now (get peer table)))
      | inr differ ↦ rw differ (IsKept-refl (get q table))
    ])
