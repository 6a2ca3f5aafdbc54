-- ===== src/Actions/Reached.antt =====
-- A peer counts as reached only at an address that presents itself as the peer and lets this device in.
use lan_bridge.Base.{
  ℕ, String, true, Option, none, some, List, [], ◌∷◌, ◌≡◌, refl, sym, ap, ◌∙◌, ◌⊎◌, inl, inr,
  Bool-cases, Option-cases, ◌==◌, string_eq, eq_iff, beq_self, Memᴰ,
}
use lan_bridge.Base.Int.{ℤ}
use lan_bridge.Base.Assoc.{lookup-insert}
use mathlib.Core.Sum.{inr-injective, inl-ne-inr}
use lan_bridge.Model.{PairedDevice}
use lan_bridge.Connection.Manager.{
  ConnectionManager, PeerConnection, PublicIdentity, register_connection, get_peer,
}
use lan_bridge.Connection.Probes.{
  Network, ping, pong, ping_peer_address, request_peer_identity_details, authenticate_peer_address,
  LetsIn, Presents, ping_peer_address-pong, request_peer_identity_details-Presents,
  authenticate_peer_address-LetsIn,
}
use lan_bridge.Actions.Candidates.{
  PeerAddressCandidate, PeerProbeFailure, candidate_address, key_agrees, check_authentication,
  check_identity, verify_peer_address, connection_at, after_persist, refresh_from,
  refresh_peer_reachable_address,
}

module _ (reply : Network) (sign : String → List ℕ → List ℕ) (local_device_id : String)
    (classify : String → String → String → PeerProbeFailure) where
  -- The address answers a ping, presents itself as the peer, with the key of the paired device if one
  -- is known, and lets this device in.
  abbrev pub AnswersAs : String → Option PairedDevice → PeerAddressCandidate → Type 0
  AnswersAs peer_device_id paired c =
      (identity : PublicIdentity) × (reply c.host c.port (ping ∷ []) ≡ inr pong)
      × Presents reply c.host c.port identity
      × (identity.device_id ≡ peer_device_id)
      × (key_agrees paired identity ≡ true)
      × LetsIn reply sign local_device_id c.host c.port

  authentication_proves :
      (c : PeerAddressCandidate) (identity proved : PublicIdentity) (answer : Option String)
      → check_authentication reply sign local_device_id classify c identity answer ≡ inr proved
      → answer ≡ none
  authentication_proves c identity proved none h = refl
  authentication_proves c identity proved (some error) h = absurd (inl-ne-inr h)

  identity_proves :
      (peer : String) (paired : Option PairedDevice) (c : PeerAddressCandidate)
      (proved : PublicIdentity) (answer : String ⊎ PublicIdentity)
      → check_identity reply sign local_device_id classify peer paired c answer ≡ inr proved
      → (identity : PublicIdentity) × (answer ≡ inr identity)
        × (identity.device_id ≡ peer)
        × (key_agrees paired identity ≡ true)
        × (authenticate_peer_address reply sign local_device_id c.host c.port peer ≡ none)
  identity_proves peer paired c proved (inl error) h = absurd (inl-ne-inr h)
  identity_proves peer paired c proved (inr identity) h =
      elim (Bool-cases (identity.device_id == peer)) [
        | inr other ↦ absurd (inl-ne-inr (rw (other, check_identity) at h))
        | inl own ↦ elim (Bool-cases (key_agrees paired identity)) [
          | inr differs ↦ absurd (inl-ne-inr (rw (own, differs, check_identity) at h))
          | inl agrees ↦ (
            identity,
            refl,
            (eq_iff identity.device_id peer).0 own,
            agrees,
            authentication_proves c identity proved
                (authenticate_peer_address reply sign local_device_id c.host c.port peer)
                (rw (own, agrees, check_identity) at h),
          )
        ]
      ]

  verified_proves :
      (peer : String) (paired : Option PairedDevice) (c : PeerAddressCandidate)
      (proved : PublicIdentity)
      → verify_peer_address reply sign local_device_id classify peer paired c ≡ inr proved
      → AnswersAs peer paired c
  unfolding verify_peer_address
  verified_proves peer paired c proved h =
      elim (Option-cases (ping_peer_address reply c.host c.port)) [
        | inr (error, bad) ↦ absurd (inl-ne-inr (rw (bad, verify_peer_address) at h))
        | inl answers ↦
            let (identity, same, own, key, authentic) =
              identity_proves peer paired c proved
                (request_peer_identity_details reply c.host c.port)
                (rw (answers, verify_peer_address) at h) in
            (
              identity,
              ping_peer_address-pong reply c.host c.port answers,
              request_peer_identity_details-Presents reply c.host c.port identity same,
              own,
              key,
              authenticate_peer_address-LetsIn reply sign local_device_id c.host c.port peer
                  authentic,
            )
      ]

  abbrev IsReached :
      String
      → Option PairedDevice
      → List PeerAddressCandidate
      → PeerConnection
      → ConnectionManager
      → Type 0
  IsReached peer paired candidates conn m =
      (c : PeerAddressCandidate) × Memᴰ c candidates
      × AnswersAs peer paired c
      × (conn.address ≡ candidate_address c)
      × (get_peer peer m ≡ some conn)
      × (conn.connected ≡ true)

  accepted :
      (peer : String) (now : ℤ) (c : PeerAddressCandidate) (conn : PeerConnection)
      (m : ConnectionManager) (written : Option String)
      → after_persist reply sign local_device_id classify
          (connection_at reply sign local_device_id classify peer now c)
          written
        ≡ inr conn
      → (conn.address ≡ candidate_address c)
        × (get_peer peer
              (register_connection (connection_at reply sign local_device_id classify peer now c) m)
            ≡ some conn)
        × (conn.connected ≡ true)
  unfolding get_peer register_connection
  accepted peer now c conn m (some detail) h = absurd (inl-ne-inr h)
  accepted peer now c conn m none h =
      let own = connection_at reply sign local_device_id classify peer now c in
      let same : own ≡ conn = inr-injective own conn h in
      (
        ap (λ (x : PeerConnection). x.address) (sym same),
        lookup-insert peer peer own m.peers ∙ rw (beq_self peer) (ap some same),
        ap (λ (x : PeerConnection). x.connected) (sym same),
      )

  refresh_reaches :
      (peer : String) (paired : Option PairedDevice) (now : ℤ) (persist : String → Option String)
      (last : Option PeerProbeFailure) (candidates : List PeerAddressCandidate)
      (m : ConnectionManager) (conn : PeerConnection)
      → (refresh_from reply sign local_device_id classify peer paired now persist last candidates
          m).1
        ≡ inr conn
      → IsReached peer paired candidates conn
          (refresh_from reply sign local_device_id classify peer paired now persist last candidates
            m).0
  unfolding refresh_from
  refresh_reaches peer paired now persist last [] m conn h = absurd (inl-ne-inr h)
  refresh_reaches peer paired now persist last (c ∷ cs) m conn h =
      go (verify_peer_address reply sign local_device_id classify peer paired c) refl
        (λ failure e. refresh_reaches peer paired now persist (some failure) cs m conn e) h
    where
      go :
          (verdict : PeerProbeFailure ⊎ PublicIdentity)
          → verify_peer_address reply sign local_device_id classify peer paired c ≡ verdict
          → ((failure : PeerProbeFailure)
              → (refresh_from reply sign local_device_id classify peer paired now persist
                  (some failure)
                  cs
                  m).1
                ≡ inr conn
              → IsReached peer paired cs conn
                  (refresh_from reply sign local_device_id classify peer paired now persist
                    (some failure)
                    cs
                    m).0)
          → (elim verdict as (λ _. ConnectionManager × (PeerProbeFailure ⊎ PeerConnection)) [
            | inl failure ↦
                refresh_from reply sign local_device_id classify peer paired now persist
                  (some failure)
                  cs
                  m
            | inr identity ↦ (
              register_connection (connection_at reply sign local_device_id classify peer now c) m,
              after_persist reply sign local_device_id classify
                  (connection_at reply sign local_device_id classify peer now c)
                  (persist (candidate_address c)),
            )
          ]).1
            ≡ inr conn
          → IsReached peer paired
              (c ∷ cs)
              conn
              (elim verdict as (λ _. ConnectionManager × (PeerProbeFailure ⊎ PeerConnection)) [
                | inl failure ↦
                    refresh_from reply sign local_device_id classify peer paired now persist
                      (some failure)
                      cs
                      m
                | inr identity ↦ (
                  register_connection
                      (connection_at reply sign local_device_id classify peer now c)
                      m,
                  after_persist reply sign local_device_id classify
                      (connection_at reply sign local_device_id classify peer now c)
                      (persist (candidate_address c)),
                )
              ]).0
      go (inl failure) e ih k =
          let (own, among, proved, address, there, on) = ih failure k in
          (own, Memᴰ.tail among, proved, address, there, on)
      go (inr identity) e ih k =
          let (address, there, on) = accepted peer now c conn m (persist (candidate_address c)) k in
          (c, Memᴰ.head refl, verified_proves peer paired c identity e, address, there, on)

  -- If the search for a peer succeeds, the peer is registered as connected at the address of one of
  -- the candidates, which has answered a ping, presented itself as the peer, with the key of the
  -- paired device if that is known, and accepted this device's signature of its challenge. That the
  -- address has the peer's key is not proved to this device.
  pub refresh_peer_reachable_address-AnswersAs :
      (peer : String) (paired : Option PairedDevice) (now : ℤ) (persist : String → Option String)
      (candidates : List PeerAddressCandidate) (m : ConnectionManager) (conn : PeerConnection)
      → (refresh_peer_reachable_address reply sign local_device_id classify peer paired now persist
          candidates m).1
        ≡ inr conn
      → (c : PeerAddressCandidate) × Memᴰ c candidates
        × AnswersAs peer paired c
        × (conn.address ≡ candidate_address c)
        × (get_peer peer
              (refresh_peer_reachable_address reply sign local_device_id classify peer paired now
                persist candidates m).0
            ≡ some conn)
        × (conn.connected ≡ true)
  unfolding refresh_peer_reachable_address
  refresh_peer_reachable_address-AnswersAs peer paired now persist candidates m conn h =
      refresh_reaches peer paired now persist none candidates m conn h
