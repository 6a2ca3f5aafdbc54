-- ===== src/Actions/Candidates.antt =====
-- src-tauri/src/commands/mod.rs: the addresses at which a peer may be reached, and how one of them is
-- taken. What the network answers is the argument `reply` of Connection/Probes. `classify` makes a
-- failure of a stage, a host and an error, and `persist` is the error of writing the address to the
-- database, if it has one.
use lan_bridge.Base.{
  ℕ, String, ◌<>◌, Bool, true, false, ◌&&◌, ◌||◌, not, Option, none, some, List, [], ◌∷◌, ◌++◌, ◌⊎◌,
  inl, inr, if◌then◌else◌, ◌==◌, string_eq, eqb, any, find,
}
use lan_bridge.Base.Int.{ℤ}
use lan_bridge.Base.Text.{rsplit_once}
use lan_bridge.Base.Decimal.{print_ℕ, parse_u16}
use lan_bridge.Model.{PairedDevice}
use lan_bridge.Connection.Probes.{
  Network, ping_peer_address, request_peer_identity_details, authenticate_peer_address,
}
use lan_bridge.Discovery.{OnlineDevice, OnlineDeviceAddress}
use lan_bridge.Connection.Manager.{
  ConnectionManager, PeerConnection, PublicIdentity, register_connection,
}

pub record PeerAddressCandidate : Type 0 where
  pub host : String
  pub port : ℕ

pub record PeerProbeFailure : Type 0 where
  pub code : String
  pub detail : String

abbrev with_port : String → Option ℕ → Option PeerAddressCandidate
with_port host none = none
with_port host (some port) = some (record { host = host; port = port })

abbrev of_cut : Option (String × String) → Option PeerAddressCandidate
of_cut none = none
of_cut (some (host, port)) = with_port host (parse_u16 port)

-- `PeerAddressCandidate::parse`
unfoldable pub parse_candidate : String → Option PeerAddressCandidate
parse_candidate address = of_cut (rsplit_once b':' address)

unfoldable pub candidate_address : PeerAddressCandidate → String
candidate_address c = c.host <> (":" <> print_ℕ c.port)

abbrev pub same_candidate : PeerAddressCandidate → PeerAddressCandidate → Bool
same_candidate a b = a.host == b.host && eqb a.port b.port

unfoldable pub push_peer_candidate :
    List PeerAddressCandidate → Option PeerAddressCandidate → List PeerAddressCandidate
push_peer_candidate candidates none = candidates
push_peer_candidate candidates (some c) =
    if any (same_candidate c) candidates then candidates else candidates ++ (c ∷ [])

abbrev push_addresses :
    List PeerAddressCandidate → List OnlineDeviceAddress → List PeerAddressCandidate
push_addresses candidates [] = candidates
push_addresses candidates (a ∷ addresses) =
    push_addresses (push_peer_candidate candidates (some (record { host = a.ip; port = a.port })))
      addresses

abbrev last_address_of : Option PairedDevice → Option String
last_address_of none = none
last_address_of (some device) = device.last_address

abbrev push_address : List PeerAddressCandidate → Option String → List PeerAddressCandidate
push_address candidates none = candidates
push_address candidates (some address) = push_peer_candidate candidates (parse_candidate address)

abbrev push_device : List PeerAddressCandidate → Option OnlineDevice → List PeerAddressCandidate
push_device candidates none = candidates
push_device candidates (some device) = push_addresses candidates device.addresses

abbrev peer_address : Option PeerConnection → Option String
peer_address none = none
peer_address (some peer) = some peer.address

-- `devices` is what the discovery lists.
unfoldable pub candidate_peer_addresses :
    String
    → Option PeerConnection
    → Option PairedDevice
    → List OnlineDevice
    → List PeerAddressCandidate
candidate_peer_addresses peer_device_id peer paired devices =
    push_device (push_address (push_address [] (peer_address peer)) (last_address_of paired))
      (find (λ d. d.device_id == peer_device_id && d.compatible) devices)

abbrev is_nil : List ℕ → Bool
is_nil [] = true
is_nil (x ∷ xs) = false

abbrev same_bytes : List ℕ → List ℕ → Bool
same_bytes [] [] = true
same_bytes [] (b ∷ bs) = false
same_bytes (a ∷ as_) [] = false
same_bytes (a ∷ as_) (b ∷ bs) = eqb a b && same_bytes as_ bs

-- A paired device whose key is known has that key.
abbrev pub key_agrees : Option PairedDevice → PublicIdentity → Bool
key_agrees none identity = true
key_agrees (some device) identity =
    is_nil device.public_key || same_bytes device.public_key identity.public_key

module _ (reply : Network) (sign : String → List ℕ → List ℕ) (local_device_id : String)
    (classify : String → String → String → PeerProbeFailure) where
  abbrev pub check_authentication :
      PeerAddressCandidate → PublicIdentity → Option String → PeerProbeFailure ⊎ PublicIdentity
  check_authentication c identity (some error) = inl (classify "authentication" c.host error)
  check_authentication c identity none = inr identity

  abbrev mismatch : String → PeerProbeFailure ⊎ PublicIdentity
  mismatch detail = inl (record { code = "identity_mismatch"; detail = detail })

  abbrev pub check_identity :
      String
      → Option PairedDevice
      → PeerAddressCandidate
      → String ⊎ PublicIdentity
      → PeerProbeFailure ⊎ PublicIdentity
  check_identity peer_device_id paired c (inl error) = inl (classify "identity" c.host error)
  check_identity peer_device_id paired c (inr identity) =
      if not (identity.device_id == peer_device_id)
      then mismatch "对端身份已变化，请重新发现设备。"
      else if not (key_agrees paired identity)
      then mismatch "对端公钥与已配对设备不一致，请重新配对。"
      else check_authentication c identity
          (authenticate_peer_address reply sign local_device_id c.host c.port peer_device_id)

  abbrev pub check_ping :
      String
      → Option PairedDevice
      → PeerAddressCandidate
      → Option String
      → PeerProbeFailure ⊎ PublicIdentity
  check_ping peer_device_id paired c (some error) = inl (classify "tcp_ping" c.host error)
  check_ping peer_device_id paired c none =
      check_identity peer_device_id paired c (request_peer_identity_details reply c.host c.port)

  unfoldable pub verify_peer_address :
      String → Option PairedDevice → PeerAddressCandidate → PeerProbeFailure ⊎ PublicIdentity
  verify_peer_address peer_device_id paired c =
      check_ping peer_device_id paired c (ping_peer_address reply c.host c.port)

  abbrev pub connection_at : String → ℤ → PeerAddressCandidate → PeerConnection
  connection_at peer_device_id now c = record {
    device_id = peer_device_id;
    address = candidate_address c;
    connected = true;
    last_seen_unix_ms = now;
  }

  abbrev pub after_persist : PeerConnection → Option String → PeerProbeFailure ⊎ PeerConnection
  after_persist conn none = inr conn
  after_persist conn (some detail) = inl (record { code = "unknown"; detail = detail })

  abbrev or_unreachable : Option PeerProbeFailure → PeerProbeFailure
  or_unreachable none = record { code = "unknown"; detail = "peer is unreachable" }
  or_unreachable (some failure) = failure

  -- The loop over the candidates, with the last failure so far.
  unfoldable pub refresh_from :
      String
      → Option PairedDevice
      → ℤ
      → (String → Option String)
      → Option PeerProbeFailure
      → List PeerAddressCandidate
      → ConnectionManager
      → ConnectionManager × (PeerProbeFailure ⊎ PeerConnection)
  refresh_from peer_device_id paired now persist last [] m = (m, inl (or_unreachable last))
  refresh_from peer_device_id paired now persist last (c ∷ cs) m =
      elim (verify_peer_address peer_device_id paired c) [
        | inl failure ↦ refresh_from peer_device_id paired now persist (some failure) cs m
        | inr identity ↦ (
          register_connection (connection_at peer_device_id now c) m,
          after_persist (connection_at peer_device_id now c) (persist (candidate_address c)),
        )
      ]

  unfoldable pub refresh_peer_reachable_address :
      String
      → Option PairedDevice
      → ℤ
      → (String → Option String)
      → List PeerAddressCandidate
      → ConnectionManager
      → ConnectionManager × (PeerProbeFailure ⊎ PeerConnection)
  refresh_peer_reachable_address peer_device_id paired now persist candidates m =
      refresh_from peer_device_id paired now persist none candidates m
