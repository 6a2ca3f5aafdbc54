-- ===== src/Connection/Addresses.antt =====
-- The addresses of peers as `host:port`, and the ping of a peer at the address that is known.
use lan_bridge.Base.{
  ℕ, ◌<◌, String, ◌<>◌, Bool, true, false, Option, none, some, ◌≡◌, refl, ◌⊎◌, inl, inr, string_eq,
  beq_self,
}
use lan_bridge.Base.Int.{ℤ}
use lan_bridge.Base.Text.{rsplit_once, rsplit_once_last}
use lan_bridge.Base.Decimal.{print_ℕ, parse_u16, parse_u16-print_ℕ, parse_digits-print_ℕ, no_colon}
use lan_bridge.Base.Assoc.{lookup}
use text.Mathlib.TextLemmas.{nil-append, cons-append}
use lan_bridge.Connection.Manager.{
  ConnectionManager, PeerConnection, get_peer, mark_connected, disconnect, is_connected, seen_at,
}
use lan_bridge.Connection.Manager.Events.{lookup-change_at}

pub data PeerError : Type 0 where
  not_connected invalid_peer_address invalid_port : PeerError
  unanswered : String → PeerError

abbrev port_of : String → Option ℕ → PeerError ⊎ (String × ℕ)
port_of address none = inl invalid_port
port_of address (some port) = inr (address, port)

abbrev address_of : Option (String × String) → PeerError ⊎ (String × ℕ)
address_of none = inl invalid_peer_address
address_of (some (address, port)) = port_of address (parse_u16 port)

unfoldable pub split_peer_address : String → PeerError ⊎ (String × ℕ)
split_peer_address peer_address = address_of (rsplit_once b':' peer_address)

-- `ping address port` is the error of the ping of that address, if it fails.
module _ (ping : String → ℕ → Option String) where
  abbrev ping_result :
      ℤ → String → ConnectionManager → Option String → ConnectionManager × Option PeerError
  ping_result now device_id m none = (mark_connected now device_id m, none)
  ping_result now device_id m (some error) = (disconnect device_id m, some (unanswered error))

  abbrev ping_split :
      ℤ
      → String
      → ConnectionManager
      → PeerError ⊎ (String × ℕ)
      → ConnectionManager × Option PeerError
  ping_split now device_id m (inl error) = (m, some error)
  ping_split now device_id m (inr (address, port)) = ping_result now device_id m (ping address port)

  unfoldable pub ping_known_peer :
      ℤ → String → ConnectionManager → ConnectionManager × Option PeerError
  ping_known_peer now device_id m = elim (get_peer device_id m) [
    | none ↦ (m, some not_connected)
    | some peer ↦ ping_split now device_id m (split_peer_address peer.address)
  ]

-- An address printed with its port is split into the two again, also if the address has colons.
pub split_peer_address_printed :
    (address : String) (port : ℕ)
    → port < 65536
    → split_peer_address (address <> (":" <> print_ℕ port)) ≡ inr (address, port)
unfolding split_peer_address
split_peer_address_printed address port h =
    let cut : rsplit_once b':' (address <> (":" <> print_ℕ port)) ≡ some (address, print_ℕ port) =
      rw (cons-append, nil-append)
        (rsplit_once_last address (print_ℕ port) ":"
          (no_colon 0 port (print_ℕ port) (parse_digits-print_ℕ port))) in
    rw (cut, parse_u16-print_ℕ port h) refl

module _ (ping : String → ℕ → Option String) where
  abbrev pub answers : Option String → Bool
  answers none = true
  answers (some error) = false

  abbrev pub error_of : Option String → Option PeerError
  error_of none = none
  error_of (some error) = some (unanswered error)

  ping_result_lem :
      (now : ℤ) (d : String) (m : ConnectionManager) (peer : PeerConnection)
      → lookup d m.peers ≡ some peer
      → (answer : Option String)
      → (is_connected d (ping_result ping now d m answer).0 ≡ answers answer)
        × ((ping_result ping now d m answer).1 ≡ error_of answer)
  unfolding is_connected mark_connected disconnect
  ping_result_lem now d m peer h none =
      (rw (lookup-change_at (seen_at now) d d m.peers) (rw h (rw (beq_self d) refl)), refl)
  ping_result_lem now d m peer h (some error) = (
    rw (lookup-change_at (λ p. record p { connected = false }) d d m.peers)
        (rw h (rw (beq_self d) refl)),
    refl,
  )

  -- A ping of a registered peer whose address ends in a port asks that address, and leaves the peer
  -- connected exactly when it answers, with the ping's error otherwise.
  pub ping_known_peer-is_connected :
      (now : ℤ) (d : String) (m : ConnectionManager) (peer : PeerConnection) (address : String)
      (port : ℕ)
      → get_peer d m ≡ some peer
      → peer.address ≡ address <> (":" <> print_ℕ port)
      → port < 65536
      → (is_connected d (ping_known_peer ping now d m).0 ≡ answers (ping address port))
        × ((ping_known_peer ping now d m).1 ≡ error_of (ping address port))
  unfolding ping_known_peer get_peer
  ping_known_peer-is_connected now d m peer address port h same small =
      let asked : ping_known_peer ping now d m ≡ ping_result ping now d m (ping address port) =
        rw (h, ping_known_peer, same, split_peer_address_printed address port small) refl in
      rw asked (ping_result_lem now d m peer h (ping address port))
