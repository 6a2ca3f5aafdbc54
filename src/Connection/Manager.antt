-- ===== src/Connection/Manager.antt =====
-- src-tauri/src/transport/connection.rs: `ConnectionManager`, what is known of the paired peers.
pub mod Events
use lan_bridge.Base.{
  ℕ, String, Bool, true, false, ◌||◌, ◌&&◌, not, Option, none, some, List, [], ◌∷◌, ◌≡◌, refl, ap,
  ◌∙◌, inl, inr, ◌==◌, string_eq, eq_iff, if◌then◌else◌, arith, Bool-cases, map,
}
use lan_bridge.Base.Int.{ℤ}
use lan_bridge.Base.Assoc.{HashMap, insert, lookup, lookup-insert}
use lan_bridge.Base.Sets.{HashSet, add, discard, contains, contains-add, contains-discard}
use lan_bridge.Connection.{change_at}

pub record PeerConnection : Type 0 where
  pub device_id : String
  pub address : String
  pub connected : Bool
  pub last_seen_unix_ms : ℤ

pub record PublicIdentity : Type 0 where
  pub device_id : String
  pub public_key : List ℕ

pub record ConnectionManager : Type 0 where
  pub peers : HashMap String PeerConnection
  pub pinned_identities : HashMap String PublicIdentity
  pub manually_disconnected : HashSet String

abbrev pub new_manager : ConnectionManager
new_manager = record { peers = []; pinned_identities = []; manually_disconnected = [] }

unfoldable pub pin_peer : PublicIdentity → ConnectionManager → ConnectionManager
pin_peer identity m = record m {
  pinned_identities = insert identity.device_id identity m.pinned_identities;
}

unfoldable pub get_pinned : String → ConnectionManager → Option PublicIdentity
get_pinned device_id m = lookup device_id m.pinned_identities

unfoldable pub is_pinned : String → ConnectionManager → Bool
is_pinned device_id m = elim (lookup device_id m.pinned_identities) [ none ↦ false | some _ ↦ true ]

unfoldable pub register_connection : PeerConnection → ConnectionManager → ConnectionManager
register_connection conn m = record m { peers = insert conn.device_id conn m.peers }

unfoldable pub disconnect : String → ConnectionManager → ConnectionManager
disconnect device_id m = record m {
  peers = change_at (λ p. record p { connected = false }) device_id m.peers;
}

unfoldable pub manual_disconnect : String → ConnectionManager → ConnectionManager
manual_disconnect device_id m =
    let after = disconnect device_id m in
    record after { manually_disconnected = add device_id after.manually_disconnected }

unfoldable pub clear_manual_disconnect : String → ConnectionManager → ConnectionManager
clear_manual_disconnect device_id m = record m {
  manually_disconnected = discard device_id m.manually_disconnected;
}

unfoldable pub set_manual_disconnect_state : String → Bool → ConnectionManager → ConnectionManager
set_manual_disconnect_state device_id true m = manual_disconnect device_id m
set_manual_disconnect_state device_id false m = clear_manual_disconnect device_id m

unfoldable pub is_manually_disconnected : String → ConnectionManager → Bool
is_manually_disconnected device_id m = contains device_id m.manually_disconnected

abbrev pub flag_of : Option PeerConnection → Bool
flag_of none = false
flag_of (some peer) = peer.connected

unfoldable pub is_connected : String → ConnectionManager → Bool
is_connected device_id m = flag_of (lookup device_id m.peers)

unfoldable pub list_peers : ConnectionManager → List PeerConnection
list_peers m = map (λ entry. entry.1) m.peers

unfoldable pub get_peer : String → ConnectionManager → Option PeerConnection
get_peer device_id m = lookup device_id m.peers

abbrev pub seen_at : ℤ → PeerConnection → PeerConnection
seen_at now p = record p { connected = true; last_seen_unix_ms = now }

unfoldable pub mark_connected : ℤ → String → ConnectionManager → ConnectionManager
mark_connected now device_id m = record m { peers = change_at (seen_at now) device_id m.peers }
