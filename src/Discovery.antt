-- ===== src/Discovery.antt =====
-- src-tauri/src/transport/discovery.rs: the devices that announce themselves in the network. The clock
-- is an argument, and so are the interfaces and sockets that the system gives.
pub mod Addresses
pub mod Devices
pub mod Listing
pub mod Announced
pub mod Online
pub mod Workers
use lan_bridge.Base.{
  ℕ, suc, ◌+◌, ◌*◌, ◌-◌, ◌%◌, ◌^◌, String, Bool, true, false, ◌||◌, ◌&&◌, not, Option, none, some,
  List, [], ◌∷◌, ◌++◌, ◌==◌, string_eq, nat_eq, any, if◌then◌else◌, filter, map, eqb, leb,
}
use lan_bridge.Base.Int.{ℤ, pos, negsuc, ◌-ℤ◌, ◌+ℤ◌, ltb_ℤ, max_ℤ}
use lan_bridge.Base.Assoc.{HashMap, insert, lookup}
use lan_bridge.Base.Sort.{sort_by, by_key_down}
use lan_bridge.Discovery.Addresses.{address_score_of}

pub record Announce : Type 0 where
  pub device_id : String
  pub display_name : String
  pub public_key : List ℕ
  pub port : ℕ
  pub app_version : String
  pub protocol_version : ℕ
  pub min_protocol_version : ℕ

pub record OnlineDeviceAddress : Type 0 where
  pub ip : String
  pub port : ℕ
  pub interface_name : Option String
  pub last_seen_unix_ms : ℤ

pub record OnlineDevice : Type 0 where
  pub device_id : String
  pub display_name : String
  pub ip : String
  pub port : ℕ
  pub public_key : List ℕ
  pub app_version : Option String
  pub protocol_version : Option ℕ
  pub compatible : Bool
  pub compatibility_reason : Option String
  pub addresses : List OnlineDeviceAddress
  pub last_seen_unix_ms : ℤ

pub record DiscoveryStatus : Type 0 where
  pub enabled : Bool
  pub running : Bool
  pub error : Option String
  pub interfaces : List String
  pub joined_interfaces : List String
  pub announce_interfaces : List String
  pub skipped_interfaces : List String
  pub socket_errors : List String

pub record DiscoverySocketReport : Type 0 where
  pub joined_interfaces : List String
  pub announce_interfaces : List String
  pub skipped_interfaces : List String
  pub socket_errors : List String

pub record PeerRecord : Type 0 where
  pub announce : Announce
  pub addresses : HashMap String OnlineDeviceAddress

pub record DiscoveryState : Type 0 where
  pub peers : HashMap String PeerRecord
  pub devices : List OnlineDevice
  pub status : DiscoveryStatus
  pub generation : ℕ

abbrev pub peer_timeout_secs : ℕ
peer_timeout_secs = 15

abbrev pub no_report : DiscoverySocketReport
no_report = record {
  joined_interfaces = [];
  announce_interfaces = [];
  skipped_interfaces = [];
  socket_errors = [];
}

abbrev pub status_with : Bool → Option String → DiscoverySocketReport → DiscoveryStatus
status_with running error report = record {
  enabled = true;
  running = running;
  error = error;
  interfaces = report.announce_interfaces;
  joined_interfaces = report.joined_interfaces;
  announce_interfaces = report.announce_interfaces;
  skipped_interfaces = report.skipped_interfaces;
  socket_errors = report.socket_errors;
}

abbrev pub new_state : DiscoveryState
new_state = record {
  peers = [];
  devices = [];
  status = status_with false none no_report;
  generation = 0;
}

-- `fetch_add` on an `AtomicU64`.
abbrev pub next_generation : ℕ → ℕ
next_generation generation = (generation + 1) % 2 ^ 64

unfoldable pub mark_running : DiscoverySocketReport → DiscoveryState → DiscoveryState × ℕ
mark_running report s = (
  record s { generation = next_generation s.generation; status = status_with true none report },
  next_generation s.generation,
)

unfoldable pub mark_failed : String → DiscoveryState → DiscoveryState
mark_failed error s = record s {
  status = record (s.status) { running = false; error = some error };
}

unfoldable pub mark_disabled : DiscoveryState → DiscoveryState
mark_disabled s = record s {
  generation = next_generation s.generation;
  peers = [];
  devices = [];
  status = record (status_with false none no_report) { enabled = false };
}

unfoldable pub worker_active : ℕ → DiscoveryState → Bool
worker_active generation s = s.status.enabled && (s.status.running && eqb s.generation generation)

unfoldable pub announce_is_compatible : Announce → Bool
announce_is_compatible a = leb 1 a.protocol_version && leb a.min_protocol_version 2

unfoldable pub announce_compatibility_reason : Announce → Option String
announce_compatibility_reason a = if announce_is_compatible a then none else some "版本不兼容，请升级"

unfoldable pub address_score : OnlineDeviceAddress → ℤ
address_score a = address_score_of a.ip a.interface_name

unfoldable pub cutoff : ℤ → ℤ
cutoff now = now -ℤ pos (peer_timeout_secs * 1000)

abbrev pub is_recent : ℤ → String × OnlineDeviceAddress → Bool
is_recent now entry = ltb_ℤ (cutoff now) entry.1.last_seen_unix_ms

abbrev pub without_old : ℤ → PeerRecord → PeerRecord
without_old now r = record r { addresses = filter (is_recent now) r.addresses }

abbrev pub has_addresses : HashMap String OnlineDeviceAddress → Bool
has_addresses [] = false
has_addresses (a ∷ addresses) = true

-- The retained peers, each with its recent addresses.
unfoldable pub retain_peers : ℤ → HashMap String PeerRecord → HashMap String PeerRecord
retain_peers now [] = []
retain_peers now ((id, r) ∷ peers) =
    let rest = retain_peers now peers in
    if has_addresses (filter (is_recent now) r.addresses)
    then (id, without_old now r) ∷ rest
    else rest

abbrev pub latest : ℤ → List OnlineDeviceAddress → ℤ
latest time [] = time
latest time (a ∷ addresses) = max_ℤ a.last_seen_unix_ms (latest time addresses)

abbrev pub values {ℓ κ} : {K : Type ℓ} {V : Type κ} → HashMap K V → List V
values entries = map (λ entry. entry.1) entries

abbrev pub device_with : Announce → List OnlineDeviceAddress → Option OnlineDevice
device_with announce [] = none
device_with announce (preferred ∷ rest) = some (record {
  device_id = announce.device_id;
  display_name = announce.display_name;
  ip = preferred.ip;
  port = preferred.port;
  public_key = announce.public_key;
  app_version = some announce.app_version;
  protocol_version = some announce.protocol_version;
  compatible = announce_is_compatible announce;
  compatibility_reason = announce_compatibility_reason announce;
  addresses = preferred ∷ rest;
  last_seen_unix_ms = latest preferred.last_seen_unix_ms (preferred ∷ rest);
})

unfoldable pub device_of : PeerRecord → Option OnlineDevice
device_of r = device_with r.announce (sort_by (by_key_down address_score) (values r.addresses))

unfoldable pub devices_of : HashMap String PeerRecord → List OnlineDevice
devices_of [] = []
devices_of ((id, r) ∷ peers) =
    let rest = devices_of peers in elim (device_of r) [ none ↦ rest | some device ↦ device ∷ rest ]

abbrev pub last_seen : OnlineDevice → ℤ
last_seen d = d.last_seen_unix_ms

unfoldable pub refresh_devices : ℤ → DiscoveryState → DiscoveryState
refresh_devices now s =
    let kept = retain_peers now s.peers in
    record s { peers = kept; devices = sort_by (by_key_down last_seen) (devices_of kept) }

unfoldable pub list_devices : ℤ → DiscoveryState → List OnlineDevice × DiscoveryState
list_devices now s = let pruned = refresh_devices now s in (pruned.devices, pruned)

abbrev pub record_or_new : Announce → Option PeerRecord → PeerRecord
record_or_new announce none = record { announce = announce; addresses = [] }
record_or_new announce (some r) = r

abbrev pub recorded : ℤ → Announce → String → Option String → PeerRecord → PeerRecord
recorded now announce ip interface_name r = record {
  announce = announce;
  addresses =
      insert ip
        (record {
          ip = ip;
          port = announce.port;
          interface_name = interface_name;
          last_seen_unix_ms = now;
        })
        r.addresses;
}

unfoldable pub record_peer : ℤ → Announce → String → Option String → DiscoveryState → DiscoveryState
record_peer now announce ip interface_name s =
    if eqb announce.port 0
    then s
    else refresh_devices now (record s {
      peers =
          insert announce.device_id
            (recorded now announce ip interface_name
              (record_or_new announce (lookup announce.device_id s.peers)))
            s.peers;
    })

-- `listen_loop`: what a datagram with an announcement does.
unfoldable pub hear : String → ℤ → Announce → String → DiscoveryState → DiscoveryState
hear local_device_id now announce ip s =
    if announce.device_id == local_device_id then s else record_peer now announce ip none s
