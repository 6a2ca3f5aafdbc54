-- ===== src/Repository/Devices.antt =====
-- state/repository.rs: `PairedDeviceRepository`, the table `paired_devices`, whose `upsert` also makes
-- the device's row of `peer_connection_state`.
use lan_bridge.Base.{
  String, Option, none, some, List, ◌≡◌, refl, ◌==◌, string_eq, if◌then◌else◌, arith,
}
use lan_bridge.Base.Int.{ltb_ℤ}
use lan_bridge.Base.Sort.{sort_by}
use lan_bridge.Model.{PairedDevice}
use lan_bridge.Repository.Keyed
use lan_bridge.Repository.Peers
use lan_bridge.Repository.Peers.{PeerConnectionStateRecord}

abbrev pub device_key : PairedDevice → String
device_key d = d.device_id

pub record DeviceTables : Type 0 where
  pub paired_devices : List PairedDevice
  pub peer_connection_state : List PeerConnectionStateRecord

unfoldable pub upsert : PairedDevice → DeviceTables → DeviceTables
upsert device db = record {
  paired_devices = Keyed.upsert device_key (λ old new. new) device db.paired_devices;
  peer_connection_state =
      Peers.ensure device.device_id device.last_seen_unix_ms db.peer_connection_state;
}

unfoldable pub get : String → DeviceTables → Option PairedDevice
get device_id db = Keyed.select device_key device_id db.paired_devices

-- `ORDER BY last_seen_unix_ms DESC`
unfoldable pub list_all : DeviceTables → List PairedDevice
list_all db = sort_by (λ x y. ltb_ℤ x.last_seen_unix_ms y.last_seen_unix_ms) db.paired_devices

-- The row of a peer that has one is kept; a peer that has none gets a fresh one.
abbrev pub kept_or_fresh :
    PairedDevice → Option PeerConnectionStateRecord → PeerConnectionStateRecord
kept_or_fresh device none = Peers.fresh device.device_id device.last_seen_unix_ms
kept_or_fresh device (some old) = old

-- After `upsert` the device is found as it was given, its connection state is the one it had or a
-- connected one of revision 0, and the other devices and their states are as before.
pub upsert-pairs :
    (device : PairedDevice) (q : String) (db : DeviceTables)
    → (get q (upsert device db) ≡ (if device.device_id == q then some device else get q db))
      × (Peers.get q (upsert device db).peer_connection_state ≡ (
          if device.device_id == q
          then some (kept_or_fresh device (Peers.get device.device_id db.peer_connection_state))
          else Peers.get q db.peer_connection_state))
unfolding upsert get Peers.get Peers.ensure
upsert-pairs device q db = (
  rw
      (Keyed.select-upsert device_key (λ old new. new) device q db.paired_devices
        (λ old new e. refl))
      (ground arith),
  rw
      (Keyed.select-upsert Peers.peer_key (λ old new. old)
        (Peers.fresh device.device_id device.last_seen_unix_ms) q db.peer_connection_state
        (λ old new e. e))
      (ground arith),
)
