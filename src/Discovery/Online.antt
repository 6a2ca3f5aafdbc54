-- ===== src/Discovery/Online.antt =====
-- Which devices are listed: those that were heard of lately.
use lan_bridge.Base.{
  String, true, some, List, [], ◌∷◌, ◌≡◌, refl, sym, ap, ◌∙◌, Bool-eq, All-mem, filter, mem-filter,
  mem-filter_of_mem, Memᴰ, any, any-mem, any_of_mem, ◌==◌, string_eq, eq_iff,
}
use lan_bridge.Base.Int.{ℤ}
use lan_bridge.Base.Assoc.{mem_of_lookup}
use lan_bridge.Base.Sort.{by_key_down, sort_by, sort_by-perm, mem-perm}
use mathlib.Core.Option.{some-injective, none-ne-some}
use mathlib.Core.List.Memᴰ
use mathlib.Core.List.Permᴰ
use lan_bridge.Discovery.{
  Announce, OnlineDevice, OnlineDeviceAddress, PeerRecord, list_devices, refresh_devices,
  retain_peers, device_of, device_with, address_score, last_seen, values, is_recent, without_old,
}
use lan_bridge.Discovery.Listing.{
  Event, after, is_announced, IsInOrder, mem-retain_peers, lookup-retain_peers, mem-devices_of,
  mem-devices_of_of_mem,
}
use lan_bridge.Discovery.Announced.{IsBacked, after-IsBacked, after-IsKnown, has_addresses-filter}

device_with-id :
    (announce : Announce) (addresses : List OnlineDeviceAddress) (dev : OnlineDevice)
    → device_with announce addresses ≡ some dev
    → (dev.device_id ≡ announce.device_id) × ((a : OnlineDeviceAddress) × Memᴰ a addresses)
device_with-id announce [] dev h = absurd (none-ne-some dev h)
device_with-id announce (a ∷ rest) dev h =
    (ap (λ (x : OnlineDevice). x.device_id) (sym (some-injective _ dev h)), (a, Memᴰ.head refl))

device_with_of_mem :
    (announce : Announce) {a : OnlineDeviceAddress} (addresses : List OnlineDeviceAddress)
    → Memᴰ a addresses
    → (dev : OnlineDevice) × (device_with announce addresses ≡ some dev)
device_with_of_mem announce [] m = elim m [ ]
device_with_of_mem announce (b ∷ rest) m = (_, refl)

sorted_addresses : ℤ → PeerRecord → List OnlineDeviceAddress
sorted_addresses now r =
    sort_by (by_key_down address_score) (values (filter (is_recent now) r.addresses))

-- A device that is made of a peer has an address of the peer that is recent.
device_of-recent :
    (now : ℤ) (r : PeerRecord) (dev : OnlineDevice)
    → device_of (without_old now r) ≡ some dev
    → (dev.device_id ≡ r.announce.device_id)
      × ((x : String × OnlineDeviceAddress) × Memᴰ x r.addresses × (is_recent now x ≡ true))
unfolding device_of sorted_addresses
device_of-recent now r dev h =
    let (id, (a, among)) = device_with-id r.announce (sorted_addresses now r) dev h in
    let there = mem-perm (sort_by-perm (by_key_down address_score) _) among in
    let (x, kept, same) =
      Memᴰ.of_map (λ entry. entry.1) (filter (is_recent now) r.addresses) there in
    let (here, test) = mem-filter (is_recent now) r.addresses kept in (id, (x, here, test))

device_of_recent_peer :
    (now : ℤ) (r : PeerRecord)
    → any (is_recent now) r.addresses ≡ true
    → (dev : OnlineDevice) × (device_of (without_old now r) ≡ some dev)
      × (dev.device_id ≡ r.announce.device_id)
unfolding device_of sorted_addresses
device_of_recent_peer now r h =
    let (x, here, test) = any-mem (is_recent now) r.addresses h in
    let kept = mem-filter_of_mem (is_recent now) here test in
    let among : Memᴰ x.1 (sorted_addresses now r) =
      mem-perm (Permᴰ.symm (sort_by-perm (by_key_down address_score) _))
        (Memᴰ.map (λ entry. entry.1) kept) in
    let (dev, made) = device_with_of_mem r.announce (sorted_addresses now r) among in
    (dev, made, (device_with-id r.announce (sorted_addresses now r) dev made).0)

module _ (local : String) where
  listed-announced :
      (now : ℤ) (d : String) (es : List Event)
      → any (λ dev. dev.device_id == d) (list_devices now (after local es)).0 ≡ true
      → is_announced local now es d ≡ true
  unfolding list_devices refresh_devices
  listed-announced now d es h =
      let peers = (after local es).peers in
      let (dev, listed, test) = any-mem (λ dev. dev.device_id == d) _ h in
      let there = mem-perm (sort_by-perm (by_key_down last_seen) _) listed in
      let (k, r, kept, made) = mem-devices_of (retain_peers now peers) there in
      let (own, among, same) = mem-retain_peers now peers kept in
      let (id, (x, here, recent)) = device_of-recent now own dev (ap device_of (sym same) ∙ made) in
      let (key, addresses) = All-mem (IsBacked local es) (after-IsBacked local es) among in
      let named : k ≡ d = sym key ∙ sym id ∙ (eq_iff dev.device_id d).0 test in
      let heard_of : is_announced local now es k ≡ true = All-mem _ addresses here now recent in
      rw (sym named) heard_of

  announced-listed :
      (now : ℤ) (d : String) (es : List Event)
      → IsInOrder now es
      → is_announced local now es d ≡ true
      → any (λ dev. dev.device_id == d) (list_devices now (after local es)).0 ≡ true
  unfolding list_devices refresh_devices
  announced-listed now d es order h =
      let peers = (after local es).peers in
      let (r, found, recent) = after-IsKnown local now d es order h in
      let (key, addresses) =
        All-mem (IsBacked local es) (after-IsBacked local es) (mem_of_lookup d r peers found) in
      let (dev, made, id) = device_of_recent_peer now r recent in
      let kept = mem_of_lookup d (without_old now r) (retain_peers now peers) (
        lookup-retain_peers now d r peers found
          (has_addresses-filter local (is_recent now) r.addresses recent)) in
      let listed =
        mem-perm (Permᴰ.symm (sort_by-perm (by_key_down last_seen) _))
          (mem-devices_of_of_mem kept made) in
      any_of_mem (λ dev. dev.device_id == d) listed ((eq_iff dev.device_id d).1 (id ∙ key))

  -- After announcements, looks at the list and ends of the service in the order of the clock, a
  -- device is listed exactly when an announcement of it with a port came from another device than
  -- this one in the last 15 s and the service has not been ended since.
  pub list_devices-is_announced :
      (now : ℤ) (d : String) (es : List Event)
      → IsInOrder now es
      → any (λ dev. dev.device_id == d) (list_devices now (after local es)).0
        ≡ is_announced local now es d
  list_devices-is_announced now d es order =
      Bool-eq _ (is_announced local now es d) (listed-announced now d es)
        (announced-listed now d es order)
