-- ===== src/Discovery/Devices.antt =====
-- What is listed of each device.
use lan_bridge.Base.{
  String, true, some, List, [], ◌∷◌, ◌≡◌, refl, sym, inl, inr, arith, Bool-cases, Option-cases, All,
  All-mem, All-of_mem, filter, mem-filter, Memᴰ,
}
use lan_bridge.Base.Int.{ℤ, ltb_ℤ, ◌≤ℤ◌}
use lan_bridge.Base.Assoc.{HashMap}
use lan_bridge.Base.Sort.{
  sort_by, by_key_down, IsSortedDown, sort_by-IsSortedDown, sort_by-perm, mem-perm,
}
use mathlib.Core.Option.{some-injective, none-ne-some}
use mathlib.Core.List.Memᴰ
use lan_bridge.Discovery.{
  Announce, OnlineDevice, OnlineDeviceAddress, PeerRecord, DiscoveryState, list_devices,
  refresh_devices, retain_peers, devices_of, device_of, device_with, address_score, last_seen,
  latest, values, cutoff, is_recent, has_addresses, without_old,
}

abbrev pub IsRecent : ℤ → OnlineDeviceAddress → Type 0
IsRecent now a = ltb_ℤ (cutoff now) a.last_seen_unix_ms ≡ true

-- The device has recent addresses only, and its own is the first of them, which none exceeds in its
-- score. It was seen when the last of them was.
abbrev pub IsReachable : ℤ → OnlineDevice → Type 0
IsReachable now d =
    (preferred : OnlineDeviceAddress) × (rest : List OnlineDeviceAddress) × (d.addresses
      ≡ preferred ∷ rest)
    × (d.ip ≡ preferred.ip)
    × (d.port ≡ preferred.port)
    × All (λ a. address_score a ≤ℤ address_score preferred) rest
    × All (IsRecent now) d.addresses
    × All (λ a. a.last_seen_unix_ms ≤ℤ d.last_seen_unix_ms) d.addresses

latest-All :
    (time : ℤ) (addresses : List OnlineDeviceAddress)
    → All (λ a. a.last_seen_unix_ms ≤ℤ latest time addresses) addresses
latest-All time [] = tt
latest-All time (a ∷ addresses) = (
  ground arith,
  All-of_mem (λ b. b.last_seen_unix_ms ≤ℤ latest time (a ∷ addresses)) addresses
      (λ b m.
        let below : b.last_seen_unix_ms ≤ℤ latest time addresses =
          All-mem (λ c. c.last_seen_unix_ms ≤ℤ latest time addresses) (latest-All time addresses)
            m in
        ground arith),
)

device_with-IsReachable :
    (now : ℤ) (announce : Announce) (addresses : List OnlineDeviceAddress) (d : OnlineDevice)
    → IsSortedDown address_score addresses
    → All (IsRecent now) addresses
    → device_with announce addresses ≡ some d
    → IsReachable now d
device_with-IsReachable now announce [] d h k e = absurd (none-ne-some d e)
device_with-IsReachable now announce (p ∷ rest) d h k e =
    let same = some-injective _ d e in
    rw (sym same) (p, rest, refl, refl, refl, h.0, k, latest-All p.last_seen_unix_ms (p ∷ rest))

sorted-All :
    (now : ℤ) (addresses : HashMap String OnlineDeviceAddress)
    → All
        (IsRecent now)
        (sort_by (by_key_down address_score) (values (filter (is_recent now) addresses)))
sorted-All now addresses = All-of_mem (IsRecent now) _ (λ a m.
    let among : Memᴰ a (values (filter (is_recent now) addresses)) =
      mem-perm (sort_by-perm (by_key_down address_score) _) m in
    let ((ip, b), there, same) =
      Memᴰ.of_map (λ entry. entry.1) (filter (is_recent now) addresses) among in
    let (here, test) = mem-filter (is_recent now) addresses there in rw (sym same) test)

devices_of-IsReachable :
    (now : ℤ) (peers : HashMap String PeerRecord)
    → All (IsReachable now) (devices_of (retain_peers now peers))
unfolding devices_of retain_peers device_of
devices_of-IsReachable now [] = tt
devices_of-IsReachable now ((id, r) ∷ peers) =
    elim (Bool-cases (has_addresses (filter (is_recent now) r.addresses))) [
      | inr gone ↦ rw gone (devices_of-IsReachable now peers)
      | inl kept ↦ rw kept (elim (Option-cases (device_of (without_old now r))) [
        | inl nothing ↦ rw (nothing, devices_of) (devices_of-IsReachable now peers)
        | inr (d, made) ↦
            let good : IsReachable now d =
              device_with-IsReachable now r.announce _ d
                (sort_by-IsSortedDown address_score (values (filter (is_recent now) r.addresses)))
                (sorted-All now r.addresses) made in
            rw (made, devices_of) (good, devices_of-IsReachable now peers)
      ])
    ]

-- Whatever was heard before, the list has the devices seen last first, and each has only addresses
-- heard of in the last 15 s, of which the one to connect to comes first and has the best score.
pub list_devices-IsReachable :
    (now : ℤ) (s : DiscoveryState)
    → All (IsReachable now) (list_devices now s).0 × IsSortedDown last_seen (list_devices now s).0
unfolding list_devices refresh_devices
list_devices-IsReachable now s =
    let devices = devices_of (retain_peers now s.peers) in
    (
      All-of_mem (IsReachable now) (sort_by (by_key_down last_seen) devices) (λ d m.
          All-mem (IsReachable now) (devices_of-IsReachable now s.peers)
            (mem-perm (sort_by-perm (by_key_down last_seen) devices) m)),
      sort_by-IsSortedDown last_seen devices,
    )
