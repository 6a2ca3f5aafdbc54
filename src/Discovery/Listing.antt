-- ===== src/Discovery/Listing.antt =====
-- What happens to the list of devices, and where its entries come from.
use lan_bridge.Base.{
  String, Bool, true, false, ◌&&◌, ◌||◌, not, some, List, [], ◌∷◌, ◌≡◌, refl, sym, ap, ◌∙◌, inl,
  inr, arith, Bool-cases, Option-cases, filter, Memᴰ, ◌==◌, string_eq, eqb,
}
use lan_bridge.Base.Int.{ℤ, ltb_ℤ, leb_ℤ, ◌-ℤ◌}
use lan_bridge.Base.Assoc.{HashMap, lookup}
use mathlib.Core.Option.{some-injective, none-ne-some}
use mathlib.Core.List.Memᴰ
use lan_bridge.Discovery.{
  Announce, OnlineDevice, PeerRecord, DiscoveryState, new_state, mark_disabled, hear,
  refresh_devices, retain_peers, devices_of, device_of, cutoff, is_recent, has_addresses,
  without_old,
}

-- An announcement from an address, a look at the list, or the end of the service.
pub data Event : Type 0 where
  heard : Announce → String → ℤ → Event
  looked : ℤ → Event
  switched_off : Event

module _ (local_device_id : String) where
  unfoldable pub happen : Event → DiscoveryState → DiscoveryState
  happen (heard announce ip now) s = hear local_device_id now announce ip s
  happen (looked now) s = refresh_devices now s
  happen switched_off s = mark_disabled s

  -- The newest event comes first.
  unfoldable pub after : List Event → DiscoveryState
  after [] = new_state
  after (e ∷ es) = happen e (after es)

  abbrev pub is_foreign : Announce → Bool
  is_foreign announce = not (announce.device_id == local_device_id) && not (eqb announce.port 0)

  -- Whether the device was heard in the last 15 s, and the service has not been ended since.
  abbrev pub is_announced : ℤ → List Event → String → Bool
  is_announced now [] d = false
  is_announced now (heard announce ip at_ms ∷ es) d =
      announce.device_id == d && (is_foreign announce && ltb_ℤ (cutoff now) at_ms)
      || is_announced now es d
  is_announced now (looked at_ms ∷ es) d = is_announced now es d
  is_announced now (switched_off ∷ es) d = false

-- The events come in the order of the clock, the last of them not after `now`.
abbrev pub IsInOrder : ℤ → List Event → Type 0
IsInOrder now [] = Unit
IsInOrder now (heard announce ip at_ms ∷ es) = (leb_ℤ at_ms now ≡ true) × IsInOrder at_ms es
IsInOrder now (looked at_ms ∷ es) = (leb_ℤ at_ms now ≡ true) × IsInOrder at_ms es
IsInOrder now (switched_off ∷ es) = IsInOrder now es

pub later-recent :
    (t now x : ℤ) → leb_ℤ t now ≡ true → ltb_ℤ (cutoff now) x ≡ true → ltb_ℤ (cutoff t) x ≡ true
unfolding cutoff ◌-ℤ◌
later-recent t now x h k = ground arith

pub now-recent : (t : ℤ) → ltb_ℤ (cutoff t) t ≡ true
unfolding cutoff ◌-ℤ◌
now-recent t = ground arith

pub before-recent :
    (t u now : ℤ) → leb_ℤ u t ≡ true → ltb_ℤ (cutoff now) t ≡ false → ltb_ℤ (cutoff now) u ≡ false
unfolding cutoff ◌-ℤ◌
before-recent t u now h k = ground arith

pub leb_trans : (a b c : ℤ) → leb_ℤ a b ≡ true → leb_ℤ b c ≡ true → leb_ℤ a c ≡ true
leb_trans a b c h k = ground arith

pub IsInOrder-later :
    (t now : ℤ) (es : List Event) → leb_ℤ t now ≡ true → IsInOrder t es → IsInOrder now es
IsInOrder-later t now [] h k = tt
IsInOrder-later t now (heard a ip u ∷ es) h k = (leb_trans u t now k.0 h, k.1)
IsInOrder-later t now (looked u ∷ es) h k = (leb_trans u t now k.0 h, k.1)
IsInOrder-later t now (switched_off ∷ es) h k = IsInOrder-later t now es h k

-- What a retained peer and a listed device come from.
pub mem-retain_peers :
    (now : ℤ) {k : String} {r : PeerRecord} (peers : HashMap String PeerRecord)
    → Memᴰ (k, r) (retain_peers now peers)
    → (own : PeerRecord) × Memᴰ (k, own) peers × (r ≡ without_old now own)
unfolding retain_peers
mem-retain_peers now [] m = elim m [ ]
mem-retain_peers now {k} {r} ((j, q) ∷ peers) m =
    elim (Bool-cases (has_addresses (filter (is_recent now) q.addresses))) [
      | inl kept ↦ elim (Memᴰ.cases_cons (rw kept at m)) [
        | inl here ↦
            let key : k ≡ j = ap (λ (x : String × PeerRecord). x.0) here in
            (q, rw key (Memᴰ.head refl), ap (λ (x : String × PeerRecord). x.1) here)
        | inr there ↦
            let (own, among, same) = mem-retain_peers now peers there in
            (own, Memᴰ.tail among, same)
      ]
      | inr gone ↦
          let (own, among, same) = mem-retain_peers now peers (rw gone at m) in
          (own, Memᴰ.tail among, same)
    ]

pub lookup-retain_peers :
    (now : ℤ) (k : String) (r : PeerRecord) (peers : HashMap String PeerRecord)
    → lookup k peers ≡ some r
    → has_addresses (filter (is_recent now) r.addresses) ≡ true
    → lookup k (retain_peers now peers) ≡ some (without_old now r)
unfolding retain_peers lookup
lookup-retain_peers now k r [] h kept = absurd (none-ne-some r h)
lookup-retain_peers now k r ((j, q) ∷ peers) h kept = elim (Bool-cases (j == k)) [
  | inl same ↦
      let found : q ≡ r = some-injective q r (rw same at h) in
      rw (rw (sym found) at kept) (rw same (ap (λ x. some (without_old now x)) found))
  | inr differ ↦
      let rest = lookup-retain_peers now k r peers (rw differ at h) kept in
      elim (Bool-cases (has_addresses (filter (is_recent now) q.addresses))) [
        | inl stays ↦ rw stays (rw differ rest)
        | inr gone ↦ rw gone rest
      ]
]

pub mem-devices_of :
    {d : OnlineDevice} (peers : HashMap String PeerRecord)
    → Memᴰ d (devices_of peers)
    → (k : String) × (r : PeerRecord) × Memᴰ (k, r) peers × (device_of r ≡ some d)
unfolding devices_of
mem-devices_of [] m = elim m [ ]
mem-devices_of {d} ((j, q) ∷ peers) m = elim (Option-cases (device_of q)) [
  | inl nothing ↦
      let (k, r, among, made) = mem-devices_of peers (rw (nothing, devices_of) at m) in
      (k, r, Memᴰ.tail among, made)
  | inr (own, made) ↦ elim (Memᴰ.cases_cons (rw (made, devices_of) at m)) [
    | inl here ↦ (j, q, Memᴰ.head refl, made ∙ ap some (sym here))
    | inr there ↦
        let (k, r, among, same) = mem-devices_of peers there in (k, r, Memᴰ.tail among, same)
  ]
]

pub mem-devices_of_of_mem :
    {k : String} {r : PeerRecord} {d : OnlineDevice} {peers : HashMap String PeerRecord}
    → Memᴰ (k, r) peers
    → device_of r ≡ some d
    → Memᴰ d (devices_of peers)
unfolding devices_of
mem-devices_of_of_mem {k} {r} {d} (Memᴰ.head {x = y} {xs} e) h =
    let own : device_of y.1 ≡ some d =
      ap device_of (sym (ap (λ (x : String × PeerRecord). x.1) e)) ∙ h in
    rw (own, devices_of) (Memᴰ.head refl)
mem-devices_of_of_mem {k} {r} {d} (Memᴰ.tail {x = y} {xs} m) h =
    elim (Option-cases (device_of y.1)) [
      | inl nothing ↦ rw (nothing, devices_of) (mem-devices_of_of_mem m h)
      | inr (own, made) ↦ rw (made, devices_of) (Memᴰ.tail (mem-devices_of_of_mem m h))
    ]
