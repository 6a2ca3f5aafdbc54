-- ===== src/Discovery/Announced.antt =====
-- Which devices are listed: the peers behind the list.
use lan_bridge.Base.{
  String, Bool, true, false, Option, none, some, List, [], ◌∷◌, ◌≡◌, refl, inl, inr, arith,
  Bool-cases, All, All-mem, All-of_mem, filter, mem-filter, mem-filter_of_mem, any, any-mem,
  any_of_mem, ◌==◌, string_eq, eqb, beq_self,
}
use lan_bridge.Base.Int.{ℤ, ltb_ℤ, leb_ℤ}
use lan_bridge.Base.Assoc.{HashMap, insert, lookup, lookup-insert, insert-All, mem_of_lookup}
use lan_bridge.Discovery.{
  Announce, OnlineDeviceAddress, PeerRecord, DiscoveryState, mark_disabled, hear, record_peer,
  recorded, record_or_new, refresh_devices, retain_peers, cutoff, is_recent, has_addresses,
  without_old,
}
use lan_bridge.Discovery.Listing.{
  Event, heard, looked, switched_off, happen, after, is_foreign, is_announced, IsInOrder,
  later-recent, before-recent, IsInOrder-later, mem-retain_peers, lookup-retain_peers,
}

module _ (local : String) where
  -- A peer under its own identifier, with addresses that the events account for.
  abbrev pub IsBacked : List Event → String × PeerRecord → Type 0
  IsBacked es (k, r) =
      (r.announce.device_id ≡ k)
      × All
          (λ (x : String × OnlineDeviceAddress).
            (now : ℤ) → is_recent now x ≡ true → is_announced local now es k ≡ true)
          r.addresses

  IsBacked-weaken :
      (e : Event) (es : List Event) (peers : HashMap String PeerRecord)
      → ((now : ℤ) (k : String)
          → is_announced local now es k ≡ true
          → is_announced local now (e ∷ es) k ≡ true)
      → All (IsBacked es) peers
      → All (IsBacked (e ∷ es)) peers
  IsBacked-weaken e es peers grows h = All-of_mem (IsBacked (e ∷ es)) peers (λ (k, r) m.
      let (key, addresses) = All-mem (IsBacked es) h m in
      (
        key,
        All-of_mem _ r.addresses (λ x n now recent. grows now k (All-mem _ addresses n now recent)),
      ))

  retain_peers-IsBacked :
      (es : List Event) (now : ℤ) (peers : HashMap String PeerRecord)
      → All (IsBacked es) peers
      → All (IsBacked es) (retain_peers now peers)
  retain_peers-IsBacked es now peers h =
      All-of_mem (IsBacked es) (retain_peers now peers) (λ (k, r) m.
        let (own, among, same) = mem-retain_peers now peers m in
        let (key, addresses) = All-mem (IsBacked es) h among in
        rw same (
          key,
          All-of_mem _ (filter (is_recent now) own.addresses) (λ x n at_ms recent.
              let (here, test) = mem-filter (is_recent now) own.addresses n in
              All-mem _ addresses here at_ms recent),
        ))

  recorded-IsBacked :
      (es : List Event) (announce : Announce) (ip : String) (t : ℤ) (found : Option PeerRecord)
      → is_foreign local announce ≡ true
      → ((r : PeerRecord) → found ≡ some r → IsBacked es (announce.device_id, r))
      → IsBacked
          (heard announce ip t ∷ es)
          (announce.device_id, recorded t announce ip none (record_or_new announce found))
  recorded-IsBacked es announce ip t none foreign h =
      (refl, insert-All _ ip _ [] (λ now recent. ground (arith, beq_self announce.device_id)) tt)
  recorded-IsBacked es announce ip t (some r) foreign h =
      let (key, addresses) = h r refl in
      (
        refl,
        insert-All _ ip _ r.addresses (λ now recent. ground (arith, beq_self announce.device_id))
            (All-of_mem _ r.addresses
              (λ x n now recent. let old = All-mem _ addresses n now recent in ground arith)),
      )

  record_peer-IsBacked :
      (es : List Event) (announce : Announce) (ip : String) (t : ℤ) (s : DiscoveryState)
      → is_foreign local announce ≡ true
      → All (IsBacked es) s.peers
      → All (IsBacked (heard announce ip t ∷ es)) (record_peer t announce ip none s).peers
  unfolding record_peer refresh_devices
  record_peer-IsBacked es announce ip t s foreign h =
      let valid : eqb announce.port 0 ≡ false = ground arith in
      let weaker = IsBacked-weaken (heard announce ip t) es s.peers (λ now k old. ground arith) h in
      rw valid (
        retain_peers-IsBacked (heard announce ip t ∷ es) t _ (
          insert-All (IsBacked (heard announce ip t ∷ es)) announce.device_id _ s.peers
            (recorded-IsBacked es announce ip t (lookup announce.device_id s.peers) foreign
              (λ r found.
                All-mem (IsBacked es) h (mem_of_lookup announce.device_id r s.peers found)))
            weaker))

  pub after-IsBacked : (es : List Event) → All (IsBacked es) (after local es).peers
  unfolding after happen hear mark_disabled refresh_devices record_peer
  after-IsBacked [] = tt
  after-IsBacked (heard announce ip t ∷ es) =
      let weaker =
        IsBacked-weaken (heard announce ip t) es (after local es).peers (λ now k old. ground arith)
          (after-IsBacked es) in
      elim (Bool-cases (announce.device_id == local)) [
        | inl own ↦ rw own weaker
        | inr other ↦ elim (Bool-cases (eqb announce.port 0)) [
          | inl invalid ↦ rw (other, invalid, record_peer) weaker
          | inr valid ↦
              let foreign : is_foreign local announce ≡ true = rw (other, valid) refl in
              rw other
                (record_peer-IsBacked es announce ip t (after local es) foreign (after-IsBacked es))
        ]
      ]
  after-IsBacked (looked t ∷ es) =
      retain_peers-IsBacked (looked t ∷ es) t (after local es).peers (
        IsBacked-weaken (looked t) es (after local es).peers (λ now k old. old) (after-IsBacked es))
  after-IsBacked (switched_off ∷ es) = tt

  pub has_addresses-filter :
      (p : String × OnlineDeviceAddress → Bool) (xs : HashMap String OnlineDeviceAddress)
      → any p xs ≡ true
      → has_addresses (filter p xs) ≡ true
  unfolding filter
  has_addresses-filter p [] h = cc
  has_addresses-filter p (x ∷ xs) h = elim (Bool-cases (p x)) [
    | inl holds ↦ rw holds refl
    | inr fails ↦ rw fails (has_addresses-filter p xs (rw fails at h))
  ]

  any-insert :
      (now : ℤ) (ip : String) (a : OnlineDeviceAddress) (xs : HashMap String OnlineDeviceAddress)
      → is_recent now (ip, a) ≡ true
      → any (is_recent now) (insert ip a xs) ≡ true
  unfolding insert
  any-insert now ip a [] h = ground arith
  any-insert now ip a ((j, b) ∷ xs) h = elim (Bool-cases (j == ip)) [
    | inl same ↦ rw same (ground arith)
    | inr differ ↦ rw differ (ground (arith, any-insert now ip a xs h))
  ]

  not_before :
      (t now : ℤ) (d : String) (es : List Event)
      → IsInOrder t es
      → ltb_ℤ (cutoff now) t ≡ false
      → is_announced local now es d ≡ false
  not_before t now d [] h k = refl
  not_before t now d (heard announce ip u ∷ es) h k =
      let old = before-recent t u now h.0 k in ground (arith, not_before u now d es h.1 old)
  not_before t now d (looked u ∷ es) h k = not_before u now d es h.1 (before-recent t u now h.0 k)
  not_before t now d (switched_off ∷ es) h k = refl

  -- A peer with a recent address.
  abbrev pub IsKnown : ℤ → String → HashMap String PeerRecord → Type 0
  IsKnown now d peers =
      (r : PeerRecord) × (lookup d peers ≡ some r) × (any (is_recent now) r.addresses ≡ true)

  retain_peers-IsKnown :
      (t now : ℤ) (d : String) (peers : HashMap String PeerRecord)
      → leb_ℤ t now ≡ true
      → IsKnown now d peers
      → IsKnown now d (retain_peers t peers)
  retain_peers-IsKnown t now d peers h (r, found, recent) =
      let ((ip, a), here, test) = any-mem (is_recent now) r.addresses recent in
      let among =
        mem-filter_of_mem (is_recent t) here (later-recent t now a.last_seen_unix_ms h test) in
      let kept : any (is_recent now) (filter (is_recent t) r.addresses) ≡ true =
        any_of_mem (is_recent now) among test in
      let stays : any (is_recent t) r.addresses ≡ true =
        any_of_mem (is_recent t) here (later-recent t now a.last_seen_unix_ms h test) in
      (
        without_old t r,
        lookup-retain_peers t d r peers found
            (has_addresses-filter (is_recent t) r.addresses stays),
        kept,
      )

  record_peer-IsKnown :
      (t now : ℤ) (announce : Announce) (ip d : String) (s : DiscoveryState)
      → leb_ℤ t now ≡ true
      → eqb announce.port 0 ≡ false
      → ((announce.device_id == d) ≡ false → IsKnown now d s.peers)
      → ((announce.device_id == d) ≡ true → ltb_ℤ (cutoff now) t ≡ true)
      → IsKnown now d (record_peer t announce ip none s).peers
  unfolding record_peer refresh_devices
  record_peer-IsKnown t now announce ip d s h valid others own =
      let id = announce.device_id in
      let new = recorded t announce ip none (record_or_new announce (lookup id s.peers)) in
      rw valid (
        retain_peers-IsKnown t now d (insert id new s.peers) h (elim (Bool-cases (id == d)) [
          | inl same ↦ (
            new,
            rw (lookup-insert id d new s.peers) (rw same refl),
            any-insert now ip _ (record_or_new announce (lookup id s.peers)).addresses (own same),
          )
          | inr differ ↦
              let (r, found, recent) = others differ in
              (r, rw (lookup-insert id d new s.peers) (rw differ found), recent)
        ]))

  pub after-IsKnown :
      (now : ℤ) (d : String) (es : List Event)
      → IsInOrder now es
      → is_announced local now es d ≡ true
      → IsKnown now d (after local es).peers
  unfolding after happen hear record_peer refresh_devices
  after-IsKnown now d [] h k = cc
  after-IsKnown now d (heard announce ip t ∷ es) h k =
      let order = IsInOrder-later t now es h.0 h.1 in
      let ih : is_announced local now es d ≡ true → IsKnown now d (after local es).peers =
        λ old. after-IsKnown now d es order old in
      elim (Bool-cases (announce.device_id == local)) [
        | inl own ↦ let old : is_announced local now es d ≡ true = ground arith in rw own (ih old)
        | inr other ↦ elim (Bool-cases (eqb announce.port 0)) [
          | inl invalid ↦
              let old : is_announced local now es d ≡ true = ground arith in
              rw (other, invalid) (ih old)
          | inr valid ↦ rw other (
              record_peer-IsKnown t now announce ip d (after local es) h.0 valid
                (λ differ. ih (ground arith))
                (λ same. elim (Bool-cases (ltb_ℤ (cutoff now) t)) [
                  | inl recent ↦ recent
                  | inr old ↦ ground (arith, not_before t now d es h.1 old)
                ]))
        ]
      ]
  after-IsKnown now d (looked t ∷ es) h k =
      retain_peers-IsKnown t now d (after local es).peers h.0
        (after-IsKnown now d es (IsInOrder-later t now es h.0 h.1) k)
  after-IsKnown now d (switched_off ∷ es) h k = cc
