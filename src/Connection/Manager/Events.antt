-- ===== src/Connection/Manager/Events.antt =====
-- The connection manager after any sequence of events.
use lan_bridge.Base.{
  String, Bool, true, false, ◌||◌, ◌&&◌, not, Option, none, some, List, [], ◌∷◌, ◌≡◌, refl, ap, ◌∙◌,
  inl, inr, ◌==◌, string_eq, eq_iff, if◌then◌else◌, arith, Bool-cases,
}
use lan_bridge.Base.Int.{ℤ}
use lan_bridge.Base.Assoc.{HashMap, lookup, lookup-insert}
use lan_bridge.Base.Sets.{contains-add, contains-discard}
use lan_bridge.Connection.{change_at}
use lan_bridge.Connection.Manager.{
  ConnectionManager, PeerConnection, PublicIdentity, new_manager, pin_peer, register_connection,
  disconnect, set_manual_disconnect_state, manual_disconnect, clear_manual_disconnect,
  mark_connected, get_peer, is_connected, is_manually_disconnected, flag_of, seen_at,
}

pub data Event : Type 0 where
  pinned : PublicIdentity → Event
  registered : PeerConnection → Event
  lost : String → Event
  chosen : String → Bool → Event
  answered : ℤ → String → Event

unfoldable pub handle : Event → ConnectionManager → ConnectionManager
handle (pinned identity) m = pin_peer identity m
handle (registered conn) m = register_connection conn m
handle (lost device_id) m = disconnect device_id m
handle (chosen device_id disconnected) m = set_manual_disconnect_state device_id disconnected m
handle (answered now device_id) m = mark_connected now device_id m

-- The newest event comes first.
unfoldable pub handle_all : List Event → ConnectionManager
unfolding handle
handle_all [] = new_manager
handle_all (e ∷ es) = handle e (handle_all es)

-- What the events say of a peer.
abbrev pub is_known_by : List Event → String → Bool
is_known_by [] device_id = false
is_known_by (registered conn ∷ es) device_id =
    conn.device_id == device_id || is_known_by es device_id
is_known_by (_ ∷ es) device_id = is_known_by es device_id

abbrev pub is_connected_by : List Event → String → Bool
is_connected_by [] device_id = false
is_connected_by (pinned identity ∷ es) device_id = is_connected_by es device_id
is_connected_by (registered conn ∷ es) device_id =
    if conn.device_id == device_id then conn.connected else is_connected_by es device_id
is_connected_by (lost d ∷ es) device_id = not (d == device_id) && is_connected_by es device_id
is_connected_by (chosen d disconnected ∷ es) device_id =
    not (disconnected && d == device_id) && is_connected_by es device_id
is_connected_by (answered now d ∷ es) device_id =
    if d == device_id then is_known_by es device_id else is_connected_by es device_id

abbrev pub is_left_by : List Event → String → Bool
is_left_by [] device_id = false
is_left_by (chosen d disconnected ∷ es) device_id =
    if d == device_id then disconnected else is_left_by es device_id
is_left_by (_ ∷ es) device_id = is_left_by es device_id

abbrev pub is_some {ℓ} : {A : Type ℓ} → Option A → Bool
is_some none = false
is_some (some a) = true

pub lookup-change_at {ℓ} :
    {V : Type ℓ} (change : V → V) (key own : String) (entries : HashMap String V)
    → lookup own (change_at change key entries) ≡ (elim (lookup own entries) [
      | none ↦ none
      | some v ↦ some (if key == own then change v else v)
    ])
unfolding lookup
lookup-change_at change key own [] = refl
lookup-change_at change key own ((k, v) ∷ entries) = elim (Bool-cases (k == own)) [
  | inl same ↦ elim (Bool-cases (k == key)) [
    | inl hit ↦
        let again : (key == own) ≡ true =
          ground (arith, eq_iff k own, eq_iff k key, eq_iff key own) in
        rw (hit, same, again) refl
    | inr miss ↦
        let again : (key == own) ≡ false =
          ground (arith, eq_iff k own, eq_iff k key, eq_iff key own) in
        rw (miss, same, again) refl
  ]
  | inr differ ↦ elim (Bool-cases (k == key)) [
    | inl hit ↦ rw (hit, differ) (lookup-change_at change key own entries)
    | inr miss ↦ rw (miss, differ) (lookup-change_at change key own entries)
  ]
]

flag-change_at :
    (f : PeerConnection → PeerConnection) (b : Bool) (key own : String)
    (entries : HashMap String PeerConnection)
    → ((p : PeerConnection) → (f p).connected ≡ b)
    → flag_of (lookup own (change_at f key entries))
      ≡ (if key == own then b && is_some (lookup own entries) else flag_of (lookup own entries))
flag-change_at f b key own entries h =
    ap flag_of (lookup-change_at f key own entries) ∙ go (lookup own entries)
  where
    go :
        (found : Option PeerConnection)
        → flag_of (elim found [ none ↦ none | some v ↦ some (if key == own then f v else v) ])
          ≡ (if key == own then b && is_some found else flag_of found)
    go none = ground arith
    go (some p) = ground (arith, h p)

known-change_at :
    (f : PeerConnection → PeerConnection) (key own : String)
    (entries : HashMap String PeerConnection)
    → is_some (lookup own (change_at f key entries)) ≡ is_some (lookup own entries)
known-change_at f key own entries =
    ap is_some (lookup-change_at f key own entries) ∙ go (lookup own entries)
  where
    go :
        (found : Option PeerConnection)
        → is_some (elim found [ none ↦ none | some v ↦ some (if key == own then f v else v) ])
          ≡ is_some found
    go none = refl
    go (some p) = refl

handle_all-known :
    (es : List Event) (d : String) → is_some (lookup d (handle_all es).peers) ≡ is_known_by es d
unfolding handle_all handle pin_peer register_connection disconnect set_manual_disconnect_state
    manual_disconnect clear_manual_disconnect mark_connected lookup
handle_all-known [] d = refl
handle_all-known (pinned i ∷ es) d = handle_all-known es d
handle_all-known (registered c ∷ es) d =
    rw (lookup-insert c.device_id d c (handle_all es).peers) (elim (Bool-cases (c.device_id == d)) [
      | inl same ↦ rw same refl
      | inr differ ↦ rw differ (handle_all-known es d)
    ])
handle_all-known (lost x ∷ es) d =
    known-change_at (λ p. record p { connected = false }) x d (handle_all es).peers
    ∙ handle_all-known es d
handle_all-known (chosen x true ∷ es) d =
    known-change_at (λ p. record p { connected = false }) x d (handle_all es).peers
    ∙ handle_all-known es d
handle_all-known (chosen x false ∷ es) d = handle_all-known es d
handle_all-known (answered now x ∷ es) d =
    known-change_at (seen_at now) x d (handle_all es).peers ∙ handle_all-known es d

handle_all-left :
    (es : List Event) (d : String) → is_manually_disconnected d (handle_all es) ≡ is_left_by es d
unfolding handle_all handle pin_peer register_connection disconnect set_manual_disconnect_state
    manual_disconnect clear_manual_disconnect mark_connected is_manually_disconnected
handle_all-left [] d = refl
handle_all-left (pinned i ∷ es) d = handle_all-left es d
handle_all-left (registered c ∷ es) d = handle_all-left es d
handle_all-left (lost x ∷ es) d = handle_all-left es d
handle_all-left (chosen x true ∷ es) d =
    ground (arith, contains-add x d (handle_all es).manually_disconnected, handle_all-left es d)
handle_all-left (chosen x false ∷ es) d =
    ground (arith, contains-discard x d (handle_all es).manually_disconnected, handle_all-left es d)
handle_all-left (answered now x ∷ es) d = handle_all-left es d

handle_all-connected :
    (es : List Event) (d : String) → is_connected d (handle_all es) ≡ is_connected_by es d
unfolding handle_all handle pin_peer register_connection disconnect set_manual_disconnect_state
    manual_disconnect clear_manual_disconnect mark_connected is_connected lookup
handle_all-connected [] d = refl
handle_all-connected (pinned i ∷ es) d = handle_all-connected es d
handle_all-connected (registered c ∷ es) d =
    rw (lookup-insert c.device_id d c (handle_all es).peers) (elim (Bool-cases (c.device_id == d)) [
      | inl same ↦ rw same refl
      | inr differ ↦ rw differ (handle_all-connected es d)
    ])
handle_all-connected (lost x ∷ es) d = ground (
  arith,
  handle_all-connected es d,
  flag-change_at (λ p. record p { connected = false }) false x d (handle_all es).peers (λ p. refl),
)
handle_all-connected (chosen x true ∷ es) d = ground (
  arith,
  handle_all-connected es d,
  flag-change_at (λ p. record p { connected = false }) false x d (handle_all es).peers (λ p. refl),
)
handle_all-connected (chosen x false ∷ es) d = ground (arith, handle_all-connected es d)
handle_all-connected (answered now x ∷ es) d = ground (
  arith,
  handle_all-connected es d,
  handle_all-known es d,
  flag-change_at (seen_at now) true x d (handle_all es).peers (λ p. refl),
)

-- After any events, a peer is connected, known and left by the user exactly as the events say: the
-- last registration, loss, answer or choice to leave settles whether it is connected, where an answer
-- of an unregistered peer leaves it unconnected, a peer is known once it has been registered,
-- and the last choice settles whether it is left.
pub manager-refines :
    (es : List Event) (d : String)
    → (is_connected d (handle_all es) ≡ is_connected_by es d)
      × (is_some (get_peer d (handle_all es)) ≡ is_known_by es d)
      × (is_manually_disconnected d (handle_all es) ≡ is_left_by es d)
unfolding get_peer
manager-refines es d = (handle_all-connected es d, handle_all-known es d, handle_all-left es d)
