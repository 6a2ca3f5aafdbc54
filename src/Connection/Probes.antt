-- ===== src/Connection/Probes.antt =====
-- src-tauri/src/transport/connection.rs: the questions that a device asks at an address.
-- `reply host port messages` is the answer to the last of the messages of one connection, or the error
-- of connecting, writing, reading or waiting. `sign device_id nonce` is the signature of
-- `auth_payload` with the key of this device.
use lan_bridge.Base.{
  ℕ, String, ◌<>◌, Bool, true, false, ◌&&◌, ◌||◌, not, Option, none, some, List, [], ◌∷◌, ◌≡◌, refl,
  ◌⊎◌, inl, inr, if◌then◌else◌, ltb, eqb, sym, ◌∙◌, Bool-cases, if_true, if_false,
}
use mathlib.Core.Path.{subst}
use mathlib.Core.Option.{none-ne-some}
use mathlib.Core.Sum.{inl-ne-inr, inr-injective}
use lan_bridge.Base.Text.{is_empty}
use lan_bridge.Connection.Manager.{PublicIdentity}

pub data Question : Type 0 where
  ping identity_request : Question
  auth_hello : String → Question
  auth_proof : String → List ℕ → Question

-- The answers of `SyncMessage` that the questions are read against; `another` stands for the rest.
pub data Reply : Type 0 where
  pong auth_ok another : Reply
  identity_response : PublicIdentity → ℕ → ℕ → Reply
  auth_challenge : List ℕ → Reply
  auth_reject : String → Reply

abbrev pub Network : Type 0
Network = String → ℕ → List Question → String ⊎ Reply

abbrev pub ping_result : String ⊎ Reply → Option String
ping_result (inl error) = some error
ping_result (inr pong) = none
ping_result (inr _) = some "unexpected ping response"

unfoldable pub ping_peer_address : Network → String → ℕ → Option String
ping_peer_address reply address port = ping_result (reply address port (ping ∷ []))

abbrev pub is_compatible : ℕ → ℕ → Bool
is_compatible protocol_version min_protocol_version = not (
    eqb protocol_version 0
    || ltb 2 min_protocol_version
    || ltb protocol_version min_protocol_version)

abbrev has_key : List ℕ → Bool
has_key [] = false
has_key (b ∷ bs) = true

abbrev pub is_filled : PublicIdentity → Bool
is_filled identity = not (is_empty identity.device_id) && has_key identity.public_key

abbrev pub identity_result : String ⊎ Reply → String ⊎ PublicIdentity
identity_result (inl error) = inl error
identity_result (inr (identity_response identity protocol_version min_protocol_version)) =
    if is_filled identity
    then if is_compatible protocol_version min_protocol_version
      then inr identity
      else inl "对端版本不兼容，请升级两端应用"
    else inl "unexpected identity response"
identity_result (inr (auth_reject reason)) = inl reason
identity_result (inr _) = inl "unexpected identity response"

unfoldable pub request_peer_identity_details : Network → String → ℕ → String ⊎ PublicIdentity
request_peer_identity_details reply address port =
    identity_result (reply address port (identity_request ∷ []))

abbrev pub proof_result : String ⊎ Reply → Option String
proof_result (inl error) = some error
proof_result (inr auth_ok) = none
proof_result (inr (auth_reject reason)) = some ("authentication rejected: " <> reason)
proof_result (inr _) = some "unexpected auth proof response"

module _ (reply : Network) (sign : String → List ℕ → List ℕ) (local_device_id : String) where
  abbrev pub prove : String → ℕ → String ⊎ Reply → Option String
  prove address port (inl error) = some error
  prove address port (inr (auth_challenge nonce)) = proof_result (
      reply address port
        (auth_proof local_device_id (sign local_device_id nonce) ∷ auth_hello local_device_id ∷ []))
  prove address port (inr (auth_reject reason)) = some ("authentication rejected: " <> reason)
  prove address port (inr _) = some "unexpected auth response"

  unfoldable pub authenticate_stream : String → ℕ → Option String
  authenticate_stream address port =
      prove address port (reply address port (auth_hello local_device_id ∷ []))

  -- The expected peer is not looked at.
  unfoldable pub authenticate_peer_address : String → ℕ → String → Option String
  unfolding authenticate_stream
  authenticate_peer_address address port expected_peer_device_id = authenticate_stream address port

-- The address lets this device in: it accepts the device's signature of the challenge it has sent.
abbrev pub LetsIn : Network → (String → List ℕ → List ℕ) → String → String → ℕ → Type 0
LetsIn reply sign local address port =
    (nonce : List ℕ) × (reply address port (auth_hello local ∷ []) ≡ inr (auth_challenge nonce))
    × (reply address port (auth_proof local (sign local nonce) ∷ auth_hello local ∷ [])
        ≡ inr auth_ok)

-- The address presents itself: it gives the identity with a device, a key and versions that this
-- device can talk to. It proves none of it.
abbrev pub Presents : Network → String → ℕ → PublicIdentity → Type 0
Presents reply address port identity =
    (protocol_version : ℕ) × (min_protocol_version : ℕ) × (reply address port
        (identity_request ∷ [])
      ≡ inr (identity_response identity protocol_version min_protocol_version))
    × (is_filled identity ≡ true)
    × (is_compatible protocol_version min_protocol_version ≡ true)

pong_of : (answer : String ⊎ Reply) → ping_result answer ≡ none → answer ≡ inr pong
pong_of (inl error) h = absurd (none-ne-some error (sym h))
pong_of (inr pong) h = refl
pong_of (inr auth_ok) h = absurd (none-ne-some _ (sym h))
pong_of (inr another) h = absurd (none-ne-some _ (sym h))
pong_of (inr (identity_response identity v m)) h = absurd (none-ne-some _ (sym h))
pong_of (inr (auth_challenge nonce)) h = absurd (none-ne-some _ (sym h))
pong_of (inr (auth_reject reason)) h = absurd (none-ne-some _ (sym h))

ok_of : (answer : String ⊎ Reply) → proof_result answer ≡ none → answer ≡ inr auth_ok
ok_of (inl error) h = absurd (none-ne-some error (sym h))
ok_of (inr pong) h = absurd (none-ne-some _ (sym h))
ok_of (inr auth_ok) h = refl
ok_of (inr another) h = absurd (none-ne-some _ (sym h))
ok_of (inr (identity_response identity v m)) h = absurd (none-ne-some _ (sym h))
ok_of (inr (auth_challenge nonce)) h = absurd (none-ne-some _ (sym h))
ok_of (inr (auth_reject reason)) h = absurd (none-ne-some _ (sym h))

abbrev the_reply : Reply → String ⊎ Reply
the_reply r = inr r

identity_of :
    (answer : String ⊎ Reply) (identity : PublicIdentity)
    → identity_result answer ≡ inr identity
    → (v : ℕ) × (m : ℕ) × (answer ≡ inr (identity_response identity v m))
      × (is_filled identity ≡ true)
      × (is_compatible v m ≡ true)
identity_of (inl error) identity h = absurd (inl-ne-inr h)
identity_of (inr pong) identity h = absurd (inl-ne-inr h)
identity_of (inr auth_ok) identity h = absurd (inl-ne-inr h)
identity_of (inr another) identity h = absurd (inl-ne-inr h)
identity_of (inr (auth_challenge nonce)) identity h = absurd (inl-ne-inr h)
identity_of (inr (auth_reject reason)) identity h = absurd (inl-ne-inr h)
identity_of (inr (identity_response own v m)) identity h =
    let odd : String ⊎ PublicIdentity = inl "unexpected identity response" in
    let old : String ⊎ PublicIdentity = inl "对端版本不兼容，请升级两端应用" in
    let named : String ⊎ PublicIdentity = inr own in
    let inner = if is_compatible v m then named else old in
    elim (Bool-cases (is_filled own)) [
      | inr bare ↦ absurd (inl-ne-inr (sym (if_false inner odd bare) ∙ h))
      | inl filled ↦
          let k : inner ≡ inr identity = sym (if_true inner odd filled) ∙ h in
          elim (Bool-cases (is_compatible v m)) [
            | inr differs ↦ absurd (inl-ne-inr (sym (if_false named old differs) ∙ k))
            | inl fits ↦
                let same : own ≡ identity =
                  inr-injective own identity (sym (if_true named old fits) ∙ k) in
                subst
                  (λ (x : PublicIdentity).
                    (v' : ℕ) × (m' : ℕ) × (the_reply (identity_response own v m)
                      ≡ (the_reply (identity_response x v' m')))
                    × (is_filled x ≡ true)
                    × (is_compatible v' m' ≡ true))
                  same (v, m, refl, filled, fits)
          ]
    ]

pub ping_peer_address-pong :
    (reply : Network) (address : String) (port : ℕ)
    → ping_peer_address reply address port ≡ none
    → reply address port (ping ∷ []) ≡ inr pong
unfolding ping_peer_address
ping_peer_address-pong reply address port h = pong_of (reply address port (ping ∷ [])) h

pub request_peer_identity_details-Presents :
    (reply : Network) (address : String) (port : ℕ) (identity : PublicIdentity)
    → request_peer_identity_details reply address port ≡ inr identity
    → Presents reply address port identity
unfolding request_peer_identity_details
request_peer_identity_details-Presents reply address port identity h =
    identity_of (reply address port (identity_request ∷ [])) identity h

pub authenticate_peer_address-LetsIn :
    (reply : Network) (sign : String → List ℕ → List ℕ) (local address : String) (port : ℕ)
    (peer : String)
    → authenticate_peer_address reply sign local address port peer ≡ none
    → LetsIn reply sign local address port
unfolding authenticate_peer_address authenticate_stream
authenticate_peer_address-LetsIn reply sign local address port peer h =
    go (reply address port (auth_hello local ∷ [])) refl h
  where
    go :
        (answer : String ⊎ Reply)
        → reply address port (auth_hello local ∷ []) ≡ answer
        → prove reply sign local address port answer ≡ none
        → LetsIn reply sign local address port
    go (inl error) e k = absurd (none-ne-some error (sym k))
    go (inr (auth_challenge nonce)) e k = (nonce, e, ok_of _ k)
    go (inr (auth_reject reason)) e k = absurd (none-ne-some _ (sym k))
    go (inr pong) e k = absurd (none-ne-some _ (sym k))
    go (inr auth_ok) e k = absurd (none-ne-some _ (sym k))
    go (inr another) e k = absurd (none-ne-some _ (sym k))
    go (inr (identity_response identity v m)) e k = absurd (none-ne-some _ (sym k))
