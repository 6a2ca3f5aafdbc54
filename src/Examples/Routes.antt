-- ===== src/Examples/Routes.antt =====
-- The paths of a return, the roots of tasks, the addresses of a peer and a deletion.
use lan_bridge.Base.{
  false, ℕ, String, true, Option, none, some, List, [], ◌∷◌, ◌≡◌, ◌≢◌, ◌⊎◌, inr, refl,
  if◌then◌else◌, any, Memᴰ, ◌==◌, string_eq,
}
use lan_bridge.Base.Int.{pos}
use lan_bridge.Actions.Selection.{
  covers, IsExecutable, expand_selected_return_paths, expand_selected_return_paths_lem,
}
use lan_bridge.Actions.Roots.{
  AreApart, validate_no_overlapping_task_roots, validate_no_overlapping_task_roots-none_iff,
}
use lan_bridge.Actions.Candidates.{
  PeerAddressCandidate, PeerProbeFailure, candidate_address, verify_peer_address, refresh_from,
  refresh_peer_reachable_address,
}
use lan_bridge.Actions.Reached.{AnswersAs, refresh_peer_reachable_address-AnswersAs}
use lan_bridge.Connection.Probes.{
  Network, Question, ping, identity_request, auth_hello, auth_proof, Reply, pong, auth_ok, another,
  identity_response, auth_challenge, ping_peer_address, request_peer_identity_details,
  authenticate_peer_address, authenticate_stream,
}
use lan_bridge.Base.{◌↔◌, All, inl}
use lan_bridge.Connection.Manager.{PublicIdentity, PeerConnection, get_peer, new_manager}
use lan_bridge.Base.Sets.{contains}
use lan_bridge.Examples.Data.{sync_task, device}
use lan_bridge.Planner.{PlannedAction}
use lan_bridge.Model.{file, verified}
use lan_bridge.Actions.{DeleteExpectation, baseline_looks_like_directory}
use lan_bridge.Actions.Remote.{
  remote_delete_safety_error, delete_expectation_from_action, remote_matches_baseline_for_delete,
}
use lan_bridge.Persist.Secondary.{FileMetadata}
use lan_bridge.Server.Deletions.{
  validate_sent, kind_of, IsUnchanged, validate_delete_expectation-remote_delete_safety_error,
}
use lan_bridge.Examples.Data.{remote, baseline, deletion}
use lan_bridge.Examples.Outcomes.{returned}

expand_selected_return_paths_lem_example :
    ((path : String)
      → contains path (expand_selected_return_paths ("d" ∷ "c" ∷ []) returned)
        ≡ any (covers returned path) ("d" ∷ "c" ∷ []))
    × IsExecutable returned (expand_selected_return_paths ("d" ∷ "c" ∷ []) returned)
expand_selected_return_paths_lem_example =
    expand_selected_return_paths_lem ("d" ∷ "c" ∷ []) returned

some_parts : (first : String) (rest : List String) → first ∷ rest ≢ []
some_parts first rest h = cc

abbrev resolved : String → List String
resolved path = if path == "/photos" then "photos" ∷ [] else "photos" ∷ "2024" ∷ []

validate_no_overlapping_task_roots-none_iff_example :
    (validate_no_overlapping_task_roots resolved (sync_task ∷ []) "/photos/2024" ≡ none)
    ↔ All (λ t. AreApart (resolved t.local_path) (resolved "/photos/2024")) (sync_task ∷ [])
validate_no_overlapping_task_roots-none_iff_example =
    validate_no_overlapping_task_roots-none_iff resolved (sync_task ∷ []) "/photos/2024"
      (some_parts "photos" ("2024" ∷ [])) (some_parts "photos" [], tt)

abbrev own_identity : PublicIdentity
own_identity = record { device_id = "laptop"; public_key = 1 ∷ 2 ∷ [] }

abbrev stranger : PublicIdentity
stranger = record { device_id = "laptop"; public_key = 3 ∷ [] }

abbrev no_signature : String → List ℕ → List ℕ
no_signature device_id nonce = nonce

abbrev identity_of_host : String → PublicIdentity
identity_of_host host = if host == "10.0.0.2" then stranger else own_identity

abbrev answer_of : String → List Question → String ⊎ Reply
answer_of host (ping ∷ []) = inr pong
answer_of host (identity_request ∷ []) = inr (identity_response (identity_of_host host) 2 1)
answer_of host (auth_hello device_id ∷ []) = inr (auth_challenge (7 ∷ []))
answer_of host (auth_proof device_id signature ∷ earlier) = inr auth_ok
answer_of host _ = inr another

abbrev network : Network
network host port messages = if host == "10.0.0.1" then inl "timed out" else answer_of host messages

abbrev as_stage : String → String → String → PeerProbeFailure
as_stage stage host detail = record { code = stage; detail = detail }

abbrev stored : String → Option String
stored address = none

abbrev at_host : String → PeerAddressCandidate
at_host host = record { host = host; port = 9527 }

-- The first host does not answer, the second one has another key.
abbrev hosts : List PeerAddressCandidate
hosts = at_host "10.0.0.1" ∷ at_host "10.0.0.2" ∷ at_host "10.0.0.3" ∷ []

abbrev reached : PeerConnection
reached = record {
  device_id = "laptop";
  address = candidate_address (at_host "10.0.0.3");
  connected = true;
  last_seen_unix_ms = pos 50;
}

third_host_is_reached :
    (refresh_peer_reachable_address network no_signature "pc" as_stage "laptop"
      (some device)
      (pos 50)
      stored
      hosts
      new_manager).1
    ≡ inr reached
unfolding refresh_peer_reachable_address refresh_from verify_peer_address ping_peer_address
    request_peer_identity_details authenticate_peer_address authenticate_stream
third_host_is_reached = refl

refresh_peer_reachable_address-AnswersAs_example :
    (c : PeerAddressCandidate) × Memᴰ c hosts
    × AnswersAs network no_signature "pc" as_stage "laptop" (some device) c
    × (reached.address ≡ candidate_address c)
    × (get_peer "laptop"
          (refresh_peer_reachable_address network no_signature "pc" as_stage "laptop"
            (some device)
            (pos 50)
            stored
            hosts
            new_manager).0
        ≡ some reached)
    × (reached.connected ≡ true)
refresh_peer_reachable_address-AnswersAs_example =
    refresh_peer_reachable_address-AnswersAs network no_signature "pc" as_stage "laptop"
      (some device) (pos 50) stored hosts new_manager reached third_host_is_reached

abbrev a_deletion : PlannedAction
a_deletion = deletion (baseline "a.txt" "h1")

a_deletion_is_safe : remote_delete_safety_error a_deletion (some (remote "a.txt" "h1")) ≡ none
unfolding remote_delete_safety_error remote_matches_baseline_for_delete
    baseline_looks_like_directory
a_deletion_is_safe = refl

abbrev hash_there : String ⊎ String
hash_there = inr "h1"

abbrev a_file : String ⊎ FileMetadata
a_file = inr (record { is_dir = false; len = 3; modified_unix_ms = none })

validate_delete_expectation-remote_delete_safety_error_example :
    (e : DeleteExpectation) × (delete_expectation_from_action a_deletion ≡ some e)
    × (validate_sent e a_file hash_there ≡ none
        → (m : FileMetadata) × (a_file ≡ inr m)
          × (kind_of m ≡ file)
          × (e.expected_kind ≡ file → IsUnchanged e m hash_there)
          × (e.expected_kind ≡ file
              → e.expected_hash_status ≡ verified
              → verified ≡ verified
              → (h : String) × (some "h1" ≡ some h) × (hash_there ≡ inr h)))
validate_delete_expectation-remote_delete_safety_error_example =
    validate_delete_expectation-remote_delete_safety_error a_deletion (remote "a.txt" "h1") a_file
      hash_there a_deletion_is_safe
