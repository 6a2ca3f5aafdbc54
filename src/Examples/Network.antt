-- ===== src/Examples/Network.antt =====
-- Transfers that the user cancels and resumes, peers that come and go, and devices that announce
-- themselves.
use lan_bridge.Base.{
  ℕ, ◌<>◌, String, true, false, Option, none, some, List, [], ◌∷◌, ◌≡◌, refl, arith, any, ◌==◌,
  string_eq, not, if◌then◌else◌,
}
use lan_bridge.Base.Int.{pos}
use lan_bridge.Base.Text.{contains_char}
use lan_bridge.Base.Decimal.{print_ℕ}
use lan_bridge.Base.Assoc.{insert, lookup}
use lan_bridge.Connection.{
  Shared, TransferProgress, ensure_transfer_not_cancelled, has_active_transfers,
  get_transfer_progress, transfer_key, transfer_of_key,
}
use lan_bridge.Connection.Keys.{transfer_of_key-transfer_key}
use lan_bridge.Connection.Gate.{
  Operation, cancel, cancel_active, defer, resume, operate_all, is_cancelled_by, is_deferred_by,
  ensure_transfer_not_cancelled-refines,
}
use lan_bridge.Connection.Progress.{
  Step, updated, finished, dropped, listed, steps, has_active_transfers-get_transfer_progress,
}
use lan_bridge.Connection.Manager.{
  ConnectionManager, PeerConnection, is_connected, is_manually_disconnected, get_peer,
  register_connection, new_manager,
}
use lan_bridge.Connection.Manager.Events.{
  Event, registered, lost, chosen, handle_all, is_connected_by, is_known_by, is_some, is_left_by,
  manager-refines,
}
use lan_bridge.Discovery.{Announce, new_state, list_devices, mark_running, worker_active, no_report}
use lan_bridge.Discovery.Listing.{heard, looked, switched_off, after, is_announced}
use lan_bridge.Discovery.Online.{list_devices-is_announced}
use lan_bridge.Discovery.Workers.{started, broken, changes, is_nil, worker_active-changes}

abbrev nothing_shared : Shared
nothing_shared = record {
  progress = [];
  cancelled = [];
  deferred = [];
  peer_protocol = [];
  rate_limit = 0;
}

abbrev operations : List Operation
operations =
    resume "t" "b.txt" none
    ∷ cancel "t" "a.txt" "upload"
    ∷ defer "t" "b.txt" "download"
    ∷ cancel_active "t" "a.txt" none
    ∷ []

a_txt_is_plain : contains_char b'\n' "a.txt" ≡ false
unfolding contains_char
a_txt_is_plain = refl

b_txt_is_plain : contains_char b'\n' "b.txt" ≡ false
unfolding contains_char
b_txt_is_plain = refl

t_is_plain : contains_char b'\n' "t" ≡ false
unfolding contains_char
t_is_plain = refl

ensure_transfer_not_cancelled-refines_example :
    ensure_transfer_not_cancelled "t" "a.txt" "upload" (operate_all operations nothing_shared) ≡ (
      if is_cancelled_by operations ("t", "a.txt", "upload")
      then some "transfer cancelled"
      else if is_deferred_by operations ("t", "a.txt", "upload")
      then some "transfer deferred by user"
      else none)
ensure_transfer_not_cancelled-refines_example =
    ensure_transfer_not_cancelled-refines operations nothing_shared "t" "a.txt" "upload" t_is_plain
      a_txt_is_plain
      (
        (t_is_plain, b_txt_is_plain),
        (
          (t_is_plain, a_txt_is_plain),
          ((t_is_plain, b_txt_is_plain), ((t_is_plain, a_txt_is_plain), tt)),
        ),
      )
      refl refl

transfer_of_key-transfer_key_example :
    transfer_of_key (transfer_key "t" "a.txt" "upload") ≡ some ("t", "a.txt", "upload")
transfer_of_key-transfer_key_example =
    transfer_of_key-transfer_key "t" "a.txt" "upload" t_is_plain a_txt_is_plain

abbrev upload : TransferProgress
upload = record {
  transfer_id = "id";
  task_id = "t";
  relative_path = "a.txt";
  direction = "upload";
  bytes_done = 10;
  bytes_total = 100;
  wire_bytes = 10;
  mbps_bits = 0;
  finished = false;
  protocol_version = "v2_binary";
  finished_at_unix_ms = none;
}

abbrev progress_steps : List Step
progress_steps =
    listed (pos 5000) ∷ finished (pos 2500) "id" ∷ dropped "t" "b.txt" none ∷ updated upload ∷ []

has_active_transfers-get_transfer_progress_example :
    has_active_transfers (steps progress_steps nothing_shared)
    ≡ any
        (λ p. not p.finished)
        (get_transfer_progress (pos 4000) (steps progress_steps nothing_shared)).0
has_active_transfers-get_transfer_progress_example =
    has_active_transfers-get_transfer_progress progress_steps nothing_shared (pos 4000) refl

abbrev peer : PeerConnection
peer = record {
  device_id = "d";
  address = "10.0.0.2" <> (":" <> print_ℕ 9527);
  connected = true;
  last_seen_unix_ms = pos 5;
}

abbrev peer_events : List Event
peer_events = chosen "d" false ∷ lost "d" ∷ chosen "e" true ∷ registered peer ∷ []

manager-refines_example :
    (is_connected "d" (handle_all peer_events) ≡ is_connected_by peer_events "d")
    × (is_some (get_peer "d" (handle_all peer_events)) ≡ is_known_by peer_events "d")
    × (is_manually_disconnected "d" (handle_all peer_events) ≡ is_left_by peer_events "d")
manager-refines_example = manager-refines peer_events "d"

abbrev answer : String → ℕ → Option String
answer address port = if address == "10.0.0.2" then none else some "timed out"

abbrev with_peer : ConnectionManager
with_peer = register_connection peer new_manager

peer_is_known : get_peer "d" with_peer ≡ some peer
unfolding get_peer register_connection insert lookup
peer_is_known = refl

abbrev announcement : Announce
announcement = record {
  device_id = "d";
  display_name = "desk";
  public_key = [];
  port = 9527;
  app_version = "1.0.0";
  protocol_version = 2;
  min_protocol_version = 1;
}

list_devices-is_announced_example :
    any
      (λ dev. dev.device_id == "d")
      (list_devices (pos 9000) (
        after "me"
          (looked (pos 8000) ∷ heard announcement "10.0.0.2" (pos 1000) ∷ switched_off ∷ []))).0
    ≡ is_announced "me"
        (pos 9000)
        (looked (pos 8000) ∷ heard announcement "10.0.0.2" (pos 1000) ∷ switched_off ∷ [])
        "d"
list_devices-is_announced_example =
    list_devices-is_announced "me" (pos 9000) "d"
      (looked (pos 8000) ∷ heard announcement "10.0.0.2" (pos 1000) ∷ switched_off ∷ [])
      (refl, (refl, tt))

worker_active-changes_example :
    worker_active
      (mark_running no_report new_state).1
      (changes (started no_report ∷ broken "no socket" ∷ []) (mark_running no_report new_state).0)
    ≡ is_nil (started no_report ∷ broken "no socket" ∷ [])
worker_active-changes_example =
    worker_active-changes new_state no_report (started no_report ∷ broken "no socket" ∷ [])
      (omega arith)
