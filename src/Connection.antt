-- ===== src/Connection.antt =====
-- src-tauri/src/transport/connection.rs: the tables that every connection of the process shares, which
-- are the transfers in progress, those the user has cancelled or put off, and the negotiated
-- protocols. An `f64` is its bits, and the clock is an argument.
pub mod Keys
pub mod Gate
pub mod Progress
pub mod Manager
pub mod Addresses
pub mod Probes
use lan_bridge.Base.{
  ℕ, ◌+◌, leb, String, Bool, true, false, ◌||◌, ◌&&◌, not, Option, none, some, List, [], ◌∷◌, ◌<>◌,
  ◌==◌, string_eq, filter, any, if◌then◌else◌, map,
}
use lan_bridge.Base.Int.{ℤ, pos, ◌-ℤ◌, leb_ℤ}
use lan_bridge.Base.Assoc.{HashMap, insert, lookup, erase}
use lan_bridge.Base.Text.{splitn}
use lan_bridge.Base.Sets.{HashSet, add, discard, contains}

pub record TransferProgress : Type 0 where
  pub transfer_id : String
  pub task_id : String
  pub relative_path : String
  pub direction : String
  pub bytes_done : ℕ
  pub bytes_total : ℕ
  pub wire_bytes : ℕ
  pub mbps_bits : ℕ
  pub finished : Bool
  pub protocol_version : String
  pub finished_at_unix_ms : Option ℤ

pub record Shared : Type 0 where
  pub progress : HashMap String TransferProgress
  pub cancelled : HashSet String
  pub deferred : HashSet String
  pub peer_protocol : HashMap String ℕ
  pub rate_limit : ℕ

abbrev pub transfer_directions : List String
transfer_directions = "upload" ∷ "download" ∷ "receive" ∷ "serve" ∷ []

unfoldable pub transfer_key : String → String → String → String
transfer_key task_id relative_path direction =
    task_id <> ("\n" <> (relative_path <> ("\n" <> direction)))

abbrev pub direction_matches : Option String → String → Bool
direction_matches none own = true
direction_matches (some direction) own = own == direction

unfoldable pub transfer_matches : TransferProgress → String → String → Option String → Bool
transfer_matches progress task_id relative_path direction =
    progress.task_id == task_id
    && (progress.relative_path == relative_path && direction_matches direction progress.direction)

-- The directions that an optional direction stands for.
abbrev pub directions_of : Option String → List String
directions_of none = transfer_directions
directions_of (some direction) = direction ∷ []

abbrev pub add_all : String → String → List String → HashSet String → HashSet String
add_all task_id path [] set = set
add_all task_id path (d ∷ ds) set = add_all task_id path ds (add (transfer_key task_id path d) set)

abbrev pub discard_all : String → String → List String → HashSet String → HashSet String
discard_all task_id path [] set = set
discard_all task_id path (d ∷ ds) set =
    discard_all task_id path ds (discard (transfer_key task_id path d) set)

-- `map.retain(|_, value| test(value))`
abbrev pub retain_values {ℓ κ} : {K : Type ℓ} {V : Type κ} → (V → Bool) → HashMap K V → HashMap K V
retain_values test entries = filter (λ entry. test entry.1) entries

unfoldable pub finish_transfer_progress_for_path : String → String → Option String → Shared → Shared
finish_transfer_progress_for_path task_id path direction s = record s {
  progress = retain_values (λ p. not (transfer_matches p task_id path direction)) s.progress;
}

unfoldable pub cancel_active_transfer : String → String → Option String → Shared → Shared
cancel_active_transfer task_id path direction s =
    finish_transfer_progress_for_path task_id path direction
      (record s { cancelled = add_all task_id path (directions_of direction) s.cancelled })

unfoldable pub defer_transfer : String → String → String → Shared → Shared
defer_transfer task_id path direction s = record s {
  deferred = add (transfer_key task_id path direction) s.deferred;
}

unfoldable pub cancel_transfer : String → String → String → Shared → Shared
cancel_transfer task_id path direction s =
    defer_transfer task_id path direction (cancel_active_transfer task_id path (some direction) s)

unfoldable pub clear_transfer_cancel : String → String → Option String → Shared → Shared
clear_transfer_cancel task_id path direction s = record s {
  cancelled = discard_all task_id path (directions_of direction) s.cancelled;
}

unfoldable pub resume_deferred_transfer : String → String → Option String → Shared → Shared
resume_deferred_transfer task_id path direction s =
    clear_transfer_cancel task_id path direction
      (record s { deferred = discard_all task_id path (directions_of direction) s.deferred })

unfoldable pub is_transfer_cancelled : String → String → String → Shared → Bool
is_transfer_cancelled task_id path direction s =
    contains (transfer_key task_id path direction) s.cancelled

unfoldable pub is_transfer_deferred : String → String → String → Shared → Bool
is_transfer_deferred task_id path direction s =
    contains (transfer_key task_id path direction) s.deferred

-- The error of the check, if it fails.
unfoldable pub ensure_transfer_not_cancelled : String → String → String → Shared → Option String
ensure_transfer_not_cancelled task_id path direction s =
    if is_transfer_cancelled task_id path direction s
    then some "transfer cancelled"
    else if is_transfer_deferred task_id path direction s
    then some "transfer deferred by user"
    else none

-- `filter_map` over the keys: the first three pieces of each, split at the newlines.
abbrev pub transfer_of_pieces : List String → Option (String × String × String)
transfer_of_pieces (task_id ∷ path ∷ direction ∷ rest) = some (task_id, path, direction)
transfer_of_pieces pieces = none

unfoldable pub transfer_of_key : String → Option (String × String × String)
transfer_of_key key = transfer_of_pieces (splitn 3 b'\n' key)

abbrev pub transfers_of_keys : List String → List (String × String × String)
transfers_of_keys [] = []
transfers_of_keys (key ∷ keys) =
    let rest = transfers_of_keys keys in
    elim (transfer_of_key key) [ none ↦ rest | some transfer ↦ transfer ∷ rest ]

unfoldable pub list_deferred_transfers : Shared → List (String × String × String)
list_deferred_transfers s = transfers_of_keys s.deferred

unfoldable pub record_transfer_progress : TransferProgress → Shared → Shared
record_transfer_progress p s = record s { progress = insert p.transfer_id p s.progress }

-- `map.get_mut(key)` followed by the change of what is found.
abbrev pub change_at {ℓ} : {V : Type ℓ} → (V → V) → String → HashMap String V → HashMap String V
change_at change key entries =
    map (λ entry. if entry.0 == key then (entry.0, change entry.1) else entry) entries

abbrev pub finished_at : ℤ → TransferProgress → TransferProgress
finished_at now p = record p {
  finished = true;
  bytes_done = p.bytes_total;
  finished_at_unix_ms = some now;
}

unfoldable pub finish_transfer_progress : ℤ → String → Shared → Shared
finish_transfer_progress now transfer_id s = record s {
  progress = change_at (finished_at now) transfer_id s.progress;
}

abbrev pub is_shown : ℤ → TransferProgress → Bool
is_shown now p = elim p.finished_at_unix_ms [
  | none ↦ true
  | some finished ↦ leb_ℤ (now -ℤ finished) (pos 2000)
]

-- The entries, and the table without those that finished too long ago.
unfoldable pub get_transfer_progress : ℤ → Shared → List TransferProgress × Shared
get_transfer_progress now s =
    let kept = retain_values (is_shown now) s.progress in
    (map (λ entry. entry.1) kept, record s { progress = kept })

unfoldable pub has_active_transfers : Shared → Bool
has_active_transfers s = any (λ entry. not entry.1.finished) s.progress

unfoldable pub get_cached_protocol : String → Shared → Option ℕ
get_cached_protocol device_id s = lookup device_id s.peer_protocol

unfoldable pub set_cached_protocol : String → ℕ → Shared → Shared
set_cached_protocol device_id version s = record s {
  peer_protocol = insert device_id version s.peer_protocol;
}

unfoldable pub clear_cached_protocol : String → Shared → Shared
clear_cached_protocol device_id s = record s { peer_protocol = erase device_id s.peer_protocol }

-- An update of a transfer that goes on.
abbrev pub still_active : TransferProgress → TransferProgress
still_active p = record p { finished = false; finished_at_unix_ms = none }

-- Whether the update passes the throttle of its transfer, and the times of the last updates then.
unfoldable pub record_throttled :
    ℕ → TransferProgress → HashMap String ℕ → Shared → HashMap String ℕ × Shared
record_throttled now p last s = elim (lookup p.transfer_id last) [
  | none ↦ (insert p.transfer_id now last, record_transfer_progress (still_active p) s)
  | some shown ↦
      if leb (shown + 500) now
      then (insert p.transfer_id now last, record_transfer_progress (still_active p) s)
      else (last, s)
]
