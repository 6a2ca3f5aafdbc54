-- ===== src/Repository/Peers.antt =====
-- state/repository.rs: `PeerConnectionStateRepository`, the table `peer_connection_state`. The
-- revisions are numbers that only grow by one at a time, far below the column's 64 bits.
pub mod Order
pub mod Newest
use lan_bridge.Base.{
  ℕ, zero, suc, ◌+◌, String, Bool, true, false, ◌&&◌, ◌||◌, not, Option, none, some, List, [], ◌∷◌,
  ◌==◌, string_eq, nat_eq, if◌then◌else◌, ltb,
}
use lan_bridge.Base.Int.{ℤ}
use lan_bridge.Repository.Keyed

pub record PeerConnectionStateRecord : Type 0 where
  pub peer_device_id : String
  pub local_disconnected : Bool
  pub local_revision : ℕ
  pub remote_disconnected : Bool
  pub remote_revision : Option ℕ
  pub updated_unix_ms : ℤ

abbrev pub peer_key : PeerConnectionStateRecord → String
peer_key r = r.peer_device_id

abbrev pub same_flag : Bool → Bool → Bool
same_flag true b = b
same_flag false b = not b

unfoldable pub get : String → List PeerConnectionStateRecord → Option PeerConnectionStateRecord
get peer table = Keyed.select peer_key peer table

abbrev pub fresh : String → ℤ → PeerConnectionStateRecord
fresh peer now = record {
  peer_device_id = peer;
  local_disconnected = false;
  local_revision = 0;
  remote_disconnected = false;
  remote_revision = none;
  updated_unix_ms = now;
}

-- `INSERT OR IGNORE`
unfoldable pub ensure : String → ℤ → List PeerConnectionStateRecord → List PeerConnectionStateRecord
ensure peer now table = Keyed.upsert peer_key (λ old new. old) (fresh peer now) table

-- The update of a conflict on insertion, under its `WHERE`.
abbrev pub local_update :
    PeerConnectionStateRecord → PeerConnectionStateRecord → PeerConnectionStateRecord
local_update old new =
    if same_flag old.local_disconnected new.local_disconnected then old else record old {
      local_disconnected = new.local_disconnected;
      local_revision = old.local_revision + 1;
      updated_unix_ms = new.updated_unix_ms;
    }

-- The new table and the row that `get` finds in it.
unfoldable pub set_local_disconnected :
    String
    → Bool
    → ℤ
    → List PeerConnectionStateRecord
    → List PeerConnectionStateRecord × Option PeerConnectionStateRecord
set_local_disconnected peer disconnected now table =
    let rows =
      Keyed.upsert peer_key local_update
        (record (fresh peer now) { local_disconnected = disconnected; local_revision = 1 }) table in
    (rows, Keyed.select peer_key peer rows)

-- The `WHERE` of the update: no revision yet, a newer one, or the same one with the same state.
unfoldable pub accepts : Option ℕ → Bool → ℕ → Bool → Bool
accepts none current revision disconnected = true
accepts (some old) current revision disconnected =
    ltb old revision || (revision == old && same_flag disconnected current)

abbrev pub remote_update : Bool → ℕ → ℤ → PeerConnectionStateRecord → PeerConnectionStateRecord
remote_update disconnected revision now old =
    if accepts old.remote_revision old.remote_disconnected revision disconnected
    then record old {
      remote_disconnected = disconnected;
      remote_revision = some revision;
      updated_unix_ms = now;
    }
    else old

abbrev pub changes : Bool → ℕ → Option PeerConnectionStateRecord → Bool
changes disconnected revision none = true
changes disconnected revision (some old) =
    accepts old.remote_revision old.remote_disconnected revision disconnected

-- The new table, and whether a row was inserted or updated.
unfoldable pub apply_remote_disconnected :
    String → Bool → ℕ → ℤ → List PeerConnectionStateRecord → List PeerConnectionStateRecord × Bool
unfolding accepts
apply_remote_disconnected peer disconnected revision now table = (
  Keyed.upsert peer_key (λ old new. remote_update disconnected revision now old)
      (record (fresh peer now) {
        remote_disconnected = disconnected;
        remote_revision = some revision;
      })
      table,
  changes disconnected revision (Keyed.select peer_key peer table),
)
