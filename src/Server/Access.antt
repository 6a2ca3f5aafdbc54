-- ===== src/Server/Access.antt =====
-- server.rs: registration of task roots and the authorization of every request on a task. An error is
-- its text, `none` is success.
use lan_bridge.Base.{
  String, Bool, false, ◌||◌, Option, none, some, ◌≡◌, refl, sym, ap, ◌↔◌, if◌then◌else◌, ◌==◌,
  string_eq, arith, beq_self,
}
use lan_bridge.Base.Assoc.{HashMap, lookup, insert, erase}
use mathlib.Core.Option.{some-injective}
use lan_bridge.Server.{TaskRootRegistry}

abbrev peers_after : Option String → String → HashMap String String → HashMap String String
peers_after none task_id peers = erase task_id peers
peers_after (some peer) task_id peers = insert task_id peer peers

-- `register` and `register_for_peer` once the root directory exists.
unfoldable pub register_inner :
    String → String → Option String → TaskRootRegistry → TaskRootRegistry
register_inner task_id root peer reg = record reg {
  roots = insert task_id root reg.roots;
  authorized_peers = peers_after peer task_id reg.authorized_peers;
}

unfoldable pub root_for : String → TaskRootRegistry → Option String
root_for task_id reg = lookup task_id reg.roots

abbrev pub peer_error : String → Option String → Option String
peer_error device_id none = some "task peer authorization is missing"
peer_error device_id (some peer) =
    if peer == device_id then none else some "peer is not authorized for task"

abbrev pub access_error : String → Option String → Option String → Option String
access_error device_id none peer = some "task root not registered"
access_error device_id (some root) peer = peer_error device_id peer

unfoldable pub authorize_task_access : String → String → TaskRootRegistry → Option String
unfolding root_for
authorize_task_access task_id device_id reg =
    access_error device_id (root_for task_id reg) (lookup task_id reg.authorized_peers)

-- The connection states of a device: disconnected here, or asked to be by the peer.
abbrev pub disconnect_error : Bool → Bool → Option String → Option String
disconnect_error here there (some e) = some e
disconnect_error here there none = if here || there then some "PeerDisconnected" else none

unfoldable pub require_authorized_task :
    (String → Bool) → (String → Bool) → Option String → String → TaskRootRegistry → Option String
unfolding authorize_task_access
require_authorized_task local_peer_disconnected peer_requested_disconnect none task_id reg =
    some "peer is not authenticated"
require_authorized_task local_peer_disconnected peer_requested_disconnect (some device) task_id
      reg =
    disconnect_error (local_peer_disconnected device) (peer_requested_disconnect device)
      (authorize_task_access task_id device reg)

-- `root_mismatch` is the error of comparing the canonical paths of the two roots, if there is one.
abbrev pub registration_error :
    String → Option String → Option String → Option String → Option String
registration_error device none peer root_mismatch = some "TaskNotApproved"
registration_error device (some root) none root_mismatch = some "TaskNotApproved"
registration_error device (some root) (some peer) root_mismatch =
    if peer == device then root_mismatch else some "TaskPeerMismatch"

unfoldable pub validate_task_registration :
    (String → Option String) → String → String → TaskRootRegistry → Option String
unfolding root_for
validate_task_registration root_mismatch task_id device reg = elim (root_for task_id reg) [
  | none ↦ some "TaskNotApproved"
  | some root ↦
      registration_error device (some root) (lookup task_id reg.authorized_peers)
        (root_mismatch root)
]

access_error-none_iff :
    (device : String) (root peer : Option String)
    → (access_error device root peer ≡ none)
      ↔ (((r : String) × (root ≡ some r)) × (peer ≡ some device))
access_error-none_iff device none peer = (λ h. cc, λ h. cc)
access_error-none_iff device (some r) none = (λ h. cc, λ h. cc)
access_error-none_iff device (some r) (some peer) = (
  λ h. ((r, refl), ap some ((string_eq.beq_iff peer device).0 (ground arith))),
  λ h. rw (some-injective peer device h.1) (rw (beq_self device) refl),
)

disconnect_error-none_iff :
    (here there : Bool) (e : Option String)
    → (disconnect_error here there e ≡ none) ↔ ((e ≡ none) × (here ≡ false) × (there ≡ false))
disconnect_error-none_iff here there none = (λ h. ground arith, λ h. ground arith)
disconnect_error-none_iff here there (some e) = (λ h. cc, λ h. cc)

-- A request on a task is let through exactly when the connection is authenticated as the peer that
-- the task was registered for, the task has a root, and neither side has disconnected that peer.
pub require_authorized_task-none_iff :
    (local_off remote_off : String → Bool) (device : Option String) (task : String)
    (reg : TaskRootRegistry)
    → (require_authorized_task local_off remote_off device task reg ≡ none) ↔ (
        (d : String) × (device ≡ some d)
        × ((root : String) × (lookup task reg.roots ≡ some root))
        × (lookup task reg.authorized_peers ≡ some d)
        × (local_off d ≡ false)
        × (remote_off d ≡ false))
unfolding require_authorized_task authorize_task_access root_for
require_authorized_task-none_iff local_off remote_off none task reg = (λ h. cc, λ h. cc)
require_authorized_task-none_iff local_off remote_off (some d) task reg =
    let access =
      access_error-none_iff d (lookup task reg.roots) (lookup task reg.authorized_peers) in
    let states =
      disconnect_error-none_iff (local_off d) (remote_off d)
        (access_error d (lookup task reg.roots) (lookup task reg.authorized_peers)) in
    (
      λ h.
          let (ok, here, there) = states.0 h in
          let (root, peer) = access.0 ok in (d, refl, root, peer, here, there),
      λ (e, same, root, peer, here, there).
          let one : e ≡ d = some-injective e d (sym same) in
          states.1 (access.1 (root, rw one at peer), rw one at here, rw one at there),
    )
