-- ===== src/Examples/Transfers.antt =====
-- An incoming file from its start to its end.
use lan_bridge.Base.{
  ℕ, ◌≤◌, String, false, none, some, List, [], ◌∷◌, ◌≡◌, refl, ◌↔◌, string_eq, length,
}
use lan_bridge.Base.Assoc.{lookup, insert}
use lan_bridge.Server.{
  IncomingTransfer, TaskRootRegistry, v2_binary, transfer_key, transfer_target_key,
}
use lan_bridge.Server.Access.{
  register_inner, require_authorized_task, require_authorized_task-none_iff,
}
use lan_bridge.Server.Incoming.{
  StartChecks, new_transfer, start_incoming_v2, start_transfer, acquire_incoming_lease,
  release_incoming_lease, release_incoming_lease_key,
}
use lan_bridge.Server.Chunks.{
  FinishChecks, append_incoming_chunk, finish_incoming_v2, grown, acknowledged,
}
use lan_bridge.Server.Leases.{IsLeased}
use lan_bridge.Server.Transfers.{
  Operation, register, start_v2, chunk, perform, perform_all, empty_registry, empty-IsLeased,
  perform_all-IsLeased, one_writer,
}
use lan_bridge.Server.Finished.{IsWhole, finish_incoming_v2-IsWhole}
use lan_bridge.Examples.Data.{task}

abbrev fine : StartChecks
fine = record { refused = none; target_error = none; setup_error = none }

abbrev done : FinishChecks
done = record { flush_error = none; commit_error = none }

abbrev hash : List ℕ → String
hash bytes = "h"

abbrev operations : List Operation
operations =
    register task "/copy" (some "pc")
    ∷ start_v2 fine task "a.txt" 2 none "c1"
    ∷ chunk false none "c1" task "a.txt" 0 (7 ∷ 8 ∷ [])
    ∷ []

abbrev received_file : IncomingTransfer
received_file =
    acknowledged (grown (7 ∷ 8 ∷ []) (new_transfer v2_binary "" none 2 "c1" task "a.txt"))

abbrev serving : TaskRootRegistry
serving = perform_all hash operations empty_registry

in_progress : lookup (transfer_key "c1" task "a.txt") serving.incoming ≡ some received_file
unfolding perform_all perform register_inner start_incoming_v2 start_transfer acquire_incoming_lease
    append_incoming_chunk lookup insert transfer_key transfer_target_key
in_progress = refl

serving-IsLeased : IsLeased serving
serving-IsLeased = perform_all-IsLeased hash operations empty_registry empty-IsLeased

perform_all-IsLeased_example : IsLeased (perform_all hash operations empty_registry)
perform_all-IsLeased_example = perform_all-IsLeased hash operations empty_registry empty-IsLeased

one_writer_example :
    (transfer_key "c1" task "a.txt" ≡ transfer_key "c1" task "a.txt")
    × (received_file ≡ received_file)
    × (2 ≡ length received_file.received)
    × (2 ≤ 2)
one_writer_example =
    one_writer hash operations (transfer_key "c1" task "a.txt") (transfer_key "c1" task "a.txt")
      received_file received_file in_progress in_progress refl

finished : (finish_incoming_v2 hash done "c1" task "a.txt" "h" serving).1 ≡ none
unfolding finish_incoming_v2 release_incoming_lease release_incoming_lease_key perform_all perform
    register_inner start_incoming_v2 start_transfer acquire_incoming_lease append_incoming_chunk
    lookup insert transfer_key transfer_target_key
finished = refl

finish_incoming_v2-IsWhole_example :
    (tr : IncomingTransfer) × (lookup (transfer_key "c1" task "a.txt") serving.incoming ≡ some tr)
    × IsWhole hash "h"
        (transfer_key "c1" task "a.txt")
        tr
        serving
        (finish_incoming_v2 hash done "c1" task "a.txt" "h" serving).0
finish_incoming_v2-IsWhole_example =
    finish_incoming_v2-IsWhole hash done "c1" task "a.txt" "h" serving serving-IsLeased finished

-- The root of the task is taken away before the end.
abbrev rootless : TaskRootRegistry
rootless = record serving { roots = [] }

no_root : lookup task rootless.roots ≡ none
unfolding lookup
no_root = refl

require_authorized_task-none_iff_example :
    (require_authorized_task (λ _. false) (λ _. false) (some "pc") task serving ≡ none) ↔ (
      (d : String) × (some "pc" ≡ some d)
      × ((root : String) × (lookup task serving.roots ≡ some root))
      × (lookup task serving.authorized_peers ≡ some d)
      × (false ≡ false)
      × (false ≡ false))
require_authorized_task-none_iff_example =
    require_authorized_task-none_iff (λ _. false) (λ _. false) (some "pc") task serving
