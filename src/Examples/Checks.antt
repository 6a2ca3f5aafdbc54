-- ===== src/Examples/Checks.antt =====
-- What is checked before files are sent, deleted or returned.
use lan_bridge.Base.{true, none, some, List, [], ◌∷◌, ◌++◌, ◌≡◌, refl, ◌↔◌, Memᴰ, length}
use lan_bridge.Model.{FileSnapshot, move_secondary_to_history}
use lan_bridge.Planner.{PlannedAction}
use lan_bridge.Actions.{baseline_looks_like_directory}
use lan_bridge.Actions.Remote.{remote_delete_safety_error, remote_matches_baseline_for_delete}
use lan_bridge.Actions.Returns.{secondary_pull_conflict, secondary_should_download}
use lan_bridge.Actions.Recovery.{append_recovered_delete_actions}
use lan_bridge.Actions.Recovered.{IsRecoverable, append_recovered-exact}
use lan_bridge.Examples.Data.{snapshot, baseline, remote, deletion}

safe :
    remote_delete_safety_error (deletion (baseline "a.txt" "h1")) (some (remote "a.txt" "h1"))
    ≡ none
unfolding remote_delete_safety_error remote_matches_baseline_for_delete
    baseline_looks_like_directory
safe = refl

no_pull_conflict :
    secondary_pull_conflict
      (remote "a.txt" "h2")
      (some (snapshot "a.txt" "h1"))
      (some (baseline "a.txt" "h1"))
    ≡ none
unfolding secondary_pull_conflict
no_pull_conflict = refl

downloads :
    secondary_should_download
      (remote "a.txt" "h2")
      (some (snapshot "a.txt" "h1"))
      (some (baseline "a.txt" "h1"))
    ≡ true
unfolding secondary_should_download
downloads = refl

abbrev cached : List FileSnapshot
cached = snapshot "a.txt" "h1" ∷ snapshot "b.txt" "h2" ∷ []

abbrev current : List FileSnapshot
current = snapshot "a.txt" "h1" ∷ []

append_recovered-exact_example :
    (added : List PlannedAction) × ((append_recovered_delete_actions [] cached current []).0
      ≡ [] ++ added)
    × ((append_recovered_delete_actions [] cached current []).1 ≡ length added)
    × ((a : PlannedAction)
        → Memᴰ a added ↔ (
            (s : FileSnapshot) × Memᴰ s cached
            × IsRecoverable [] current [] s
            × (a.relative_path ≡ s.relative_path)
            × (a.decision ≡ move_secondary_to_history)
            × (a.snapshot ≡ some s)
            × (a.baseline ≡ none)))
append_recovered-exact_example = append_recovered-exact [] cached current []
