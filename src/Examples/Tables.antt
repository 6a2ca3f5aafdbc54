-- ===== src/Examples/Tables.antt =====
-- The tables of the database.
use lan_bridge.Base.{
  none, ℕ, ◌≤◌, Bool, true, false, List, [], ◌∷◌, ◌≡◌, refl, Memᴰ, All, string_eq, pair_eq, eqb,
}
use lan_bridge.Base.Int.{pos}
use lan_bridge.Model.{FileSnapshot, HistoryEntry}
use lan_bridge.Repository.Keyed
use lan_bridge.Repository.Keyed.{select}
use lan_bridge.Repository.Replacement.{
  Answers, left_open, done, SnapshotTable, IsAtomic, replace_for_task, replace_for_task-IsAtomic,
  replace_for_task_succeeds,
}
use lan_bridge.Repository.History.{history_key}
use lan_bridge.Repository.Peers
use lan_bridge.Repository.Peers.{apply_remote_disconnected}
use lan_bridge.Repository.Peers.Newest.{Message, Holds, deliver, deliver-newest}
use lan_bridge.Examples.Data.{task, snapshot, history_entry}

abbrev old_rows : List FileSnapshot
old_rows = snapshot "a.txt" "h1" ∷ []

abbrev new_rows : List FileSnapshot
new_rows = snapshot "a.txt" "h2" ∷ snapshot "b.txt" "h3" ∷ []

-- All statements succeed but COMMIT, which leaves the transaction open.
abbrev commit_refused : Answers
commit_refused = record { begins = true; failing = none; commit = left_open; rollback = done }

abbrev all_done : Answers
all_done = record { begins = true; failing = none; commit = done; rollback = done }

abbrev table : SnapshotTable
table = record { rows = old_rows; saved = none }

replace_for_task-IsAtomic_example :
    IsAtomic commit_refused task new_rows table
      (replace_for_task commit_refused task new_rows table)
replace_for_task-IsAtomic_example = replace_for_task-IsAtomic commit_refused task new_rows table

replacement_succeeds : (replace_for_task all_done task new_rows table).1 ≡ true
replacement_succeeds = replace_for_task_succeeds all_done task new_rows table refl refl refl refl

abbrev entries : List HistoryEntry
entries = history_entry "e1" "x/1" ∷ history_entry "e2" "x/2" ∷ []

entries-IsKeyed : Keyed.IsKeyed history_key entries
unfolding select
entries-IsKeyed = (refl, (refl, tt))

abbrev message : Bool → ℕ → Message
message disconnected revision = record {
  disconnected = disconnected;
  revision = revision;
  received_unix_ms = pos 1;
}

abbrev is_one : ℕ → Bool
is_one n = eqb n 1

-- Revision 2 arrives before revision 1, and again after it.
deliver-newest_example :
    (last : Message) × Memᴰ last (message false 2 ∷ message true 1 ∷ message false 2 ∷ [])
    × All
        (λ k. k.revision ≤ last.revision)
        (message false 2 ∷ message true 1 ∷ message false 2 ∷ [])
    × Holds is_one last.revision (
        Peers.get "laptop"
          (deliver "laptop" (message false 2 ∷ message true 1 ∷ message false 2 ∷ []) []))
unfolding Peers.get select
deliver-newest_example =
    deliver-newest is_one "laptop" (message false 2) (message true 1 ∷ message false 2 ∷ []) []
      (refl, (refl, (refl, tt))) tt
