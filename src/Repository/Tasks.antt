-- ===== src/Repository/Tasks.antt =====
-- state/repository.rs: `SyncTaskRepository`, the table `sync_tasks`.
use lan_bridge.Base.{
  Bool, Option, none, some, List, [], ◌∷◌, ◌++◌, ◌≡◌, refl, ◌==◌, string_eq, arith, Bool-cases, inl,
  inr,
}
use lan_bridge.Base.Int.{ℤ, ltb_ℤ, max_ℤ, ◌≤ℤ◌}
use lan_bridge.Base.Sort.{sort_by}
use lan_bridge.Model.{Uuid, SyncTask}
use lan_bridge.Repository.Keyed

abbrev pub task_key : SyncTask → Uuid
task_key t = t.id

-- An `INSERT` of a key that is there is an error.
unfoldable pub insert : SyncTask → List SyncTask → Option (List SyncTask)
insert task table = elim (Keyed.select task_key task.id table) [
  | none ↦ some (table ++ task ∷ [])
  | some _ ↦ none
]

unfoldable pub get : Uuid → List SyncTask → Option SyncTask
get id table = Keyed.select task_key id table

-- `ORDER BY created_unix_ms`
unfoldable pub list_all : List SyncTask → List SyncTask
list_all table = sort_by (λ x y. ltb_ℤ y.created_unix_ms x.created_unix_ms) table

unfoldable pub update_enabled : Uuid → Bool → ℤ → List SyncTask → List SyncTask
update_enabled id enabled now table =
    Keyed.update task_key (λ t. record t { enabled = enabled; updated_unix_ms = now }) id table

abbrev touched : ℤ → SyncTask → SyncTask
touched now t = record t {
  last_transfer_activity_unix_ms = max_ℤ t.last_transfer_activity_unix_ms now;
}

unfoldable pub mark_transfer_activity : Uuid → ℤ → List SyncTask → List SyncTask
mark_transfer_activity id now table = Keyed.update task_key (touched now) id table

-- The activity times of a task before and after: only the last transfer moves, and never back.
abbrev pub OnlyActivity : Option SyncTask → Option SyncTask → Type 0
OnlyActivity none after = after ≡ none
OnlyActivity (some old) after =
    (new : SyncTask) × (after ≡ some new)
    × (old.last_transfer_activity_unix_ms ≤ℤ new.last_transfer_activity_unix_ms)
    × (new ≡ record old { last_transfer_activity_unix_ms = new.last_transfer_activity_unix_ms })

touched-OnlyActivity :
    (now : ℤ) (before : Option SyncTask)
    → OnlyActivity before (elim before [ none ↦ none | some t ↦ some (touched now t) ])
touched-OnlyActivity now none = refl
touched-OnlyActivity now (some t) = (touched now t, refl, ground arith, refl)

OnlyActivity-refl : (r : Option SyncTask) → OnlyActivity r r
OnlyActivity-refl none = refl
OnlyActivity-refl (some t) = (t, refl, ground arith, refl)

-- Transfer activity, with whatever clock, changes nothing of any task but the time of its last
-- activity, which never goes back.
pub mark_transfer_activity-OnlyActivity :
    (id q : Uuid) (now : ℤ) (table : List SyncTask)
    → OnlyActivity (get q table) (get q (mark_transfer_activity id now table))
unfolding get mark_transfer_activity
mark_transfer_activity-OnlyActivity id q now table =
    rw (Keyed.select-update task_key (touched now) id q table (λ t. refl))
      (elim (Bool-cases (id == q)) [
        | inl same ↦ rw same (touched-OnlyActivity now (Keyed.select task_key q table))
        | inr differ ↦ rw differ (OnlyActivity-refl (Keyed.select task_key q table))
      ])
