-- ===== src/Trackers/Dirty.antt =====
-- app_state.rs: `TaskDirtyTracker`, and when its debounced tasks are ready.
use lan_bridge.Base.{
  ℕ, ◌-◌, ◌≤◌, ◌&&◌, leb, ◌++◌, String, Bool, true, false, Option, none, some, List, [], ◌∷◌, ◌≡◌,
  refl, sym, ◌∙◌, ◌↔◌, inl, inr, Memᴰ, ◌==◌, string_eq, if◌then◌else◌, arith, Bool-cases, map,
  filter, mem-filter, mem-filter_of_mem,
}
use lan_bridge.Base.Assoc.{
  HashMap, lookup, insert, erase, lookup-insert, lookup-erase, UniqueKeys, insert-UniqueKeys,
  erase-UniqueKeys, mem_of_lookup, lookup_of_mem,
}
use mathlib.Core.Option.{some-injective}
use mathlib.Core.List.Memᴰ
use lan_bridge.Model.{Uuid}
use lan_bridge.Trackers.{watcher_debounce}

pub record TaskDirtyState : Type 0 where
  pub dirty_paths : List String
  pub last_event_at : ℕ
  pub sync_scheduled : Bool

abbrev pub dirty_or_new : ℕ → Option TaskDirtyState → TaskDirtyState
dirty_or_new now none = record { dirty_paths = []; last_event_at = now; sync_scheduled = false }
dirty_or_new now (some s) = s

-- The set of paths is the list of those that were added.
unfoldable pub mark_dirty_paths_at :
    Uuid → List String → ℕ → HashMap Uuid TaskDirtyState → HashMap Uuid TaskDirtyState
mark_dirty_paths_at task_id paths now tasks =
    let state = dirty_or_new now (lookup task_id tasks) in
    insert task_id
      (record state {
        dirty_paths = state.dirty_paths ++ paths;
        last_event_at = now;
        sync_scheduled = true;
      })
      tasks

abbrev pub is_ready : ℕ → Uuid × TaskDirtyState → Bool
is_ready now entry = entry.1.sync_scheduled && leb watcher_debounce (now - entry.1.last_event_at)

unfoldable pub ready_task_ids_at : ℕ → HashMap Uuid TaskDirtyState → List Uuid
ready_task_ids_at now tasks = map (λ entry. entry.0) (filter (is_ready now) tasks)

unfoldable pub clear : Uuid → HashMap Uuid TaskDirtyState → HashMap Uuid TaskDirtyState
clear task_id tasks = erase task_id tasks

-- A change noticed at some time, or a synchronisation that takes the task up.
pub data Event : Type 0 where
  change : Uuid → List String → ℕ → Event
  taken_up : Uuid → Event

unfoldable pub apply : Event → HashMap Uuid TaskDirtyState → HashMap Uuid TaskDirtyState
apply (change task paths now) tasks = mark_dirty_paths_at task paths now tasks
apply (taken_up task) tasks = clear task tasks

-- The tracker after the events, the newest of which comes first.
unfoldable pub after : List Event → HashMap Uuid TaskDirtyState
unfolding apply
after [] = []
after (e ∷ es) = apply e (after es)

-- The time of the last change of the task that no synchronisation has taken up.
abbrev pub last_mark : Uuid → List Event → Option ℕ
last_mark task [] = none
last_mark task (change t paths now ∷ es) = if t == task then some now else last_mark task es
last_mark task (taken_up t ∷ es) = if t == task then none else last_mark task es

-- What the tracker holds of a task is its last change.
abbrev Agrees : Option TaskDirtyState → Option ℕ → Type 0
Agrees none last = last ≡ none
Agrees (some s) last = (last ≡ some s.last_event_at) × (s.sync_scheduled ≡ true)

after-UniqueKeys : (es : List Event) → UniqueKeys (after es)
unfolding after apply mark_dirty_paths_at clear lookup
after-UniqueKeys [] = tt
after-UniqueKeys (change task paths now ∷ es) =
    insert-UniqueKeys task _ (after es) (after-UniqueKeys es)
after-UniqueKeys (taken_up task ∷ es) = erase-UniqueKeys task (after es) (after-UniqueKeys es)

after-Agrees : (task : Uuid) (es : List Event) → Agrees (lookup task (after es)) (last_mark task es)
unfolding after apply mark_dirty_paths_at clear lookup
after-Agrees task [] = refl
after-Agrees task (change t paths now ∷ es) =
    rw
      (lookup-insert t task
        (record (dirty_or_new now (lookup t (after es))) {
          dirty_paths = (dirty_or_new now (lookup t (after es))).dirty_paths ++ paths;
          last_event_at = now;
          sync_scheduled = true;
        })
        (after es))
      (elim (Bool-cases (t == task)) [
        | inl same ↦ rw same (refl, refl)
        | inr differ ↦ rw differ (after-Agrees task es)
      ])
after-Agrees task (taken_up t ∷ es) =
    rw (lookup-erase t task (after es)) (elim (Bool-cases (t == task)) [
      | inl same ↦ rw same refl
      | inr differ ↦ rw differ (after-Agrees task es)
    ])

mem-ready :
    (task : Uuid) (now : ℕ) (m : HashMap Uuid TaskDirtyState)
    → UniqueKeys m
    → Memᴰ task (ready_task_ids_at now m)
      ↔ ((s : TaskDirtyState) × (lookup task m ≡ some s) × (is_ready now (task, s) ≡ true))
unfolding ready_task_ids_at
mem-ready task now m h = (
  λ listed.
      let ((t, s), found, same) = Memᴰ.of_map (λ entry. entry.0) (filter (is_ready now) m) listed in
      let (there, test) = mem-filter (is_ready now) m found in
      (s, rw (sym same) (lookup_of_mem m h there), test),
  λ (s, found, test).
      Memᴰ.map (λ entry. entry.0)
        (mem-filter_of_mem (is_ready now) (mem_of_lookup task s m found) test),
)

-- After any changes and synchronisations, a task is ready exactly when it has a change that no
-- synchronisation has taken up, and the last such change is at least the debounce time ago.
pub mem-ready_task_ids_iff :
    (task : Uuid) (es : List Event) (now : ℕ)
    → Memᴰ task (ready_task_ids_at now (after es))
      ↔ ((last : ℕ) × (last_mark task es ≡ some last) × (watcher_debounce ≤ now - last))
mem-ready_task_ids_iff task es now = (
  λ listed.
      let (s, found, test) = (mem-ready task now (after es) (after-UniqueKeys es)).0 listed in
      let agrees : Agrees (some s) (last_mark task es) = rw found at (after-Agrees task es) in
      (s.last_event_at, agrees.0, ground arith),
  λ (last, marked, long).
      (mem-ready task now (after es) (after-UniqueKeys es)).1
        (from_last last marked long (lookup task (after es)) refl (after-Agrees task es)),
)
  where
    from_last :
        (last : ℕ)
        → last_mark task es ≡ some last
        → watcher_debounce ≤ now - last
        → (found : Option TaskDirtyState) → lookup task (after es) ≡ found
        → Agrees found (last_mark task es)
        → (s : TaskDirtyState) × (lookup task (after es) ≡ some s) × (is_ready now (task, s) ≡ true)
    from_last last marked long none e agrees = cc
    from_last last marked long (some s) e agrees =
        let same : s.last_event_at ≡ last =
          some-injective s.last_event_at last (sym agrees.0 ∙ marked) in
        (s, e, rw (agrees.1, same) (ground arith))
