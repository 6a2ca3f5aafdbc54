-- ===== src/Repository/Replacement.antt =====
-- src-tauri/src/state/repository.rs: `FileSnapshotRepository::replace_for_task`, a transaction on the
-- table `file_snapshots`. How each of its statements ends is an argument.
use lan_bridge.Base.{
  ℕ, zero, suc, Bool, true, false, Option, none, some, List, [], ◌∷◌, ◌≡◌, refl, ap, ◌∙◌, ◌==◌,
  string_eq, pair_eq, if◌then◌else◌, filter, not, arith, eq_iff, ◌⊎◌, inl, inr, sym,
}
use mathlib.Core.Path.{subst}
use mathlib.Core.Bool.{true≢false}
use lan_bridge.Model.{Uuid, FileSnapshot}
use lan_bridge.Repository.Keyed
use lan_bridge.Repository.Keyed.{IsKeyed}
use lan_bridge.Repository.Snapshots.{Key, snapshot_key, replaced, upsert}

-- How COMMIT or ROLLBACK ends: carried out, refused with the transaction still open, or refused
-- because SQLite has undone the transaction.
pub data Ending : Type 0 where
  done left_open undone : Ending

-- `failing` is the number of the statement inside the transaction that SQLite refuses, if any.
pub record Answers : Type 0 where
  pub begins : Bool
  pub failing : Option ℕ
  pub commit : Ending
  pub rollback : Ending

-- What the connection reads, and the rows before the transaction that is open, if one is.
pub record SnapshotTable : Type 0 where
  pub rows : List FileSnapshot
  pub saved : Option (List FileSnapshot)

-- What other connections read, and what stays after a crash.
abbrev pub stored : SnapshotTable → List FileSnapshot
stored table = elim table.saved [ none ↦ table.rows | some before ↦ before ]

-- The rows after the insertions up to the refused one, and whether none was refused.
unfoldable pub insert_all :
    Option ℕ → List FileSnapshot → List FileSnapshot → List FileSnapshot × Bool
unfolding upsert
insert_all failing [] table = (table, true)
insert_all none (s ∷ ss) table = insert_all none ss (upsert s table)
insert_all (some zero) (s ∷ ss) table = (table, false)
insert_all (some (suc n)) (s ∷ ss) table = insert_all (some n) ss (upsert s table)

unfoldable pub replace_rows :
    Option ℕ → Uuid → List FileSnapshot → List FileSnapshot → List FileSnapshot × Bool
replace_rows none task_id snapshots table =
    insert_all none snapshots (filter (λ s. not (s.task_id == task_id)) table)
replace_rows (some zero) task_id snapshots table = (table, false)
replace_rows (some (suc n)) task_id snapshots table =
    insert_all (some n) snapshots (filter (λ s. not (s.task_id == task_id)) table)

abbrev after_commit : Ending → List FileSnapshot → SnapshotTable → SnapshotTable × Bool
after_commit done rows table = (record { rows = rows; saved = none }, true)
after_commit left_open rows table = (record { rows = rows; saved = some table.rows }, false)
after_commit undone rows table = (table, false)

abbrev after_rollback : Ending → List FileSnapshot → SnapshotTable → SnapshotTable
after_rollback done rows table = table
after_rollback left_open rows table = record { rows = rows; saved = some table.rows }
after_rollback undone rows table = table

abbrev close : Answers → SnapshotTable → List FileSnapshot × Bool → SnapshotTable × Bool
close answers table (rows, true) = after_commit answers.commit rows table
close answers table (rows, false) = (after_rollback answers.rollback rows table, false)

abbrev transact :
    Answers
    → Uuid
    → List FileSnapshot
    → SnapshotTable
    → Bool
    → Option (List FileSnapshot)
    → SnapshotTable × Bool
transact answers task_id snapshots table begins (some before) = (table, false)
transact answers task_id snapshots table false none = (table, false)
transact answers task_id snapshots table true none =
    close answers table (replace_rows answers.failing task_id snapshots table.rows)

-- The success is the second component. BEGIN is refused inside a transaction.
unfoldable pub replace_for_task :
    Answers → Uuid → List FileSnapshot → SnapshotTable → SnapshotTable × Bool
unfolding replace_rows
replace_for_task answers task_id snapshots table =
    transact answers task_id snapshots table answers.begins table.saved

-- The last snapshot of a list for a key.
abbrev pub last_for : Key → List FileSnapshot → Option FileSnapshot
last_for k [] = none
last_for k (s ∷ ss) = elim (last_for k ss) [
  | some later ↦ some later
  | none ↦ if snapshot_key s == k then some s else none
]

abbrev pub or_before : Option FileSnapshot → Option FileSnapshot → Option FileSnapshot
or_before (some s) before = some s
or_before none before = before

-- The rows after all the statements.
insert_rows : List FileSnapshot → List FileSnapshot → List FileSnapshot
insert_rows [] table = table
insert_rows (s ∷ ss) table = insert_rows ss (Keyed.upsert snapshot_key replaced s table)

replaced-KeepsKey : Keyed.KeepsKey snapshot_key replaced
replaced-KeepsKey old new same = refl

last-step :
    (k : Key) (s : FileSnapshot) (ss table : List FileSnapshot)
    → or_before
        (last_for k ss)
        (Keyed.select snapshot_key k (Keyed.upsert snapshot_key replaced s table))
      ≡ or_before (last_for k (s ∷ ss)) (Keyed.select snapshot_key k table)
last-step k s ss table =
    rw (Keyed.select-upsert snapshot_key replaced s k table replaced-KeepsKey) (ground arith)

select-insert_rows :
    (k : Key) (ss table : List FileSnapshot)
    → Keyed.select snapshot_key k (insert_rows ss table)
      ≡ or_before (last_for k ss) (Keyed.select snapshot_key k table)
unfolding insert_rows
select-insert_rows k [] table = refl
select-insert_rows k (s ∷ ss) table =
    select-insert_rows k ss (Keyed.upsert snapshot_key replaced s table) ∙ last-step k s ss table

insert_all-cases :
    (failing : Option ℕ) (ss table : List FileSnapshot)
    → ((insert_all failing ss table).1 ≡ true)
    → insert_all failing ss table ≡ (insert_rows ss table, true)
unfolding insert_all insert_rows upsert
insert_all-cases failing [] table h = refl
insert_all-cases none (s ∷ ss) table h = insert_all-cases none ss (upsert s table) h
insert_all-cases (some zero) (s ∷ ss) table h = absurd (true≢false (sym h))
insert_all-cases (some (suc n)) (s ∷ ss) table h = insert_all-cases (some n) ss (upsert s table) h

insert_all-none :
    (ss table : List FileSnapshot) → insert_all none ss table ≡ (insert_rows ss table, true)
unfolding insert_all insert_rows upsert
insert_all-none [] table = refl
insert_all-none (s ∷ ss) table = insert_all-none ss (upsert s table)

abbrev others : Uuid → List FileSnapshot → List FileSnapshot
others task table = filter (λ s. not (s.task_id == task)) table

replace_rows-cases :
    (failing : Option ℕ) (task : Uuid) (ss table : List FileSnapshot)
    → (replace_rows failing task ss table).1 ≡ true
    → replace_rows failing task ss table ≡ (insert_rows ss (others task table), true)
unfolding replace_rows
replace_rows-cases none task ss table h = insert_all-cases none ss (others task table) h
replace_rows-cases (some zero) task ss table h = absurd (true≢false (sym h))
replace_rows-cases (some (suc n)) task ss table h =
    insert_all-cases (some n) ss (others task table) h

select-others :
    (k : Key) (task : Uuid) (table : List FileSnapshot)
    → Keyed.select snapshot_key k (others task table)
      ≡ (if k.0 == task then none else Keyed.select snapshot_key k table)
unfolding filter Keyed.select
select-others k task [] = ground arith
select-others k task (s ∷ ss) =
    ground
      (arith, eq_iff s.task_id task, eq_iff k.0 task, eq_iff s.task_id k.0, select-others k task ss)

-- What a reader finds under each key after the replacement.
abbrev pub IsReplaced : Uuid → List FileSnapshot → List FileSnapshot → List FileSnapshot → Type 0
IsReplaced task ss table rows =
    (k : Key)
    → Keyed.select snapshot_key k rows
      ≡ or_before (last_for k ss) (if k.0 == task then none else Keyed.select snapshot_key k table)

rows-IsReplaced :
    (task : Uuid) (ss table : List FileSnapshot)
    → IsReplaced task ss table (insert_rows ss (others task table))
rows-IsReplaced task ss table k =
    select-insert_rows k ss (others task table)
    ∙ ap (or_before (last_for k ss)) (select-others k task table)

-- What a replacement comes to: on success the transaction is closed and the rows are replaced; on an
-- error nothing is stored, and the connection is as it was or COMMIT or ROLLBACK has left the
-- transaction open.
abbrev pub IsAtomic :
    Answers → Uuid → List FileSnapshot → SnapshotTable → SnapshotTable × Bool → Type 0
IsAtomic answers task ss table (after, ok) =
    ((ok ≡ true) × (after.saved ≡ none) × IsReplaced task ss table.rows after.rows)
    ⊎ ((ok ≡ false)
        × (stored after ≡ stored table)
        × ((after ≡ table) ⊎ ((answers.commit ≡ left_open) ⊎ (answers.rollback ≡ left_open))))

free_stored : (table : SnapshotTable) → table.saved ≡ none → stored table ≡ table.rows
free_stored table free = rw free refl

closed :
    (answers : Answers) (task : Uuid) (ss : List FileSnapshot) (table : SnapshotTable)
    (outcome : List FileSnapshot × Bool)
    → table.saved ≡ none
    → (outcome.1 ≡ true → outcome ≡ (insert_rows ss (others task table.rows), true))
    → IsAtomic answers task ss table (close answers table outcome)
closed answers task ss table (rows, true) free h = committed answers.commit refl
  where
    committed :
        (ending : Ending)
        → answers.commit ≡ ending
        → IsAtomic answers task ss table (after_commit ending rows table)
    committed done e = inl (
      refl,
      refl,
      subst (λ (x : List FileSnapshot). IsReplaced task ss table.rows x)
          (sym (ap (λ (x : List FileSnapshot × Bool). x.0) (h refl)))
          (rows-IsReplaced task ss table.rows),
    )
    committed left_open e = inr (refl, sym (free_stored table free), inr (inl e))
    committed undone e = inr (refl, refl, inl refl)
closed answers task ss table (rows, false) free h = rolled_back answers.rollback refl
  where
    rolled_back :
        (ending : Ending)
        → answers.rollback ≡ ending
        → IsAtomic answers task ss table (after_rollback ending rows table, false)
    rolled_back done e = inr (refl, refl, inl refl)
    rolled_back left_open e = inr (refl, sym (free_stored table free), inr (inr e))
    rolled_back undone e = inr (refl, refl, inl refl)

-- Whichever statement fails, COMMIT and ROLLBACK included, `replace_for_task` stores everything or
-- nothing: on success each key has its last snapshot of the new list, and without one the task's keys
-- are absent and the other tasks' rows are as before; on an error the stored rows are as before, and
-- the connection is as it was or is still inside the transaction that COMMIT or ROLLBACK left open.
pub replace_for_task-IsAtomic :
    (answers : Answers) (task : Uuid) (ss : List FileSnapshot) (table : SnapshotTable)
    → IsAtomic answers task ss table (replace_for_task answers task ss table)
unfolding replace_for_task
replace_for_task-IsAtomic answers task ss table = go answers.begins table.saved refl
  where
    go :
        (begins : Bool) (saved : Option (List FileSnapshot))
        → table.saved ≡ saved
        → IsAtomic answers task ss table (transact answers task ss table begins saved)
    go begins (some before) e = inr (refl, refl, inl refl)
    go false none e = inr (refl, refl, inl refl)
    go true none e =
        closed answers task ss table (replace_rows answers.failing task ss table.rows) e
          (replace_rows-cases answers.failing task ss table.rows)

-- Outside a transaction and without a refused statement the replacement succeeds.
pub replace_for_task_succeeds :
    (answers : Answers) (task : Uuid) (ss : List FileSnapshot) (table : SnapshotTable)
    → table.saved ≡ none
    → answers.begins ≡ true
    → answers.failing ≡ none
    → answers.commit ≡ done
    → (replace_for_task answers task ss table).1 ≡ true
unfolding replace_for_task replace_rows
replace_for_task_succeeds answers task ss table free begun fine committed =
    rw (free, begun, fine, replace_rows)
      (rw (insert_all-none ss (others task table.rows), committed) refl)
