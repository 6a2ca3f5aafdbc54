-- ===== src/Repository/Pending.antt =====
-- state/repository.rs: `PendingReturnRepository`, the table `pending_return_changes`.
use lan_bridge.Base.{
  ℕ, ◌+◌, String, Option, none, some, List, [], ◌∷◌, ◌≡◌, refl, sym, ap, ◌∙◌, inl, inr, Bool-cases,
  ◌==◌, string_eq, pair_eq, filter, length, if◌then◌else◌, arith,
}
use lan_bridge.Base.Int.{ltb_ℤ}
use lan_bridge.Base.Sort.{sort_by}
use lan_bridge.Model.{Uuid, PendingReturnChange}
use lan_bridge.Repository.Keyed

abbrev pub pending_key : PendingReturnChange → Uuid × String
pending_key c = (c.task_id, c.relative_path)

-- The columns that a conflict sets: all but the key and the time of the first report.
abbrev pub refreshed : PendingReturnChange → PendingReturnChange → PendingReturnChange
refreshed old new = record old {
  change_kind = new.change_kind;
  secondary_hash = new.secondary_hash;
  secondary_hash_status = new.secondary_hash_status;
  secondary_modified_unix_ms = new.secondary_modified_unix_ms;
}

unfoldable pub upsert : PendingReturnChange → List PendingReturnChange → List PendingReturnChange
upsert change table = Keyed.upsert pending_key refreshed change table

unfoldable pub get : Uuid → String → List PendingReturnChange → Option PendingReturnChange
get task_id path table = Keyed.select pending_key (task_id, path) table

-- `ORDER BY created_unix_ms`
unfoldable pub list_by_task : Uuid → List PendingReturnChange → List PendingReturnChange
list_by_task task_id table =
    sort_by (λ x y. ltb_ℤ y.created_unix_ms x.created_unix_ms)
      (filter (λ c. c.task_id == task_id) table)

unfoldable pub remove : Uuid → String → List PendingReturnChange → List PendingReturnChange
remove task_id path table = Keyed.delete pending_key (task_id, path) table

unfoldable pub count_by_task : Uuid → List PendingReturnChange → ℕ
count_by_task task_id table = length (filter (λ c. c.task_id == task_id) table)

refreshed-KeepsKey : Keyed.KeepsKey pending_key refreshed
refreshed-KeepsKey old new same = same

-- The change a reader finds after a report: the reported one, with the time of the first report.
abbrev pub reported : PendingReturnChange → Option PendingReturnChange → PendingReturnChange
reported change none = change
reported change (some old) = record change { created_unix_ms = old.created_unix_ms }

refreshed-eq :
    (change old : PendingReturnChange)
    → pending_key old ≡ pending_key change
    → refreshed old change ≡ reported change (some old)
refreshed-eq change old same = cc

merged-reported :
    (change : PendingReturnChange) (found : Option PendingReturnChange)
    → ((old : PendingReturnChange) → found ≡ some old → pending_key old ≡ pending_key change)
    → Keyed.merged pending_key refreshed change found ≡ reported change found
merged-reported change none h = refl
merged-reported change (some old) h = refreshed-eq change old (h old refl)

select-key :
    (k : Uuid × String) (table : List PendingReturnChange) (old : PendingReturnChange)
    → Keyed.select pending_key k table ≡ some old
    → pending_key old ≡ k
unfolding Keyed.select
select-key k [] old h = cc
select-key k (c ∷ cs) old h = ground (arith, pair_eq.beq_iff (pending_key c) k, select-key k cs old)

found-reported :
    (change : PendingReturnChange) (k : Uuid × String) (table : List PendingReturnChange)
    → (if pending_key change == k
        then some (
            Keyed.merged pending_key refreshed change
              (Keyed.select pending_key (pending_key change) table))
        else Keyed.select pending_key k table)
      ≡ (if pending_key change == k
          then some (reported change (Keyed.select pending_key k table))
          else Keyed.select pending_key k table)
found-reported change k table = elim (Bool-cases (pending_key change == k)) [
  | inl same ↦ rw same (
      rw (sym ((pair_eq.beq_iff (pending_key change) k).0 same)) (
        ap some (
          merged-reported change (Keyed.select pending_key (pending_key change) table)
            (λ old e. select-key (pending_key change) table old e))))
  | inr differ ↦ rw differ
]

-- The count grows by one exactly when the path had no pending change.
count-upsert :
    (task : Uuid) (change : PendingReturnChange) (table : List PendingReturnChange)
    → length (filter (λ c. c.task_id == task) (Keyed.upsert pending_key refreshed change table))
      ≡ length (filter (λ c. c.task_id == task) table)
        + elim (Keyed.select pending_key (pending_key change) table) [
          | none ↦ if change.task_id == task then 1 else 0
          | some _ ↦ 0
        ]
unfolding Keyed.upsert Keyed.select filter
count-upsert task change [] = ground arith
count-upsert task change (c ∷ cs) =
    ground
      (arith, pair_eq.beq_iff (pending_key c) (pending_key change), count-upsert task change cs)

-- After a report of a change, its path has the reported change under the time of its first report,
-- the other paths have what they had, and each task's count has grown by one exactly when the path
-- is the task's and had no pending change.
pub upsert-reports :
    (change : PendingReturnChange) (table : List PendingReturnChange)
    → ((task : Uuid) (path : String)
        → get task path (upsert change table) ≡ (
            if pending_key change == (task, path)
            then some (reported change (get task path table))
            else get task path table))
      × ((task : Uuid)
          → count_by_task task (upsert change table)
            ≡ count_by_task task table + elim (get change.task_id change.relative_path table) [
              | none ↦ if change.task_id == task then 1 else 0
              | some _ ↦ 0
            ])
unfolding upsert get count_by_task
upsert-reports change table = (
  λ task path.
      Keyed.select-upsert pending_key refreshed change (task, path) table refreshed-KeepsKey
      ∙ found-reported change (task, path) table,
  λ task. count-upsert task change table,
)
