-- ===== src/Repository/History.antt =====
-- state/repository.rs: `HistoryRepository`, the table `history_entries`, whose key is `id`.
use lan_bridge.Base.{
  ℕ, ◌+◌, String, Bool, true, false, ◌&&◌, ◌||◌, not, Option, none, some, List, [], ◌∷◌, ◌++◌, ◌≡◌,
  refl, sym, ap, ◌∙◌, ◌↔◌, inl, inr, Bool-cases, Memᴰ, mem-filter, mem-filter_of_mem, any-mem,
  any_of_mem, ◌==◌, string_eq, filter, length, any, if◌then◌else◌, arith, eq_iff,
}
use lan_bridge.Base.Int.{ℤ, pos, ◌+ℤ◌, ltb_ℤ}
use lan_bridge.Base.Sort.{sort_by, sort_by-perm, mem-perm}
use lan_bridge.Model.{Uuid, HistoryEntry}
use lan_bridge.Repository.Keyed
use mathlib.Core.Option.{some-injective}
use mathlib.Core.List.Permᴰ

abbrev pub history_key : HistoryEntry → Uuid
history_key e = e.id

-- An `INSERT` of a key that is there is an error.
unfoldable pub insert : HistoryEntry → List HistoryEntry → Option (List HistoryEntry)
insert entry table = elim (Keyed.select history_key entry.id table) [
  | none ↦ some (table ++ entry ∷ [])
  | some _ ↦ none
]

-- `ORDER BY created_unix_ms DESC`
unfoldable pub list_by_task : Uuid → List HistoryEntry → List HistoryEntry
list_by_task task_id table =
    sort_by (λ x y. ltb_ℤ x.created_unix_ms y.created_unix_ms)
      (filter (λ e. e.task_id == task_id) table)

abbrev pub total : List HistoryEntry → ℤ
total [] = pos 0
total (e ∷ es) = e.size +ℤ total es

unfoldable pub total_size_by_task : Uuid → List HistoryEntry → ℤ
total_size_by_task task_id table = total (filter (λ e. e.task_id == task_id) table)

-- The rows left, and how many were deleted.
unfoldable pub delete_older_than : Uuid → ℤ → List HistoryEntry → List HistoryEntry × ℕ
delete_older_than task_id cutoff table = (
  filter (λ e. not (e.task_id == task_id && ltb_ℤ e.created_unix_ms cutoff)) table,
  length (filter (λ e. e.task_id == task_id && ltb_ℤ e.created_unix_ms cutoff) table),
)

unfoldable pub remove : Uuid → Uuid → List HistoryEntry → List HistoryEntry
remove task_id entry_id table = filter (λ e. not (e.task_id == task_id && e.id == entry_id)) table

abbrev pub holds_path : List String → HistoryEntry → Bool
holds_path existing e = any (λ p. p == e.stored_path) existing

-- The loop over the entries of the task.
unfoldable pub remove_all :
    Uuid → List String → List HistoryEntry → List HistoryEntry → List HistoryEntry × ℕ
unfolding remove
remove_all task_id existing [] table = (table, 0)
remove_all task_id existing (e ∷ es) table =
    if holds_path existing e then remove_all task_id existing es table else (
      (remove_all task_id existing es (remove task_id e.id table)).0,
      (remove_all task_id existing es (remove task_id e.id table)).1 + 1,
    )

unfoldable pub remove_missing_stored_paths :
    Uuid → List String → List HistoryEntry → List HistoryEntry × ℕ
unfolding remove_all list_by_task
remove_missing_stored_paths task_id existing table =
    remove_all task_id existing (list_by_task task_id table) table

filter-filter :
    (p q r : HistoryEntry → Bool) (table : List HistoryEntry)
    → ((e : HistoryEntry) → (p e && q e) ≡ r e)
    → filter p (filter q table) ≡ filter r table
unfolding filter
filter-filter p q r [] h = refl
filter-filter p q r (e ∷ es) h = elim (Bool-cases (q e)) [
  | inl on ↦ elim (Bool-cases (p e)) [
    | inl keeps ↦ rw on (rw (sym (h e), on, keeps) (ap (λ l. e ∷ l) (filter-filter p q r es h)))
    | inr drops ↦ rw on (rw (sym (h e), drops) (filter-filter p q r es h))
  ]
  | inr off ↦ ground (arith, filter-filter p q r es h, h e)
]

-- The entries that the loop deletes.
abbrev drops : Uuid → List String → List HistoryEntry → HistoryEntry → Bool
drops task_id existing es e =
    e.task_id == task_id && any (λ x. not (holds_path existing x) && e.id == x.id) es

filter-true :
    (p : HistoryEntry → Bool) (table : List HistoryEntry)
    → ((e : HistoryEntry) → p e ≡ true)
    → filter p table ≡ table
unfolding filter
filter-true p [] h = refl
filter-true p (e ∷ es) h = rw (h e) (ap (λ l. e ∷ l) (filter-true p es h))

remove_all-eq :
    (task : Uuid) (existing : List String) (es table : List HistoryEntry)
    → (remove_all task existing es table).0 ≡ filter (λ e. not (drops task existing es e)) table
unfolding remove_all remove
remove_all-eq task existing [] table =
    sym (filter-true (λ e. not (drops task existing [] e)) table (λ e. ground arith))
remove_all-eq task existing (x ∷ xs) table = elim (Bool-cases (holds_path existing x)) [
  | inl held ↦ rw held (remove_all-eq task existing xs table)
  | inr missing ↦ rw missing (
      remove_all-eq task existing xs (remove task x.id table)
      ∙ filter-filter (λ e. not (drops task existing xs e))
          (λ e. not (e.task_id == task && e.id == x.id))
          (λ e. not (
            e.task_id == task
            && (e.id == x.id || any (λ y. not (holds_path existing y) && e.id == y.id) xs)))
          table (λ e. ground arith))
]

mem-list_by_task :
    (task : Uuid) {e : HistoryEntry} (table : List HistoryEntry)
    → Memᴰ e (list_by_task task table)
    → Memᴰ e table
unfolding list_by_task
mem-list_by_task task table m = (mem-filter _ table (mem-perm (sort_by-perm _ _) m)).0

list_by_task_of_mem :
    (task : Uuid) {e : HistoryEntry} (table : List HistoryEntry)
    → Memᴰ e table
    → (e.task_id == task) ≡ true
    → Memᴰ e (list_by_task task table)
unfolding list_by_task
list_by_task_of_mem task table m h =
    mem-perm (Permᴰ.symm (sort_by-perm _ _)) (mem-filter_of_mem (λ e. e.task_id == task) m h)

-- An entry of the task that the loop drops has no file, when ids are unique.
dropped-missing :
    (task : Uuid) (existing : List String) (table : List HistoryEntry) {e : HistoryEntry}
    → Keyed.IsKeyed history_key table
    → Memᴰ e table
    → drops task existing (list_by_task task table) e ≡ true
    → holds_path existing e ≡ false
dropped-missing task existing table {e} keyed m h =
    let (x, there, test) =
      any-mem (λ x. not (holds_path existing x) && e.id == x.id) (list_by_task task table)
        (ground arith) in
    let same : e.id ≡ x.id = (string_eq.beq_iff e.id x.id).0 (ground arith) in
    let one : e ≡ x = some-injective e x (
      sym (Keyed.select-mem history_key table keyed m)
      ∙ (rw same (Keyed.select-mem history_key table keyed (mem-list_by_task task table there)))) in
    rw one (ground arith)

-- Ids being unique, `remove_missing_stored_paths` keeps exactly the entries of other tasks and the
-- entries of the task whose stored path is among the existing ones.
pub mem-remove_missing_stored_paths_iff :
    (task : Uuid) (existing : List String) (table : List HistoryEntry)
    → Keyed.IsKeyed history_key table
    → (e : HistoryEntry)
    → Memᴰ e (remove_missing_stored_paths task existing table).0
      ↔ (Memᴰ e table × ((not (e.task_id == task) || holds_path existing e) ≡ true))
unfolding remove_missing_stored_paths
mem-remove_missing_stored_paths_iff task existing table keyed e =
    rw (remove_all-eq task existing (list_by_task task table) table) (
      (λ m.
          let (there, test) = mem-filter _ table m in
          (
            there,
            elim (Bool-cases (not (e.task_id == task) || holds_path existing e)) [
              | inl stays ↦ stays
              | inr goes ↦
                  let found =
                    any_of_mem (λ x. not (holds_path existing x) && e.id == x.id)
                      (list_by_task_of_mem task table there (ground arith))
                      (ground (arith, eq_iff e.id e.id)) in
                  ground arith
            ],
          )),
      (λ h.
          mem-filter_of_mem (λ x. not (drops task existing (list_by_task task table) x)) h.0
            (ground (arith, dropped-missing task existing table keyed h.0))),
    )
