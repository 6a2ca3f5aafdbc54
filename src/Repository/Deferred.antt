-- ===== src/Repository/Deferred.antt =====
-- state/repository.rs: `DeferredTransferRepository`, the table `deferred_transfers`, with the key
-- (task, path, direction).
use lan_bridge.Base.{
  ℕ, String, Bool, true, false, ◌&&◌, ◌||◌, not, Option, none, some, List, [], ◌∷◌, ◌≡◌, refl, ap,
  ◌==◌, string_eq, triple_eq, filter, length, ltb, arith,
}
use lan_bridge.Model.{Uuid, DeferredTransferRecord}
use lan_bridge.Repository.Keyed

abbrev pub deferred_key : DeferredTransferRecord → Uuid × String × String
deferred_key d = (d.task_id, d.relative_path, d.direction)

unfoldable pub upsert :
    DeferredTransferRecord → List DeferredTransferRecord → List DeferredTransferRecord
upsert transfer table = Keyed.upsert deferred_key (λ old new. new) transfer table

-- The `WHERE` of a query, with a direction or without.
abbrev pub is_selected : Uuid → String → Option String → DeferredTransferRecord → Bool
is_selected task_id path none d = d.task_id == task_id && d.relative_path == path
is_selected task_id path (some direction) d =
    d.task_id == task_id && (d.relative_path == path && d.direction == direction)

unfoldable pub exists : Uuid → String → Option String → List DeferredTransferRecord → Bool
exists task_id path direction table =
    ltb 0 (length (filter (is_selected task_id path direction) table))

-- The rows left, and how many were deleted.
unfoldable pub remove :
    Uuid → String → Option String → List DeferredTransferRecord → List DeferredTransferRecord × ℕ
remove task_id path direction table = (
  filter (λ d. not (is_selected task_id path direction d)) table,
  length (filter (is_selected task_id path direction) table),
)

count-filter-not :
    (p : DeferredTransferRecord → Bool) (table : List DeferredTransferRecord)
    → length (filter p (filter (λ d. not (p d)) table)) ≡ 0
unfolding filter
count-filter-not p [] = refl
count-filter-not p (d ∷ ds) = ground (arith, count-filter-not p ds)

count-filter_other :
    (p q : DeferredTransferRecord → Bool) (table : List DeferredTransferRecord)
    → ((d : DeferredTransferRecord) → p d ≡ true → q d ≡ false)
    → length (filter p (filter (λ d. not (q d)) table)) ≡ length (filter p table)
unfolding filter
count-filter_other p q [] h = refl
count-filter_other p q (d ∷ ds) h = ground (arith, h d, count-filter_other p q ds h)

count-upsert :
    (p : DeferredTransferRecord → Bool) (row : DeferredTransferRecord)
    (table : List DeferredTransferRecord)
    → ((d : DeferredTransferRecord) → deferred_key d ≡ deferred_key row → p d ≡ p row)
    → ltb 0 (length (filter p (Keyed.upsert deferred_key (λ old new. new) row table)))
      ≡ (p row || ltb 0 (length (filter p table)))
unfolding filter Keyed.upsert
count-upsert p row [] h = ground arith
count-upsert p row (d ∷ ds) h =
    ground
      (arith, triple_eq.beq_iff (deferred_key d) (deferred_key row), h d, count-upsert p row ds h)

selected-by_key :
    (task : Uuid) (path : String) (direction : Option String) (d row : DeferredTransferRecord)
    → deferred_key d ≡ deferred_key row
    → is_selected task path direction d ≡ is_selected task path direction row
selected-by_key task path none d row e =
    rw (ap (λ (k : Uuid × String × String). k.0) e, ap (λ (k : Uuid × String × String). k.1) e)
selected-by_key task path (some v) d row e = rw (
  ap (λ (k : Uuid × String × String). k.0) e,
  ap (λ (k : Uuid × String × String). k.1) e,
  ap (λ (k : Uuid × String × String). k.2) e,
)

-- A deferral is seen by every query that selects it, in its direction or in any, and hides none;
-- after a removal the query that removed selects nothing, and a query that selects none of the
-- removed rows answers as before.
pub exists_lem :
    (task : Uuid) (path : String) (direction : Option String) (table : List DeferredTransferRecord)
    → ((row : DeferredTransferRecord)
        → exists task path direction (upsert row table)
          ≡ (is_selected task path direction row || exists task path direction table))
      × (exists task path direction (remove task path direction table).0 ≡ false)
      × ((task' : Uuid) (path' : String) (direction' : Option String)
          → ((d : DeferredTransferRecord)
              → is_selected task' path' direction' d ≡ true
              → is_selected task path direction d ≡ false)
          → exists task' path' direction' (remove task path direction table).0
            ≡ exists task' path' direction' table)
unfolding exists upsert remove
exists_lem task path direction table = (
  λ row.
      count-upsert (is_selected task path direction) row table
        (λ d e. selected-by_key task path direction d row e),
  ground (arith, count-filter-not (is_selected task path direction) table),
  λ task' path' direction' apart. ap (ltb 0) (
      count-filter_other (is_selected task' path' direction') (is_selected task path direction)
        table apart),
)
