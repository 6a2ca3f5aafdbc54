-- ===== src/Actions/Selection.antt =====
-- src-tauri/src/commands/mod.rs: which paths a return of selected paths covers, and in which order.
use lan_bridge.Base.{
  ℕ, String, Bool, true, false, ◌&&◌, ◌||◌, Option, none, some, List, [], ◌∷◌, ◌≡◌, refl, ◌∙◌,
  arith, if◌then◌else◌, any, all, map, filter, ltb, leb, eqb, ◌==◌, string_eq,
}
use lan_bridge.Base.Assoc.{HashMap, lookup}
use lan_bridge.Base.Sets.{HashSet, add, contains, contains-add}
use lan_bridge.Base.Sort.{sort_by, IsOrdered, sort_by-IsOrdered, any-sort_by}
use lan_bridge.Model.{PendingReturnChange, is_deletion}
use lan_bridge.Actions.{is_descendant_path, return_path_depth}
use Prim.Native.String.{compare}
use Prim.Native.Nat.{Ordering}

abbrev pub Pending : Type 0
Pending = HashMap String PendingReturnChange

abbrev is_some {ℓ} : {A : Type ℓ} → Option A → Bool
is_some none = false
is_some (some a) = true

abbrev is_below : String → String × PendingReturnChange → Bool
is_below path entry = is_descendant_path entry.0 path

abbrev pub has_below : String → Pending → Bool
has_below path pending = any (is_below path) pending

-- The keys below the path are inserted one after the other.
abbrev add_below : String → Pending → HashSet String → HashSet String
add_below path [] expanded = expanded
add_below path (entry ∷ pending) expanded =
    let more = add_below path pending (add entry.0 expanded) in
    let same = add_below path pending expanded in if is_below path entry then more else same

abbrev add_if : Bool → String → HashSet String → HashSet String
add_if test path set = if test then add path set else set

-- One turn of the loop over the selected paths.
unfoldable pub expand_one : Pending → String → HashSet String → HashSet String
expand_one pending selected expanded = add_below selected pending (
    add_if (has_below selected pending) selected
      (add_if (is_some (lookup selected pending)) selected expanded))

unfoldable pub expand_all : Pending → List String → HashSet String → HashSet String
expand_all pending [] expanded = expanded
expand_all pending (s ∷ ss) expanded = expand_all pending ss (expand_one pending s expanded)

abbrev all_deletions : List PendingReturnChange → Bool
all_deletions changes = all (λ change. is_deletion change.change_kind) changes

abbrev is_nonempty {ℓ} : {A : Type ℓ} → List A → Bool
is_nonempty [] = false
is_nonempty (x ∷ xs) = true

abbrev deleted_group : List PendingReturnChange → Bool
deleted_group changes = is_nonempty changes && all_deletions changes

unfoldable pub return_path_is_deleted_group : String → Pending → Bool
return_path_is_deleted_group path pending = elim (lookup path pending) [
  | some change ↦ is_deletion change.change_kind
  | none ↦ deleted_group (map (λ entry. entry.1) (filter (is_below path) pending))
]

abbrev text_after : String → String → Bool
text_after a b = elim (compare a b) [ Ordering.gt ↦ true | _ ↦ false ]

-- `then_with` on a comparison of depths, when it gives `Greater`.
abbrev deeper_then_text : ℕ → ℕ → String → String → Bool
deeper_then_text a b left right = ltb b a || (eqb a b && text_after left right)

abbrev groups_after : Bool → Bool → ℕ → ℕ → String → String → Bool
groups_after true true left_depth right_depth left right =
    deeper_then_text right_depth left_depth left right
groups_after false false left_depth right_depth left right =
    deeper_then_text left_depth right_depth left right
groups_after false true left_depth right_depth left right = false
groups_after true false left_depth right_depth left right = true

-- The comparator's `Greater`.
unfoldable pub goes_after : Pending → String → String → Bool
goes_after pending left right =
    groups_after (return_path_is_deleted_group left pending)
      (return_path_is_deleted_group right pending) (return_path_depth left)
      (return_path_depth right) left right

unfoldable pub sort_return_paths_for_execution : Pending → List String → List String
sort_return_paths_for_execution pending paths = sort_by (goes_after pending) paths

unfoldable pub expand_selected_return_paths : List String → Pending → List String
expand_selected_return_paths selected_paths pending =
    sort_return_paths_for_execution pending (expand_all pending selected_paths [])

-- What a selected path covers: itself if something is pending there or below, and what is pending
-- below it.
abbrev pub covers : Pending → String → String → Bool
covers pending path selected =
    selected == path && (is_some (lookup selected pending) || has_below selected pending)
    || any (λ entry. is_below selected entry && entry.0 == path) pending

contains-add_below :
    (selected path : String) (pending : Pending) (set : HashSet String)
    → contains path (add_below selected pending set)
      ≡ (any (λ entry. is_below selected entry && entry.0 == path) pending || contains path set)
contains-add_below selected path [] set = ground arith
contains-add_below selected path (entry ∷ pending) set = ground (
  arith,
  contains-add_below selected path pending set,
  contains-add_below selected path pending (add entry.0 set),
  contains-add entry.0 path set,
)

contains-expand_one :
    (pending : Pending) (selected path : String) (set : HashSet String)
    → contains path (expand_one pending selected set)
      ≡ (covers pending path selected || contains path set)
unfolding expand_one
contains-expand_one pending selected path set =
    let first = add_if (is_some (lookup selected pending)) selected set in
    let second = add_if (has_below selected pending) selected first in
    ground (
      arith,
      contains-add_below selected path pending second,
      contains-add selected path first,
      contains-add selected path set,
    )

contains-expand_all :
    (pending : Pending) (selected : List String) (path : String) (set : HashSet String)
    → contains path (expand_all pending selected set)
      ≡ (any (covers pending path) selected || contains path set)
unfolding expand_all
contains-expand_all pending [] path set = ground arith
contains-expand_all pending (s ∷ ss) path set = ground (
  arith,
  contains-expand_all pending ss path (expand_one pending s set),
  contains-expand_one pending s path set,
)

or_false : (b : Bool) → (b || false) ≡ b
or_false true = refl
or_false false = refl

-- One path may be executed before another: what is not deleted comes first, with the shallower paths
-- first, and then the deletions, with the deeper paths first.
abbrev in_order : Bool → Bool → ℕ → ℕ → Bool
in_order false false left_depth right_depth = leb left_depth right_depth
in_order true true left_depth right_depth = leb right_depth left_depth
in_order false true left_depth right_depth = true
in_order true false left_depth right_depth = false

abbrev pub MayPrecede : Pending → String → String → Type 0
MayPrecede pending left right =
    in_order (return_path_is_deleted_group left pending)
      (return_path_is_deleted_group right pending) (return_path_depth left)
      (return_path_depth right)
    ≡ true

in_order_trans :
    (a b c : Bool) (x y z : ℕ)
    → in_order a b x y ≡ true
    → in_order b c y z ≡ true
    → in_order a c x z ≡ true
in_order_trans false false false x y z h k = ground arith
in_order_trans false false true x y z h k = refl
in_order_trans false true false x y z h k = cc
in_order_trans false true true x y z h k = refl
in_order_trans true false c x y z h k = cc
in_order_trans true true false x y z h k = cc
in_order_trans true true true x y z h k = ground arith

groups_later :
    (a b : Bool) (x y : ℕ) (left right : String)
    → groups_after a b x y left right ≡ true
    → in_order b a y x ≡ true
groups_later false false x y left right h = ground arith
groups_later false true x y left right h = cc
groups_later true false x y left right h = refl
groups_later true true x y left right h = ground arith

groups_sooner :
    (a b : Bool) (x y : ℕ) (left right : String)
    → groups_after a b x y left right ≡ false
    → in_order a b x y ≡ true
groups_sooner false false x y left right h = ground arith
groups_sooner false true x y left right h = refl
groups_sooner true false x y left right h = cc
groups_sooner true true x y left right h = ground arith

pub goes_after_trans :
    (pending : Pending) (x y z : String)
    → MayPrecede pending x y
    → MayPrecede pending y z
    → MayPrecede pending x z
goes_after_trans pending x y z h k =
    in_order_trans (return_path_is_deleted_group x pending) (return_path_is_deleted_group y pending)
      (return_path_is_deleted_group z pending) (return_path_depth x) (return_path_depth y)
      (return_path_depth z) h k

pub goes_after_later :
    (pending : Pending) (x y : String) → goes_after pending x y ≡ true → MayPrecede pending y x
unfolding goes_after
goes_after_later pending x y h =
    groups_later (return_path_is_deleted_group x pending) (return_path_is_deleted_group y pending)
      (return_path_depth x) (return_path_depth y) x y h

pub goes_after_sooner :
    (pending : Pending) (x y : String) → goes_after pending x y ≡ false → MayPrecede pending x y
unfolding goes_after
goes_after_sooner pending x y h =
    groups_sooner (return_path_is_deleted_group x pending) (return_path_is_deleted_group y pending)
      (return_path_depth x) (return_path_depth y) x y h

abbrev pub IsExecutable : Pending → List String → Type 0
IsExecutable pending =
    IsOrdered (goes_after pending) (MayPrecede pending) (goes_after_trans pending)
      (goes_after_later pending) (goes_after_sooner pending)

-- A return covers exactly the selected paths at or below which something is pending, and what is
-- pending below them. Copies come before deletions, a copied directory before what lies in it, and a
-- deleted one after it.
pub expand_selected_return_paths_lem :
    (selected : List String) (pending : Pending)
    → ((path : String)
        → contains path (expand_selected_return_paths selected pending)
          ≡ any (covers pending path) selected)
      × IsExecutable pending (expand_selected_return_paths selected pending)
unfolding expand_selected_return_paths sort_return_paths_for_execution
expand_selected_return_paths_lem selected pending = (
  λ path.
      any-sort_by (goes_after pending) (λ y. y == path) (expand_all pending selected [])
      ∙ contains-expand_all pending selected path []
      ∙ or_false (any (covers pending path) selected),
  sort_by-IsOrdered (goes_after pending) (MayPrecede pending) (goes_after_trans pending)
      (goes_after_later pending) (goes_after_sooner pending) (expand_all pending selected []),
)
