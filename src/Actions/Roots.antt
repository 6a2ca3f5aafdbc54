-- ===== src/Actions/Roots.antt =====
-- src-tauri/src/commands/mod.rs: the roots of two tasks must not overlap. `comparable` gives the
-- components of a path as the file system resolves it, `comparable_path_components`.
use lan_bridge.Base.{
  ap, ◌++◌, ◌↔◌, String, ◌<>◌, Bool, true, false, ◌&&◌, ◌||◌, Option, none, some, List, [], ◌∷◌,
  ◌≡◌, ◌≢◌, ◌⊎◌, refl, sym, ◌∙◌, inl, inr, arith, Bool-cases, if◌then◌else◌, ◌==◌, string_eq,
  eq_iff, All,
}
use mathlib.Core.Option.{none-ne-some}
use mathlib.Core.Bool.{true≢false}
use lan_bridge.Model.{SyncTask}

-- `prefix.len() <= path.len()`, and the components agree pairwise.
unfoldable pub is_prefix_path : List String → List String → Bool
is_prefix_path [] path = true
is_prefix_path (p ∷ ps) [] = false
is_prefix_path (p ∷ ps) (c ∷ cs) = p == c && is_prefix_path ps cs

abbrev components_overlap : List String → List String → Bool
components_overlap [] right = false
components_overlap (l ∷ left) [] = false
components_overlap (l ∷ left) (r ∷ right) =
    is_prefix_path (l ∷ left) (r ∷ right) || is_prefix_path (r ∷ right) (l ∷ left)

module _ (comparable : String → List String) where
  unfoldable pub paths_overlap : String → String → Bool
  paths_overlap left right = components_overlap (comparable left) (comparable right)

  -- The error of the check, if it fails.
  unfoldable pub validate_no_overlapping_task_roots : List SyncTask → String → Option String
  validate_no_overlapping_task_roots [] new_local_path = none
  validate_no_overlapping_task_roots (task ∷ tasks) new_local_path =
      let rest = validate_no_overlapping_task_roots tasks new_local_path in
      if paths_overlap task.local_path new_local_path
      then some ("sync folder overlaps with existing task '" <> (task.name <> "'"))
      else rest

two_prefixes :
    (left right path : List String)
    → is_prefix_path left path ≡ true
    → is_prefix_path right path ≡ true
    → (is_prefix_path left right || is_prefix_path right left) ≡ true
unfolding is_prefix_path
two_prefixes [] right path h k = refl
two_prefixes (l ∷ left) [] path h k = ground arith
two_prefixes (l ∷ left) (r ∷ right) [] h k = cc
two_prefixes (l ∷ left) (r ∷ right) (c ∷ path) h k =
    let heads : l ≡ r = ground (arith, eq_iff l c, eq_iff r c) in
    let rest = two_prefixes left right path (ground arith) (ground arith) in
    ground (arith, eq_iff l r, eq_iff r l)

components_overlap_shared :
    (left right path : List String)
    → is_prefix_path left path ≡ true
    → is_prefix_path right path ≡ true
    → components_overlap left right ≡ false
    → (left ≡ []) ⊎ (right ≡ [])
components_overlap_shared [] right path h k apart = inl refl
components_overlap_shared (l ∷ left) [] path h k apart = inr refl
components_overlap_shared (l ∷ left) (r ∷ right) path h k apart =
    let both = two_prefixes (l ∷ left) (r ∷ right) path h k in
    absurd (true≢false (sym both ∙ apart))

module _ (comparable : String → List String) where
  no_overlap_left :
      (tasks : List SyncTask) (path : String)
      → validate_no_overlapping_task_roots comparable tasks path ≡ none
      → All (λ t. paths_overlap comparable t.local_path path ≡ false) tasks
  unfolding validate_no_overlapping_task_roots
  no_overlap_left [] path h = tt
  no_overlap_left (t ∷ tasks) path h =
      elim (Bool-cases (paths_overlap comparable t.local_path path)) [
        | inl overlap ↦
            absurd (none-ne-some _ (sym (rw (overlap, validate_no_overlapping_task_roots) at h)))
        | inr apart ↦ (
          apart,
          no_overlap_left tasks path (rw (apart, validate_no_overlapping_task_roots) at h),
        )
      ]

  no_overlap_passes :
      (tasks : List SyncTask) (path : String)
      → All (λ t. paths_overlap comparable t.local_path path ≡ false) tasks
      → validate_no_overlapping_task_roots comparable tasks path ≡ none
  unfolding validate_no_overlapping_task_roots
  no_overlap_passes [] path h = refl
  no_overlap_passes (t ∷ tasks) path h =
      rw (h.0, validate_no_overlapping_task_roots) (no_overlap_passes tasks path h.1)

-- The components of a path go on from those of a root.
abbrev pub IsIn : List String → List String → Type 0
IsIn path root = (rest : List String) × (path ≡ root ++ rest)

prefix-IsIn : (root path : List String) → is_prefix_path root path ≡ true → IsIn path root
unfolding is_prefix_path
prefix-IsIn [] path h = (path, refl)
prefix-IsIn (r ∷ root) [] h = cc
prefix-IsIn (r ∷ root) (c ∷ path) h =
    let (rest, e) = prefix-IsIn root path (ground arith) in
    let same : r ≡ c = (eq_iff r c).0 (ground arith) in (rest, rw (same, e) refl)

is_in_prefix : (root rest : List String) → is_prefix_path root (root ++ rest) ≡ true
unfolding is_prefix_path
is_in_prefix [] rest = refl
is_in_prefix (r ∷ root) rest = ground (arith, eq_iff r r, is_in_prefix root rest)

append_nil : (xs : List String) → xs ++ [] ≡ xs
append_nil [] = refl
append_nil (x ∷ xs) = ap (λ (ys : List String). x ∷ ys) (append_nil xs)

-- No path lies in both folders.
abbrev pub AreApart : List String → List String → Type 0
AreApart left right = (path : List String) → IsIn path left → IsIn path right → ⊥

prefix_not_apart :
    (left right : List String) → is_prefix_path left right ≡ true → AreApart left right → ⊥
prefix_not_apart left right h apart =
    apart right (prefix-IsIn left right h) ([], sym (append_nil right))

prefixes_iff :
    (left right : List String)
    → left ≢ []
    → right ≢ []
    → (components_overlap left right ≡ false) ↔ AreApart left right
prefixes_iff [] right some_left some_right = absurd (some_left refl)
prefixes_iff (l ∷ left) [] some_left some_right = absurd (some_right refl)
prefixes_iff (l ∷ left) (r ∷ right) some_left some_right = (
  λ h path (more, e) (rest, k).
      let in_left : is_prefix_path (l ∷ left) path ≡ true = rw e (is_in_prefix (l ∷ left) more) in
      let in_right : is_prefix_path (r ∷ right) path ≡ true =
        rw k (is_in_prefix (r ∷ right) rest) in
      elim (components_overlap_shared (l ∷ left) (r ∷ right) path in_left in_right h) [
        | inl empty ↦ some_left empty
        | inr empty ↦ some_right empty
      ],
  λ apart. elim (Bool-cases (is_prefix_path (l ∷ left) (r ∷ right))) [
    | inl under ↦ absurd (prefix_not_apart (l ∷ left) (r ∷ right) under apart)
    | inr one ↦ elim (Bool-cases (is_prefix_path (r ∷ right) (l ∷ left))) [
      | inl over ↦
          absurd (prefix_not_apart (r ∷ right) (l ∷ left) over (λ path i j. apart path j i))
      | inr two ↦ rw (one, two) refl
    ]
  ],
)

module _ (comparable : String → List String) where
  apart_iff :
      (tasks : List SyncTask) (path : String)
      → comparable path ≢ []
      → All (λ t. comparable t.local_path ≢ []) tasks
      → All (λ t. paths_overlap comparable t.local_path path ≡ false) tasks
        ↔ All (λ t. AreApart (comparable t.local_path) (comparable path)) tasks
  unfolding paths_overlap
  apart_iff [] path some_new some_roots = (λ h. tt, λ h. tt)
  apart_iff (t ∷ tasks) path some_new some_roots =
      let here = prefixes_iff (comparable t.local_path) (comparable path) some_roots.0 some_new in
      let there = apart_iff tasks path some_new some_roots.1 in
      (λ h. (here.0 h.0, there.0 h.1), λ h. (here.1 h.0, there.1 h.1))

  -- Where the roots have components, a new root passes the check exactly when no path lies both in it
  -- and in the folder of an existing task.
  pub validate_no_overlapping_task_roots-none_iff :
      (tasks : List SyncTask) (new_local_path : String)
      → comparable new_local_path ≢ []
      → All (λ t. comparable t.local_path ≢ []) tasks
      → (validate_no_overlapping_task_roots comparable tasks new_local_path ≡ none)
        ↔ All (λ t. AreApart (comparable t.local_path) (comparable new_local_path)) tasks
  validate_no_overlapping_task_roots-none_iff tasks path some_new some_roots =
      let apart = apart_iff tasks path some_new some_roots in
      (
        λ h. apart.0 (no_overlap_left comparable tasks path h),
        λ h. no_overlap_passes comparable tasks path (apart.1 h),
      )
