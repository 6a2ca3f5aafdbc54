-- ===== src/Actions/Compress.antt =====
-- commands/mod.rs: `compress_directory_delete_actions`, which drops the deletions below a directory
-- that is deleted as a whole.
use lan_bridge.Base.{
  ℕ, suc, zero, ◌+◌, ◌<◌, String, Bool, true, false, ◌&&◌, ◌||◌, not, Option, none, some, List, ◌≡◌,
  refl, sym, ap, ◌∙◌, ◌⊎◌, inl, inr, Memᴰ, ◌==◌, string_eq, arith, Bool-cases, map, filter, any,
  mem-filter, mem-filter_of_mem, any-mem, any_of_mem, ◌<>◌,
}
use lan_bridge.Base.Text.{
  starts_with, strip_prefix, slash_follows, strip_prefix-append, strip_prefix_self,
}
use mathlib.Core.List.Memᴰ
use text.Mathlib.TextLemmas.{nil-append, cons-append, append_assoc}
use lan_bridge.Model.{is_move_to_history}
use lan_bridge.Planner.{PlannedAction}
use lan_bridge.Actions.{action_is_directory_delete, is_descendant_path}

-- The paths of the directories that are deleted.
unfoldable pub directory_deletes : List PlannedAction → List String
unfolding action_is_directory_delete filter
directory_deletes actions =
    map (λ a. a.relative_path)
      (filter (λ a. is_move_to_history a.decision && action_is_directory_delete a) actions)

-- `action.relative_path != *dir && is_descendant_path(&action.relative_path, dir)`
abbrev pub is_inside : String → String → Bool
is_inside path dir = not (path == dir) && is_descendant_path path dir

abbrev pub retains : List String → PlannedAction → Bool
retains dirs action =
    not (is_move_to_history action.decision) || not (any (is_inside action.relative_path) dirs)

unfoldable pub compress_directory_delete_actions : List PlannedAction → List PlannedAction
unfolding directory_deletes
compress_directory_delete_actions actions = filter (retains (directory_deletes actions)) actions

-- The number of characters, by which a directory is shorter than what is in it.
chars : String → ℕ
chars String.[] = 0
chars (String.◌∷◌ c s) = suc (chars s)

chars-append : (s t : String) → chars (s <> t) ≡ chars s + chars t
unfolding chars
chars-append String.[] t = rw nil-append (omega arith)
chars-append (String.◌∷◌ c s) t = rw cons-append (omega (arith, chars-append s t))

-- What follows the directory in the path of a descendant.
descendant-suffix :
    (path dir : String)
    → is_descendant_path path dir ≡ true
    → (rest : String) × (path ≡ dir <> rest) × (starts_with rest "/" ≡ true)
unfolding is_descendant_path slash_follows
descendant-suffix path dir h = go (strip_prefix dir path) refl h
  where
    go :
        (found : Option String)
        → strip_prefix dir path ≡ found
        → slash_follows found ≡ true
        → (rest : String) × (path ≡ dir <> rest) × (starts_with rest "/" ≡ true)
    go none e k = cc
    go (some rest) e k = (rest, strip_prefix-append dir path rest e, k)

suffix-descendant :
    (dir rest : String) → starts_with rest "/" ≡ true → is_descendant_path (dir <> rest) dir ≡ true
unfolding is_descendant_path slash_follows
suffix-descendant dir rest h = rw (strip_prefix_self dir rest) h

slash-append :
    (rest more : String) → starts_with rest "/" ≡ true → starts_with (rest <> more) "/" ≡ true
unfolding strip_prefix
slash-append String.[] more h = cc
slash-append (String.◌∷◌ c s) more h = rw cons-append (ground arith)

-- What is in a directory of a directory is in the outer one.
pub descendant_trans :
    (path inner outer : String)
    → is_descendant_path path inner ≡ true
    → is_descendant_path inner outer ≡ true
    → is_descendant_path path outer ≡ true
descendant_trans path inner outer h k =
    let (rest, e, slash) = descendant-suffix path inner h in
    let (middle, f, first) = descendant-suffix inner outer k in
    rw (e ∙ (ap (λ s. s <> rest) f ∙ append_assoc outer middle rest))
      (suffix-descendant outer (middle <> rest) (slash-append middle rest first))

descendant-shorter :
    (path dir : String) → is_descendant_path path dir ≡ true → chars dir < chars path
unfolding strip_prefix chars
descendant-shorter path dir h = go (descendant-suffix path dir h)
  where
    nonempty : (rest : String) → starts_with rest "/" ≡ true → 0 < chars rest
    nonempty String.[] k = cc
    nonempty (String.◌∷◌ c s) k = omega arith

    go :
        ((rest : String) × (path ≡ dir <> rest) × (starts_with rest "/" ≡ true))
        → chars dir < chars path
    go (rest, e, slash) = rw e (omega (arith, chars-append dir rest, nonempty rest slash))

abbrev pub deletes_directory : PlannedAction → Bool
deletes_directory a = is_move_to_history a.decision && action_is_directory_delete a

-- A directory deletion at the path of the directory or of one that contains it is kept.
abbrev KeptAbove : List PlannedAction → String → Type 0
KeptAbove actions dir =
    (r : PlannedAction) × Memᴰ r (compress_directory_delete_actions actions)
    × (deletes_directory r ≡ true)
    × ((dir ≡ r.relative_path) ⊎ (is_descendant_path dir r.relative_path ≡ true))

mem-directory_deletes :
    (actions : List PlannedAction) (dir : String)
    → Memᴰ dir (directory_deletes actions)
    → (a : PlannedAction) × Memᴰ a actions × (deletes_directory a ≡ true) × (a.relative_path ≡ dir)
unfolding directory_deletes
mem-directory_deletes actions dir m =
    let (a, found, same) =
      Memᴰ.of_map (λ a. a.relative_path) (filter deletes_directory actions) m in
    let (there, test) = mem-filter deletes_directory actions found in (a, there, test, same)

above :
    (actions : List PlannedAction) (inner outer : String)
    → is_descendant_path inner outer ≡ true
    → KeptAbove actions outer
    → KeptAbove actions inner
above actions inner outer h (r, kept, test, inl same) = (r, kept, test, inr (rw (sym same) h))
above actions inner outer h (r, kept, test, inr further) =
    (r, kept, test, inr (descendant_trans inner outer r.relative_path h further))

-- By the length of the path, `n` being a bound of it.
directory-KeptAbove :
    (n : ℕ) (actions : List PlannedAction) (dir : String)
    → chars dir < n
    → Memᴰ dir (directory_deletes actions)
    → KeptAbove actions dir
unfolding compress_directory_delete_actions
directory-KeptAbove zero actions dir short m = absurd (omega arith)
directory-KeptAbove (suc n) actions dir short m =
    let (a, there, test, same) = mem-directory_deletes actions dir m in
    elim (Bool-cases (any (is_inside dir) (directory_deletes actions))) [
      | inl nested ↦
          let (outer, found, inside) = any-mem (is_inside dir) (directory_deletes actions) nested in
          let below : is_descendant_path dir outer ≡ true = ground arith in
          above actions dir outer below (
            directory-KeptAbove n actions outer
              (omega (arith, descendant-shorter dir outer below, short)) found)
      | inr outermost ↦ (
        a,
        mem-filter_of_mem (retains (directory_deletes actions)) there
            (rw same (rw outermost (ground arith))),
        test,
        inl (sym same),
      )
    ]

-- Compressing loses no deletion: every action is kept, or is a deletion inside a directory whose
-- own deletion is kept.
pub compress-covers :
    (actions : List PlannedAction) (a : PlannedAction)
    → Memᴰ a actions
    → Memᴰ a (compress_directory_delete_actions actions)
      ⊎ ((is_move_to_history a.decision ≡ true)
          × ((r : PlannedAction) × Memᴰ r (compress_directory_delete_actions actions)
              × (deletes_directory r ≡ true)
              × (is_descendant_path a.relative_path r.relative_path ≡ true)))
unfolding compress_directory_delete_actions
compress-covers actions a m = elim (Bool-cases (retains (directory_deletes actions) a)) [
  | inl stays ↦ inl (mem-filter_of_mem (retains (directory_deletes actions)) m stays)
  | inr goes ↦
      let (dir, found, inside) =
        any-mem (is_inside a.relative_path) (directory_deletes actions) (ground arith) in
      let below : is_descendant_path a.relative_path dir ≡ true = ground arith in
      let (r, kept, test, where_) =
        directory-KeptAbove (suc (chars dir)) actions dir (omega arith) found in
      inr (
        ground arith,
        (
          r,
          kept,
          test,
          elim where_ [
            | inl same ↦ rw (sym same) below
            | inr further ↦ descendant_trans a.relative_path dir r.relative_path below further
          ],
        ),
      )
]

-- Compressing adds nothing, and keeps no deletion inside a directory that is deleted.
pub compress-minimal :
    (actions : List PlannedAction) (a : PlannedAction)
    → Memᴰ a (compress_directory_delete_actions actions)
    → Memᴰ a actions
      × (is_move_to_history a.decision ≡ true
          → (d : PlannedAction) → Memᴰ d actions
          → deletes_directory d ≡ true
          → is_inside a.relative_path d.relative_path ≡ false)
unfolding compress_directory_delete_actions directory_deletes
compress-minimal actions a m =
    let (there, test) = mem-filter (retains (directory_deletes actions)) actions m in
    (
      there,
      λ moves d found deletes. elim (Bool-cases (is_inside a.relative_path d.relative_path)) [
        | inl inside ↦
            let listed =
              Memᴰ.map (λ x. x.relative_path) (mem-filter_of_mem deletes_directory found deletes) in
            let hit = any_of_mem (is_inside a.relative_path) listed inside in ground arith
        | inr outside ↦ outside
      ],
    )
