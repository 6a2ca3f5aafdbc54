-- ===== src/Planner/Order.antt =====
-- The order of a plan that only deletes: directories are emptied before they are removed.
use lan_bridge.Base.{
  ℕ, ◌≤◌, Bool, true, false, List, [], ◌∷◌, ◌++◌, ◌≡◌, arith, All, All-mem, All-of_mem, Memᴰ, sym,
}
use mathlib.Core.List.{Permᴰ}
use mathlib.Core.Path.{subst}
use lan_bridge.Base.Sort.{mem-perm}
use lan_bridge.Base.SortLaws.{IsInOrder, IsTotalOn}
use lan_bridge.Planner.Plan.{
  NeedsSync, snapshot_actions_sound, deletion_actions_sound, no_mem-eq-nil,
}
use lan_bridge.Model.{primary, FileSnapshot, SyncBaseline, is_move_to_history}
use lan_bridge.Planner.{
  PlannedAction, path_depth, snapshot_actions, deletion_actions, deletes_later, Sort, plan_sync,
}

abbrev pub depth : PlannedAction → ℕ
depth a = path_depth a.relative_path

abbrev pub is_move : PlannedAction → Bool
is_move a = is_move_to_history a.decision

-- Deletions only, none deeper than one before it.
abbrev pub DeepestFirst : List PlannedAction → Type 0
DeepestFirst [] = Unit
DeepestFirst (a ∷ rest) = (is_move a ≡ true) × All (λ c. depth c ≤ depth a) rest × DeepestFirst rest

abbrev Moves : List PlannedAction → Type 0
Moves = All (λ c. is_move c ≡ true)

deletions_total : (xs : List PlannedAction) → Moves xs → IsTotalOn deletes_later xs
unfolding deletes_later
deletions_total xs moves = (
  λ a b in_a in_b h.
      let here : is_move a ≡ true = All-mem (λ c. is_move c ≡ true) moves in_a in
      let there : is_move b ≡ true = All-mem (λ c. is_move c ≡ true) moves in_b in ground arith,
  λ a b c in_a in_b in_c h k.
      let first : is_move a ≡ true = All-mem (λ c. is_move c ≡ true) moves in_a in
      let second : is_move b ≡ true = All-mem (λ c. is_move c ≡ true) moves in_b in
      let third : is_move c ≡ true = All-mem (λ c. is_move c ≡ true) moves in_c in ground arith,
)

not_later :
    (x y : PlannedAction)
    → is_move x ≡ true
    → is_move y ≡ true
    → deletes_later x y ≡ false
    → depth y ≤ depth x
unfolding deletes_later
not_later x y h k e = ground arith

in_order-DeepestFirst :
    (xs : List PlannedAction) → Moves xs → IsInOrder deletes_later xs → DeepestFirst xs
in_order-DeepestFirst [] moves h = tt
in_order-DeepestFirst (x ∷ xs) moves h = (
  moves.0,
  All-of_mem (λ c. depth c ≤ depth x) xs
      (λ c m.
        not_later x c moves.0 (All-mem (λ c. is_move c ≡ true) moves.1 m)
          (All-mem (λ y. deletes_later x y ≡ false) h.0 m)),
  in_order-DeepestFirst xs moves.1 h.1,
)

nothing_copied :
    (ss : List FileSnapshot) (bs : List SyncBaseline)
    → ((s : FileSnapshot) → Memᴰ s ss → ¬ NeedsSync bs primary s)
    → snapshot_actions bs primary ss ≡ []
nothing_copied ss bs h =
    no_mem-eq-nil (snapshot_actions bs primary ss)
      (λ a m. let (s, among, needs, e) = snapshot_actions_sound bs primary ss m in h s among needs)

deletion_actions-Moves :
    (ss : List FileSnapshot) (bs : List SyncBaseline) → Moves (deletion_actions ss primary bs)
deletion_actions-Moves ss bs =
    All-of_mem _ _ λ a m. let (b, _, _, e) = deletion_actions_sound ss primary bs m in rw e

-- Where there is nothing to copy, a plan of the primary deletes and deletes the deepest first: no
-- deletion is of a path deeper than an earlier one, given that sorting keeps the elements and orders
-- them where the comparator is a total order on them.
pub plan_sync-DeepestFirst :
    (sort : Sort)
    → ((xs : List PlannedAction) → Permᴰ (sort deletes_later xs) xs)
    → ((xs : List PlannedAction)
        → IsTotalOn deletes_later xs
        → IsInOrder deletes_later (sort deletes_later xs))
    → (ss : List FileSnapshot) (bs : List SyncBaseline)
    → ((s : FileSnapshot) → Memᴰ s ss → ¬ NeedsSync bs primary s)
    → DeepestFirst (plan_sync sort ss bs primary)
unfolding plan_sync
plan_sync-DeepestFirst sort permutes orders ss bs unchanged =
    let deletions = deletion_actions ss primary bs in
    let moves = deletion_actions-Moves ss bs in
    subst (λ (xs : List PlannedAction). DeepestFirst (sort deletes_later (xs ++ deletions)))
      (sym (nothing_copied ss bs unchanged))
      (in_order-DeepestFirst (sort deletes_later deletions)
        (All-of_mem (λ c. is_move c ≡ true) (sort deletes_later deletions)
          (λ c m. All-mem (λ c. is_move c ≡ true) moves (mem-perm (permutes deletions) m)))
        (orders deletions (deletions_total deletions moves)))
