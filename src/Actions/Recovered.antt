-- ===== src/Actions/Recovered.antt =====
-- The deletions that the recovery adds to a plan.
use lan_bridge.Base.{
  String, true, false, ◌&&◌, none, some, List, [], ◌∷◌, ◌++◌, ◌≡◌, refl, ◌↔◌, inl, inr, Memᴰ, ◌==◌,
  option_eq, string_eq, int_eq, Bool-cases, length,
}
use lan_bridge.Model.{move_secondary_to_history, FileSnapshot, SyncBaseline}
use lan_bridge.Planner.{PlannedAction, is_live, has_live_snapshot}
use mathlib.Core.List.Memᴰ
use lan_bridge.Base.{All, ◌≢◌, ◌⊎◌, eq_iff, arith, ap, sym, ◌∙◌}
use mathlib.Core.Bool.{true≢false}
use lan_bridge.Actions.Recovery.{
  recovered, recovered_action, skips_recovery, has_path, append_recovered_delete_actions,
}

mem-recovered :
    (actions : List PlannedAction) (current : List FileSnapshot) (baselines : List SyncBaseline)
    (cached : List FileSnapshot) {a : PlannedAction}
    → Memᴰ a (recovered actions current baselines cached)
    → (s : FileSnapshot) × Memᴰ s cached
      × (skips_recovery actions current baselines s ≡ false)
      × (a ≡ recovered_action s)
unfolding recovered
mem-recovered actions current baselines [] m = elim m [ ]
mem-recovered actions current baselines (s ∷ ss) m =
    elim (Bool-cases (skips_recovery actions current baselines s)) [
      | inl skipped ↦
          let (t, there, test, e) = mem-recovered actions current baselines ss (rw skipped at m) in
          (t, Memᴰ.tail there, test, e)
      | inr taken ↦ elim (Memᴰ.cases_cons (rw taken at m)) [
        | inl e ↦ (s, Memᴰ.head refl, taken, e)
        | inr k ↦
            let (t, there, test, e) = mem-recovered actions current baselines ss k in
            (t, Memᴰ.tail there, test, e)
      ]
    ]

recovered_of_mem :
    (actions : List PlannedAction) (current : List FileSnapshot) (baselines : List SyncBaseline)
    (s : FileSnapshot) {cached : List FileSnapshot}
    → Memᴰ s cached
    → skips_recovery actions current baselines s ≡ false
    → Memᴰ (recovered_action s) (recovered actions current baselines cached)
unfolding recovered
recovered_of_mem actions current baselines s (Memᴰ.head {x = t} {xs} e) h =
    rw (rw e at h) (Memᴰ.head (rw e refl))
recovered_of_mem actions current baselines s (Memᴰ.tail {x = t} {xs} m) h =
    elim (Bool-cases (skips_recovery actions current baselines t)) [
      | inl skipped ↦ rw skipped (recovered_of_mem actions current baselines s m h)
      | inr taken ↦ rw taken (Memᴰ.tail (recovered_of_mem actions current baselines s m h))
    ]

no_path_iff {ℓ} :
    {A : Type ℓ} (path_of : A → String) (path : String) (xs : List A)
    → (has_path path_of path xs ≡ false) ↔ All (λ x. path_of x ≢ path) xs
no_path_iff path_of path [] = (λ h. tt, λ h. refl)
no_path_iff path_of path (x ∷ xs) = (
  λ h. (
    λ e. absurd (true≢false (sym ((eq_iff (path_of x) path).1 e) ∙ ground arith)),
    (no_path_iff path_of path xs).0 (ground arith),
  ),
  λ h. elim (Bool-cases (path_of x == path)) [
    | inl same ↦ absurd (h.0 ((eq_iff (path_of x) path).0 same))
    | inr other ↦ let rest = (no_path_iff path_of path xs).1 h.1 in rw other rest
  ],
)

-- The snapshot is not a live one of the path.
abbrev IsOther : String → FileSnapshot → Type 0
IsOther path c = (c.relative_path ≢ path) ⊎ ((c.is_deleted ≡ true) ⊎ (c.is_symlink ≡ true))

not_here :
    (path : String) (c : FileSnapshot)
    → (is_live c && c.relative_path == path) ≡ false
    → IsOther path c
not_here path c h = elim (Bool-cases c.is_deleted) [
  | inl gone ↦ inr (inl gone)
  | inr there ↦ elim (Bool-cases c.is_symlink) [
    | inl link ↦ inr (inr link)
    | inr plain ↦
        inl (λ e. absurd (true≢false (sym ((eq_iff c.relative_path path).1 e) ∙ ground arith)))
  ]
]

other_here :
    (path : String) (c : FileSnapshot)
    → IsOther path c
    → (is_live c && c.relative_path == path) ≡ false
other_here path c (inl differs) = elim (Bool-cases (c.relative_path == path)) [
  | inl same ↦ absurd (differs ((eq_iff c.relative_path path).0 same))
  | inr other ↦ ground arith
]
other_here path c (inr (inl gone)) = ground arith
other_here path c (inr (inr link)) = ground arith

no_live_iff :
    (path : String) (current : List FileSnapshot)
    → (has_live_snapshot path current ≡ false) ↔ All (IsOther path) current
unfolding has_live_snapshot
no_live_iff path [] = (λ h. tt, λ h. refl)
no_live_iff path (c ∷ cs) = (
  λ h. (not_here path c (ground arith), (no_live_iff path cs).0 (ground arith)),
  λ h. let here = other_here path c h.0 in let rest = (no_live_iff path cs).1 h.1 in ground arith,
)

-- A cached snapshot whose deletion is to be recovered: it is live, and its path has no live current
-- snapshot, no baseline and no action.
abbrev pub IsRecoverable :
    List PlannedAction → List FileSnapshot → List SyncBaseline → FileSnapshot → Type 0
IsRecoverable actions current baselines s =
    (s.is_deleted ≡ false)
    × (s.is_symlink ≡ false)
    × All (IsOther s.relative_path) current
    × All (λ (b : SyncBaseline). b.relative_path ≢ s.relative_path) baselines
    × All (λ (a : PlannedAction). a.relative_path ≢ s.relative_path) actions

skips_recovery-false_iff :
    (actions : List PlannedAction) (current : List FileSnapshot) (baselines : List SyncBaseline)
    (s : FileSnapshot)
    → (skips_recovery actions current baselines s ≡ false)
      ↔ IsRecoverable actions current baselines s
skips_recovery-false_iff actions current baselines s =
    let live = no_live_iff s.relative_path current in
    let known = no_path_iff (λ (b : SyncBaseline). b.relative_path) s.relative_path baselines in
    let planned = no_path_iff (λ (a : PlannedAction). a.relative_path) s.relative_path actions in
    (
      λ h. (
        ground arith,
        ground arith,
        live.0 (ground arith),
        known.0 (ground arith),
        planned.0 (ground arith),
      ),
      λ (here, plain, a, b, c).
          let x = live.1 a in
          let y = known.1 b in let z = planned.1 c in rw (here, plain, x, y, z) refl,
    )

same_action :
    (a : PlannedAction) (s : FileSnapshot)
    → a.relative_path ≡ s.relative_path
    → a.decision ≡ move_secondary_to_history
    → a.snapshot ≡ some s
    → a.baseline ≡ none
    → a ≡ recovered_action s
same_action a s p d n b = cc

-- The recovery keeps the plan as the front of the new list, reports the number of actions added, and
-- adds exactly a deletion with the cached snapshot and without a baseline for each live cached
-- snapshot whose path has no live current snapshot, no baseline and no action.
pub append_recovered-exact :
    (actions : List PlannedAction) (cached current : List FileSnapshot)
    (baselines : List SyncBaseline)
    → (added : List PlannedAction) × ((append_recovered_delete_actions actions cached current
          baselines).0
        ≡ actions ++ added)
      × ((append_recovered_delete_actions actions cached current baselines).1 ≡ length added)
      × ((a : PlannedAction)
          → Memᴰ a added ↔ (
              (s : FileSnapshot) × Memᴰ s cached
              × IsRecoverable actions current baselines s
              × (a.relative_path ≡ s.relative_path)
              × (a.decision ≡ move_secondary_to_history)
              × (a.snapshot ≡ some s)
              × (a.baseline ≡ none)))
unfolding append_recovered_delete_actions
append_recovered-exact actions cached current baselines = (
  recovered actions current baselines cached,
  refl,
  refl,
  λ a. (
    λ m.
        let (s, there, test, e) = mem-recovered actions current baselines cached m in
        (
          s,
          there,
          (skips_recovery-false_iff actions current baselines s).0 test,
          ap (λ (x : PlannedAction). x.relative_path) e,
          ap (λ (x : PlannedAction). x.decision) e,
          ap (λ (x : PlannedAction). x.snapshot) e,
          ap (λ (x : PlannedAction). x.baseline) e,
        ),
    λ (s, there, test, path, decision, snapshot, baseline).
        rw (same_action a s path decision snapshot baseline) (
          recovered_of_mem actions current baselines s there
            ((skips_recovery-false_iff actions current baselines s).1 test)),
  ),
)
