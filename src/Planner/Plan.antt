-- ===== src/Planner/Plan.antt =====
-- Which actions `plan_sync` returns, apart from their order.
use lan_bridge.Base.{
  Bool, true, false, ◌&&◌, not, Option, none, some, List, [], ◌∷◌, ◌≡◌, refl, sym, ap, ◌∙◌, ◌↔◌,
  ◌⊎◌, inl, inr, Memᴰ, string_eq, arith, Bool-cases,
}
use lan_bridge.Base.Sort.{mem-perm}
use mathlib.Core.Bool.{false≢true}
use mathlib.Core.List.Memᴰ
use mathlib.Core.List.Permᴰ
use mathlib.Core.List.{Permᴰ}
use lan_bridge.Model.{
  DeviceRole, primary, secondary, file, apply_to_secondary, move_secondary_to_history,
  mark_pending_return, FileSnapshot, SyncBaseline, is_noop,
}
use lan_bridge.Planner.{
  PlannedAction, has_changed, is_live, baseline_for, has_live_snapshot, role_decision,
  delete_decision, snapshot_decision, snapshot_actions, deletion_actions, deletes_later, Sort,
  plan_sync,
}

-- A snapshot that the plan has to act on: it is live, and has no baseline or is a file that
-- differs from its baseline on the side of the role.
abbrev pub NeedsSync : List SyncBaseline → DeviceRole → FileSnapshot → Type 0
NeedsSync baselines role s =
    (is_live s ≡ true)
    × ((baseline_for s.relative_path baselines ≡ none)
        ⊎ ((b : SyncBaseline) × (baseline_for s.relative_path baselines ≡ some b)
            × (s.kind ≡ file)
            × (has_changed s b role ≡ true)))

abbrev pub snapshot_action : List SyncBaseline → DeviceRole → FileSnapshot → PlannedAction
snapshot_action baselines role s = record {
  relative_path = s.relative_path;
  decision = role_decision role;
  snapshot = some s;
  baseline = baseline_for s.relative_path baselines;
}

abbrev pub deletion_action : DeviceRole → SyncBaseline → PlannedAction
deletion_action role b = record {
  relative_path = b.relative_path;
  decision = delete_decision role;
  snapshot = none;
  baseline = some b;
}

-- The guard of the first loop.
abbrev acts : List SyncBaseline → DeviceRole → FileSnapshot → Bool
acts baselines role s =
    is_live s && not (is_noop (snapshot_decision role s (baseline_for s.relative_path baselines)))

Decides : DeviceRole → FileSnapshot → Option SyncBaseline → Type 0
Decides role s found =
    ((found ≡ none)
      ⊎ ((b : SyncBaseline) × (found ≡ some b) × (s.kind ≡ file) × (has_changed s b role ≡ true)))
    × (snapshot_decision role s found ≡ role_decision role)

acts→Decides :
    (role : DeviceRole) (s : FileSnapshot) (found : Option SyncBaseline)
    → is_noop (snapshot_decision role s found) ≡ false
    → Decides role s found
unfolding snapshot_decision Decides
acts→Decides role s none h = (inl refl, refl)
acts→Decides primary s (some b) h = (inr (b, refl, ground arith, ground arith), ground arith)
acts→Decides secondary s (some b) h = (inr (b, refl, ground arith, ground arith), ground arith)

acts→NeedsSync :
    (baselines : List SyncBaseline) (role : DeviceRole) (s : FileSnapshot)
    → acts baselines role s ≡ true
    → NeedsSync baselines role s
      × (snapshot_decision role s (baseline_for s.relative_path baselines) ≡ role_decision role)
unfolding Decides
acts→NeedsSync baselines role s h =
    let d = acts→Decides role s (baseline_for s.relative_path baselines) (ground arith) in
    ((ground arith, d.0), d.1)

NeedsSync→acts :
    (baselines : List SyncBaseline) (role : DeviceRole) (s : FileSnapshot)
    → NeedsSync baselines role s
    → acts baselines role s ≡ true
unfolding snapshot_decision
NeedsSync→acts baselines primary s h = ground arith
NeedsSync→acts baselines secondary s h = ground arith

pub snapshot_actions_sound :
    (baselines : List SyncBaseline) (role : DeviceRole) (ss : List FileSnapshot) {a : PlannedAction}
    → Memᴰ a (snapshot_actions baselines role ss)
    → (s : FileSnapshot) × Memᴰ s ss
      × NeedsSync baselines role s
      × (a ≡ snapshot_action baselines role s)
unfolding snapshot_actions
snapshot_actions_sound baselines role [] m = elim m [ ]
snapshot_actions_sound baselines role (s ∷ ss) m = elim (Bool-cases (acts baselines role s)) [
  | inl on ↦
      let (needs, same) = acts→NeedsSync baselines role s on in
      elim (Memᴰ.cases_cons (rw on at m)) [
        | inl e ↦ (s, Memᴰ.head refl, needs, e ∙ (rw same))
        | inr k ↦
            let (t, found, n, e) = snapshot_actions_sound baselines role ss k in
            (t, Memᴰ.tail found, n, e)
      ]
  | inr off ↦
      let (t, found, n, e) = snapshot_actions_sound baselines role ss (rw off at m) in
      (t, Memᴰ.tail found, n, e)
]

snapshot_actions_complete :
    (baselines : List SyncBaseline) (role : DeviceRole) (s : FileSnapshot) {ss : List FileSnapshot}
    → Memᴰ s ss
    → NeedsSync baselines role s
    → Memᴰ (snapshot_action baselines role s) (snapshot_actions baselines role ss)
unfolding snapshot_actions
snapshot_actions_complete baselines role s (Memᴰ.head {x = t} {xs} e) n =
    let on : acts baselines role t ≡ true = NeedsSync→acts baselines role t (rw e at n) in
    rw on (Memᴰ.head (rw (e, (acts→NeedsSync baselines role t on).1)))
snapshot_actions_complete baselines role s (Memᴰ.tail {x = t} {xs} m) n =
    elim (Bool-cases (acts baselines role t)) [
      | inl on ↦ rw on (Memᴰ.tail (snapshot_actions_complete baselines role s m n))
      | inr off ↦ rw off (snapshot_actions_complete baselines role s m n)
    ]

pub deletion_actions_sound :
    (ss : List FileSnapshot) (role : DeviceRole) (bs : List SyncBaseline) {a : PlannedAction}
    → Memᴰ a (deletion_actions ss role bs)
    → (b : SyncBaseline) × Memᴰ b bs
      × (has_live_snapshot b.relative_path ss ≡ false)
      × (a ≡ deletion_action role b)
unfolding deletion_actions
deletion_actions_sound ss role [] m = elim m [ ]
deletion_actions_sound ss role (b ∷ bs) m =
    elim (Bool-cases (has_live_snapshot b.relative_path ss)) [
      | inl there ↦
          let (c, found, n, e) = deletion_actions_sound ss role bs (rw there at m) in
          (c, Memᴰ.tail found, n, e)
      | inr gone ↦ elim (Memᴰ.cases_cons (rw gone at m)) [
        | inl e ↦ (b, Memᴰ.head refl, gone, e)
        | inr k ↦
            let (c, found, n, e) = deletion_actions_sound ss role bs k in (c, Memᴰ.tail found, n, e)
      ]
    ]

deletion_actions_complete :
    (ss : List FileSnapshot) (role : DeviceRole) (b : SyncBaseline) {bs : List SyncBaseline}
    → Memᴰ b bs
    → has_live_snapshot b.relative_path ss ≡ false
    → Memᴰ (deletion_action role b) (deletion_actions ss role bs)
unfolding deletion_actions
deletion_actions_complete ss role b (Memᴰ.head {x = c} {xs} e) n = rw (rw e at n) (Memᴰ.head (rw e))
deletion_actions_complete ss role b (Memᴰ.tail {x = c} {xs} m) n =
    elim (Bool-cases (has_live_snapshot c.relative_path ss)) [
      | inl there ↦ rw there (deletion_actions_complete ss role b m n)
      | inr gone ↦ rw gone (Memᴰ.tail (deletion_actions_complete ss role b m n))
    ]

mem-nil {ℓ} : {A : Type ℓ} {x : A} {xs : List A} → xs ≡ [] → Memᴰ x xs → ⊥
mem-nil e m = Memᴰ.not-nil (rw e at m)

pub no_mem-eq-nil {ℓ} : {A : Type ℓ} (xs : List A) → ((x : A) → Memᴰ x xs → ⊥) → xs ≡ []
no_mem-eq-nil [] h = refl
no_mem-eq-nil (x ∷ xs) h = absurd (h x (Memᴰ.head refl))

-- A sort keeps the elements, even where it leaves their order open.
module _ (sort : Sort)
    (permutes : (xs : List PlannedAction) → Permᴰ (sort deletes_later xs) xs) where
  -- Every action of a plan comes from a live snapshot that is new or differs from its baseline, or
  -- from a baseline with no live snapshot, and carries that entry's path, snapshot and baseline with
  -- the decision of the role, given that sorting keeps the elements.
  pub plan_sync_sound :
      (ss : List FileSnapshot) (bs : List SyncBaseline) (role : DeviceRole) {a : PlannedAction}
      → Memᴰ a (plan_sync sort ss bs role)
      → ((s : FileSnapshot) × Memᴰ s ss × NeedsSync bs role s × (a ≡ snapshot_action bs role s))
        ⊎ ((b : SyncBaseline) × Memᴰ b bs
            × (has_live_snapshot b.relative_path ss ≡ false)
            × (a ≡ deletion_action role b))
  unfolding plan_sync
  plan_sync_sound ss bs role m =
      elim (Memᴰ.append_cases (snapshot_actions bs role ss) (mem-perm (permutes _) m)) [
        | inl k ↦ inl (snapshot_actions_sound bs role ss k)
        | inr k ↦ inr (deletion_actions_sound ss role bs k)
      ]

  -- No change is missed: a live snapshot that is new or differs from its baseline has its action in
  -- the plan, and a baseline with no live snapshot has its deletion there, given that sorting keeps
  -- the elements.
  pub plan_sync_complete :
      (ss : List FileSnapshot) (bs : List SyncBaseline) (role : DeviceRole)
      → ((s : FileSnapshot)
          → Memᴰ s ss
          → NeedsSync bs role s
          → Memᴰ (snapshot_action bs role s) (plan_sync sort ss bs role))
        × ((b : SyncBaseline)
            → Memᴰ b bs
            → has_live_snapshot b.relative_path ss ≡ false
            → Memᴰ (deletion_action role b) (plan_sync sort ss bs role))
  unfolding plan_sync
  plan_sync_complete ss bs role = (
    λ s m n.
        mem-perm (Permᴰ.symm (permutes _))
          (Memᴰ.append_left _ (snapshot_actions_complete bs role s m n)),
    λ b m n.
        mem-perm (Permᴰ.symm (permutes _)) (
          Memᴰ.append_right (snapshot_actions bs role ss)
            (deletion_actions_complete ss role b m n)),
  )

  -- On the secondary every action of a plan marks a pending return; on the primary none does.
  pub plan_sync-by_role :
      (ss : List FileSnapshot) (bs : List SyncBaseline)
      → ((a : PlannedAction)
          → Memᴰ a (plan_sync sort ss bs secondary)
          → a.decision ≡ mark_pending_return)
        × ((a : PlannedAction)
            → Memᴰ a (plan_sync sort ss bs primary)
            → (a.decision ≡ apply_to_secondary) ⊎ (a.decision ≡ move_secondary_to_history))
  plan_sync-by_role ss bs = (
    λ a m. elim (plan_sync_sound ss bs secondary m) [
      | inl (s, _, _, e) ↦ ap (λ (x : PlannedAction). x.decision) e
      | inr (b, _, _, e) ↦ ap (λ (x : PlannedAction). x.decision) e
    ],
    λ a m. elim (plan_sync_sound ss bs primary m) [
      | inl (s, _, _, e) ↦ inl (ap (λ (x : PlannedAction). x.decision) e)
      | inr (b, _, _, e) ↦ inr (ap (λ (x : PlannedAction). x.decision) e)
    ],
  )

  -- A plan is empty exactly when nothing is to be done: no live snapshot is new or differs from its
  -- baseline, and every baseline still has a live snapshot.
  pub plan_sync-eq-nil_iff :
      (ss : List FileSnapshot) (bs : List SyncBaseline) (role : DeviceRole)
      → (plan_sync sort ss bs role ≡ []) ↔ (
          ((s : FileSnapshot) → Memᴰ s ss → ¬ NeedsSync bs role s)
          × ((b : SyncBaseline) → Memᴰ b bs → has_live_snapshot b.relative_path ss ≡ true))
  plan_sync-eq-nil_iff ss bs role = (
    λ e. (
      λ s m n. mem-nil e ((plan_sync_complete ss bs role).0 s m n),
      λ b m. elim (Bool-cases (has_live_snapshot b.relative_path ss)) [
        | inl there ↦ there
        | inr gone ↦ absurd (mem-nil e ((plan_sync_complete ss bs role).1 b m gone))
      ],
    ),
    λ h. no_mem-eq-nil _ λ a m. elim (plan_sync_sound ss bs role m) [
      | inl (s, k, n, _) ↦ h.0 s k n
      | inr (b, k, gone, _) ↦ false≢true (sym gone ∙ h.1 b k)
    ],
  )
