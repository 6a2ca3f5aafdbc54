-- ===== src/Conflict/Detection.antt =====
-- When `detect_conflict` lets a pending change through.
use lan_bridge.Base.{
  String, true, false, ◌||◌, not, Option, none, some, ◌≡◌, refl, ◌↔◌, ◌⊎◌, inl, inr, ◌≢◌, ◌∙◌,
  string_eq, int_eq, eq_iff, arith, Bool-cases,
}
use lan_bridge.Model.{
  modified, verified, primary, FileSnapshot, SyncBaseline, PendingReturnChange, is_verified,
}
use lan_bridge.Planner.{has_changed}
use lan_bridge.Conflict.{
  ConflictResult, no_conflict, conflict, has_primary_changed_since_baseline,
  detect_missing_primary_conflict, present_primary_conflict, detect_conflict,
}

-- The planner of the primary and the conflict check agree on what a change of the primary is.
pub has_primary_changed-eq-has_changed :
    (p : FileSnapshot) (b : SyncBaseline)
    → has_primary_changed_since_baseline p b ≡ has_changed p b primary
unfolding has_primary_changed_since_baseline has_changed
has_primary_changed-eq-has_changed p b = ground arith

-- The hash is authoritative: of two verified hashes, equal ones mean no change and different ones
-- mean a change, whatever the sizes and times say.
pub has_primary_changed_iff_hashes :
    (p : FileSnapshot) (b : SyncBaseline) (h k : String)
    → p.hash_status ≡ verified
    → b.primary_hash_status ≡ verified
    → p.blake3_hash ≡ some h
    → b.primary_hash ≡ some k
    → (has_primary_changed_since_baseline p b ≡ true) ↔ (h ≢ k)
unfolding has_primary_changed_since_baseline
has_primary_changed_iff_hashes p b h k pv bv ph bk =
    (λ c. ground (arith, eq_iff h k), λ c. ground (arith, eq_iff h k))

-- The primary file is there.
abbrev pub IsPresent : Option FileSnapshot → FileSnapshot → Type 0
IsPresent current p = (current ≡ some p) × (p.is_deleted ≡ false)

abbrev pub IsMissing : Option FileSnapshot → Type 0
IsMissing current =
    (current ≡ none) ⊎ ((p : FileSnapshot) × (current ≡ some p) × (p.is_deleted ≡ true))

-- The situations in which a pending change overwrites nothing that the user has not seen.
pub data IsSafe (pending : PendingReturnChange) (current : Option FileSnapshot)
    (baseline : Option SyncBaseline) : Type 0 where
  unchanged_primary :
      (p : FileSnapshot) (b : SyncBaseline)
      → IsPresent current p
      → baseline ≡ some b
      → has_primary_changed_since_baseline p b ≡ false
      → IsSafe pending current baseline
  missing_not_modified :
      IsMissing current → pending.change_kind ≢ modified → IsSafe pending current baseline
  missing_unknown : IsMissing current → baseline ≡ none → IsSafe pending current baseline

missing→IsSafe :
    (pending : PendingReturnChange) (current : Option FileSnapshot) (baseline : Option SyncBaseline)
    → IsMissing current
    → detect_missing_primary_conflict pending baseline ≡ no_conflict
    → IsSafe pending current baseline
unfolding detect_missing_primary_conflict
missing→IsSafe pending current none m h = missing_unknown m refl
missing→IsSafe pending current (some b) m h = missing_not_modified m (λ e. ground arith)

present→IsSafe :
    (pending : PendingReturnChange) (p : FileSnapshot) (baseline : Option SyncBaseline)
    → p.is_deleted ≡ false
    → present_primary_conflict pending p baseline ≡ no_conflict
    → IsSafe pending (some p) baseline
unfolding present_primary_conflict
present→IsSafe pending p none there h = cc
present→IsSafe pending p (some b) there h =
    elim (Bool-cases (has_primary_changed_since_baseline p b)) [
      | inl changed ↦ cc (rw changed at h)
      | inr same ↦ unchanged_primary p b (refl, there) refl same
    ]

no_conflict→IsSafe :
    (pending : PendingReturnChange) (current : Option FileSnapshot) (baseline : Option SyncBaseline)
    → detect_conflict pending current baseline ≡ no_conflict
    → IsSafe pending current baseline
unfolding detect_conflict
no_conflict→IsSafe pending none baseline h = missing→IsSafe pending none baseline (inl refl) h
no_conflict→IsSafe pending (some p) baseline h = elim (Bool-cases p.is_deleted) [
  | inl gone ↦ missing→IsSafe pending (some p) baseline (inr (p, refl, gone)) (rw gone at h)
  | inr there ↦ present→IsSafe pending p baseline there (rw there at h)
]

detect_missing :
    (pending : PendingReturnChange) (current : Option FileSnapshot) (baseline : Option SyncBaseline)
    → IsMissing current
    → detect_conflict pending current baseline ≡ detect_missing_primary_conflict pending baseline
unfolding detect_conflict
detect_missing pending current baseline (inl e) = rw e
detect_missing pending current baseline (inr (p, e, gone)) = rw e (rw gone)

missing_no_conflict :
    (pending : PendingReturnChange) (baseline : Option SyncBaseline)
    → (pending.change_kind ≢ modified) ⊎ (baseline ≡ none)
    → detect_missing_primary_conflict pending baseline ≡ no_conflict
unfolding detect_missing_primary_conflict
missing_no_conflict pending none h = ground arith
missing_no_conflict pending (some b) h = ground arith

IsSafe→no_conflict :
    (pending : PendingReturnChange) (current : Option FileSnapshot) (baseline : Option SyncBaseline)
    → IsSafe pending current baseline
    → detect_conflict pending current baseline ≡ no_conflict
unfolding detect_conflict
IsSafe→no_conflict pending current baseline (unchanged_primary p b here known same) =
    rw here.0 (rw (known, here.1) (rw same))
IsSafe→no_conflict pending current baseline (missing_not_modified m other) =
    detect_missing pending current baseline m ∙ missing_no_conflict pending baseline (inl other)
IsSafe→no_conflict pending current baseline (missing_unknown m unknown) =
    detect_missing pending current baseline m ∙ missing_no_conflict pending baseline (inr unknown)

-- `detect_conflict` reports no conflict exactly in the safe situations: the primary file is there
-- and unchanged since its baseline, or it is missing and the change is no modification of a file
-- that has a baseline.
pub detect_conflict-no_conflict_iff :
    (pending : PendingReturnChange) (current : Option FileSnapshot) (baseline : Option SyncBaseline)
    → (detect_conflict pending current baseline ≡ no_conflict) ↔ IsSafe pending current baseline
detect_conflict-no_conflict_iff pending current baseline =
    (no_conflict→IsSafe pending current baseline, IsSafe→no_conflict pending current baseline)

-- What a report says of the pending change is the change's own data.
abbrev pub Reports : PendingReturnChange → ConflictResult → Type 0
Reports pending no_conflict = Unit
Reports pending (conflict d) =
    (d.relative_path ≡ pending.relative_path)
    × (d.secondary_hash ≡ pending.secondary_hash)
    × (d.secondary_hash_status ≡ pending.secondary_hash_status)
    × (d.secondary_modified_unix_ms ≡ pending.secondary_modified_unix_ms)
    × (d.hash_unverified
        ≡ (not (is_verified d.primary_hash_status) || not (is_verified d.secondary_hash_status)))

missing-Reports :
    (pending : PendingReturnChange) (baseline : Option SyncBaseline)
    → Reports pending (detect_missing_primary_conflict pending baseline)
unfolding detect_missing_primary_conflict
missing-Reports pending none = ground arith
missing-Reports pending (some b) = ground arith

present-Reports :
    (pending : PendingReturnChange) (p : FileSnapshot) (baseline : Option SyncBaseline)
    → Reports pending (present_primary_conflict pending p baseline)
unfolding present_primary_conflict
present-Reports pending p none = (refl, refl, refl, refl, refl)
present-Reports pending p (some b) = elim (Bool-cases (has_primary_changed_since_baseline p b)) [
  | inl changed ↦ rw changed (refl, refl, refl, refl, refl)
  | inr same ↦ rw same tt
]

-- On every branch that reports a conflict, the report has the pending change's path, hash, status
-- and time, and is marked unverified exactly when one of the two hashes in it is.
pub detect_conflict-Reports :
    (pending : PendingReturnChange) (current : Option FileSnapshot) (baseline : Option SyncBaseline)
    → Reports pending (detect_conflict pending current baseline)
unfolding detect_conflict
detect_conflict-Reports pending none baseline = missing-Reports pending baseline
detect_conflict-Reports pending (some p) baseline = elim (Bool-cases p.is_deleted) [
  | inl gone ↦ rw gone (missing-Reports pending baseline)
  | inr there ↦ rw there (present-Reports pending p baseline)
]
