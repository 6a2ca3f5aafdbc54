-- ===== src/Connection/Progress.antt =====
-- The table of the transfers in progress.
use lan_bridge.Base.{
  String, Bool, true, false, ◌||◌, not, Option, none, some, List, [], ◌∷◌, ◌≡◌, refl, sym, ap, ◌∙◌,
  inl, inr, ◌==◌, string_eq, eq_iff, Bool-cases, All, any, filter, map,
}
use lan_bridge.Base.Int.{ℤ}
use lan_bridge.Base.Assoc.{HashMap, insert}
use lan_bridge.Connection.{
  Shared, TransferProgress, change_at, finished_at, is_shown, still_active, retain_values,
  record_transfer_progress, finish_transfer_progress, finish_transfer_progress_for_path,
  get_transfer_progress, has_active_transfers,
}

-- What the process does to the table.
pub data Step : Type 0 where
  updated : TransferProgress → Step
  finished : ℤ → String → Step
  dropped : String → String → Option String → Step
  listed : ℤ → Step

unfoldable pub step : Step → Shared → Shared
step (updated p) s = record_transfer_progress (still_active p) s
step (finished now transfer_id) s = finish_transfer_progress now transfer_id s
step (dropped t p d) s = finish_transfer_progress_for_path t p d s
step (listed now) s = (get_transfer_progress now s).1

-- The newest step comes first.
unfoldable pub steps : List Step → Shared → Shared
unfolding step
steps [] s = s
steps (x ∷ xs) s = step x (steps xs s)

abbrev has_time : Option ℤ → Bool
has_time none = false
has_time (some now) = true

-- An entry under its own identifier, with a time exactly if it is finished.
abbrev pub IsConsistent : String × TransferProgress → Type 0
IsConsistent (id, p) = (p.transfer_id ≡ id) × (p.finished ≡ has_time p.finished_at_unix_ms)

insert-All :
    (id : String) (p : TransferProgress) (m : HashMap String TransferProgress)
    → IsConsistent (id, p)
    → All IsConsistent m
    → All IsConsistent (insert id p m)
unfolding insert
insert-All id p [] h k = (h, tt)
insert-All id p ((j, q) ∷ m) h k = elim (Bool-cases (j == id)) [
  | inl same ↦ rw same ((h.0 ∙ sym ((eq_iff j id).0 same), h.1), k.1)
  | inr differ ↦ rw differ (k.0, insert-All id p m h k.1)
]

filter-All :
    (test : String × TransferProgress → Bool) (m : HashMap String TransferProgress)
    → All IsConsistent m
    → All IsConsistent (filter test m)
unfolding filter
filter-All test [] h = tt
filter-All test (x ∷ m) h = elim (Bool-cases (test x)) [
  | inl kept ↦ rw kept (h.0, filter-All test m h.1)
  | inr gone ↦ rw gone (filter-All test m h.1)
]

change_at-All :
    (now : ℤ) (id : String) (m : HashMap String TransferProgress)
    → All IsConsistent m
    → All IsConsistent (change_at (finished_at now) id m)
change_at-All now id [] h = tt
change_at-All now id ((j, q) ∷ m) h = elim (Bool-cases (j == id)) [
  | inl same ↦ rw same ((h.0.0, refl), change_at-All now id m h.1)
  | inr differ ↦ rw differ (h.0, change_at-All now id m h.1)
]

steps-All :
    (xs : List Step) (s : Shared)
    → All IsConsistent s.progress
    → All IsConsistent (steps xs s).progress
unfolding steps step record_transfer_progress finish_transfer_progress
    finish_transfer_progress_for_path get_transfer_progress
steps-All [] s h = h
steps-All (updated p ∷ xs) s h =
    insert-All p.transfer_id (still_active p) (steps xs s).progress (refl, refl) (steps-All xs s h)
steps-All (finished now id ∷ xs) s h = change_at-All now id (steps xs s).progress (steps-All xs s h)
steps-All (dropped t p d ∷ xs) s h = filter-All _ (steps xs s).progress (steps-All xs s h)
steps-All (listed now ∷ xs) s h = filter-All _ (steps xs s).progress (steps-All xs s h)

listed-active :
    (now : ℤ) (m : HashMap String TransferProgress)
    → All IsConsistent m
    → any (λ p. not p.finished) (map (λ e. e.1) (retain_values (is_shown now) m))
      ≡ any (λ e. not e.1.finished) m
unfolding filter
listed-active now [] h = refl
listed-active now ((id, p) ∷ m) h = go (listed-active now m h.1) p.finished_at_unix_ms refl
  where
    go :
        any (λ q. not q.finished) (map (λ e. e.1) (retain_values (is_shown now) m))
          ≡ any (λ e. not e.1.finished) m
        → (at : Option ℤ) → p.finished_at_unix_ms ≡ at
        → any (λ q. not q.finished) (map (λ e. e.1) (retain_values (is_shown now) ((id, p) ∷ m)))
          ≡ (not p.finished || any (λ e. not e.1.finished) m)
    go rest none e =
        let shown : is_shown now p ≡ true = rw e refl in
        rw shown (ap (λ b. not p.finished || b) rest)
    go rest (some t) e =
        let done : p.finished ≡ true = h.0.1 ∙ ap has_time e in
        elim (Bool-cases (is_shown now p)) [
          | inl shown ↦ rw shown (rw done rest)
          | inr hidden ↦ rw hidden (rw done rest)
        ]

-- After any updates, ends, cancellations and queries, the process has active transfers exactly when
-- the list that the interface shows at any time has an unfinished one.
pub has_active_transfers-get_transfer_progress :
    (xs : List Step) (s : Shared) (now : ℤ)
    → s.progress ≡ []
    → has_active_transfers (steps xs s)
      ≡ any (λ p. not p.finished) (get_transfer_progress now (steps xs s)).0
unfolding has_active_transfers get_transfer_progress
has_active_transfers-get_transfer_progress xs s now h =
    sym (listed-active now (steps xs s).progress (steps-All xs s (rw h tt)))
