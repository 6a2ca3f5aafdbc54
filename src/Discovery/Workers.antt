-- ===== src/Discovery/Workers.antt =====
-- Which of the discovery's background workers goes on.
use lan_bridge.Base.{
  ℕ, zero, suc, ◌+◌, ◌%◌, ◌^◌, ◌<◌, ◌≤◌, String, Bool, true, false, List, [], ◌∷◌, ◌≡◌, refl, ap,
  ◌∙◌, arith, eqb_iff, length,
}
use lan_bridge.Discovery.{
  DiscoverySocketReport, DiscoveryState, mark_running, mark_failed, mark_disabled, worker_active,
  next_generation,
}

pub data Change : Type 0 where
  started : DiscoverySocketReport → Change
  broken : String → Change
  ended : Change

unfoldable pub change : Change → DiscoveryState → DiscoveryState
change (started report) s = (mark_running report s).0
change (broken error) s = mark_failed error s
change ended s = mark_disabled s

-- The newest change comes first.
unfoldable pub changes : List Change → DiscoveryState → DiscoveryState
changes [] s = s
changes (c ∷ cs) s = change c (changes cs s)

-- How many of the changes make a new generation.
abbrev turns : List Change → ℕ
turns [] = 0
turns (started report ∷ cs) = suc (turns cs)
turns (broken error ∷ cs) = turns cs
turns (ended ∷ cs) = suc (turns cs)

turns-le-length : (cs : List Change) → turns cs ≤ length cs
turns-le-length [] = omega arith
turns-le-length (started report ∷ cs) = omega (arith, turns-le-length cs)
turns-le-length (broken error ∷ cs) = omega (arith, turns-le-length cs)
turns-le-length (ended ∷ cs) = omega (arith, turns-le-length cs)

next_generation_add : (g n : ℕ) → next_generation ((g + n) % 2 ^ 64) ≡ (g + suc n) % 2 ^ 64
next_generation_add g n = omega arith

changes-generation :
    (cs : List Change) (s : DiscoveryState)
    → s.generation < 2 ^ 64
    → (changes cs s).generation ≡ (s.generation + turns cs) % 2 ^ 64
unfolding changes change mark_running mark_failed mark_disabled
changes-generation [] s h = omega arith
changes-generation (started report ∷ cs) s h =
    ap next_generation (changes-generation cs s h) ∙ next_generation_add s.generation (turns cs)
changes-generation (broken error ∷ cs) s h = changes-generation cs s h
changes-generation (ended ∷ cs) s h =
    ap next_generation (changes-generation cs s h) ∙ next_generation_add s.generation (turns cs)

-- Without a new generation nothing runs after a failure.
changes-stopped :
    (cs : List Change) (c : Change) (s : DiscoveryState)
    → turns (c ∷ cs) ≡ 0
    → (changes (c ∷ cs) s).status.running ≡ false
unfolding changes change mark_failed
changes-stopped cs (started report) s h = ground arith
changes-stopped cs (broken error) s h = refl
changes-stopped cs ended s h = ground arith

abbrev pub is_nil : List Change → Bool
is_nil [] = true
is_nil (c ∷ cs) = false

-- A worker goes on after it was started as long as the service is not started again, has not failed
-- and is not ended, however often that happens within 2^64 changes: no later start takes the old
-- worker up again.
pub worker_active-changes :
    (s : DiscoveryState) (report : DiscoverySocketReport) (cs : List Change)
    → length cs < 2 ^ 64
    → worker_active (mark_running report s).1 (changes cs (mark_running report s).0) ≡ is_nil cs
unfolding worker_active mark_running changes
worker_active-changes s report [] h =
    ground (arith, eqb_iff (next_generation s.generation) (next_generation s.generation))
worker_active-changes s report (c ∷ cs) h =
    let begun = (mark_running report s).0 in
    let small : begun.generation < 2 ^ 64 = omega arith in
    let generation = changes-generation (c ∷ cs) begun small in
    let few = turns-le-length (c ∷ cs) in
    go (turns (c ∷ cs)) refl few generation (changes-stopped cs c begun)
  where
    go :
        (n : ℕ)
        → turns (c ∷ cs) ≡ n
        → turns (c ∷ cs) ≤ length (c ∷ cs)
        → (changes (c ∷ cs) (mark_running report s).0).generation
          ≡ (next_generation s.generation + turns (c ∷ cs)) % 2 ^ 64
        → (turns (c ∷ cs) ≡ 0 → (changes (c ∷ cs) (mark_running report s).0).status.running ≡ false)
        → worker_active (mark_running report s).1 (changes (c ∷ cs) (mark_running report s).0)
          ≡ false
    go zero e few generation stopped = ground (arith, stopped e)
    go (suc n) e few generation stopped = ground arith
