-- ===== src/Actions/Metadata.antt =====
-- commands/mod.rs: `metadata_delta`, the cheap test of whether a tree has changed since it was
-- scanned. A map of the source is the look-up of the last live snapshot of a path.
use lan_bridge.Base.{
  String, Bool, true, false, ◌&&◌, ◌||◌, not, Option, none, some, List, [], ◌∷◌, ◌≡◌, refl, sym,
  ◌∙◌, ◌↔◌, inl, inr, Memᴰ, if◌then◌else◌, ◌==◌, string_eq, int_eq, arith, Bool-cases, any, any-mem,
  any_of_mem,
}
use mathlib.Core.Bool.{false≢true}
use mathlib.Core.Option.{some-injective}
use lan_bridge.Model.{FileSnapshot, is_directory, same_kind}
use lan_bridge.Planner.{is_live}
use lan_bridge.Actions.{is_none}
use lan_bridge.Actions.Recovery.{live_snapshot}

unfoldable pub snapshot_metadata_changed : FileSnapshot → FileSnapshot → Bool
snapshot_metadata_changed old current =
    if not (same_kind old.kind current.kind)
    then true
    else if is_directory old.kind
    then false
    else not (old.size == current.size) || not (old.modified_unix_ms == current.modified_unix_ms)

-- The entry of a path in the two maps.
abbrev pub entry_changed : Option FileSnapshot → Option FileSnapshot → Bool
entry_changed none current = not (is_none current)
entry_changed (some old) none = true
entry_changed (some old) (some current) = snapshot_metadata_changed old current

-- The two loops go over the paths of the live snapshots.
unfoldable pub metadata_delta : List FileSnapshot → List FileSnapshot → Bool
unfolding snapshot_metadata_changed live_snapshot
metadata_delta cached current =
    any
      (λ s.
        is_live s
        && entry_changed (live_snapshot s.relative_path cached)
            (live_snapshot s.relative_path current))
      cached
    || any (λ s. is_live s && is_none (live_snapshot s.relative_path cached)) current

live_snapshot-mem :
    (path : String) (ss : List FileSnapshot) (s : FileSnapshot)
    → live_snapshot path ss ≡ some s
    → Memᴰ s ss × (is_live s ≡ true) × (s.relative_path ≡ path)
unfolding live_snapshot
live_snapshot-mem path [] s h = cc
live_snapshot-mem path (t ∷ ts) s h = go (live_snapshot path ts) refl (live_snapshot-mem path ts s)
  where
    go :
        (found : Option FileSnapshot)
        → live_snapshot path ts ≡ found
        → (live_snapshot path ts ≡ some s
            → Memᴰ s ts × (is_live s ≡ true) × (s.relative_path ≡ path))
        → Memᴰ s (t ∷ ts) × (is_live s ≡ true) × (s.relative_path ≡ path)
    go (some later) e deeper =
        let (there, live, same) = deeper (e ∙ (rw e at h)) in (Memᴰ.tail there, live, same)
    go none e deeper = elim (Bool-cases (is_live t && t.relative_path == path)) [
      | inl here ↦
          let one : s ≡ t = sym (some-injective t s (rw here at (rw e at h))) in
          (
            Memᴰ.head one,
            rw one (ground arith),
            rw one ((string_eq.beq_iff t.relative_path path).0 (ground arith)),
          )
      | inr other ↦ cc (rw other at (rw e at h))
    ]

live_snapshot_of_mem :
    (path : String) {s : FileSnapshot} {ss : List FileSnapshot}
    → Memᴰ s ss
    → is_live s ≡ true
    → s.relative_path ≡ path
    → is_none (live_snapshot path ss) ≡ false
unfolding live_snapshot
live_snapshot_of_mem path {s} (Memᴰ.head {x = t} {xs} e) live same =
    ground (arith, rw e at live, (string_eq.beq_iff t.relative_path path).1 (rw e at same))
live_snapshot_of_mem path {s} (Memᴰ.tail {x = t} {xs} m) live same =
    ground (arith, live_snapshot_of_mem path m live same)

appeared :
    (old new : Option FileSnapshot)
    → is_none old ≡ true
    → is_none new ≡ false
    → entry_changed old new ≡ false
    → ⊥
appeared none none h k e = cc
appeared none (some s) h k e = cc
appeared (some s) new h k e = cc

false_alarm :
    (cached current : List FileSnapshot)
    → ((path : String)
        → entry_changed (live_snapshot path cached) (live_snapshot path current) ≡ false)
    → metadata_delta cached current ≡ true
    → ⊥
unfolding metadata_delta
false_alarm cached current same noisy =
    elim (Bool-cases (
      any
        (λ s.
          is_live s
          && entry_changed (live_snapshot s.relative_path cached)
              (live_snapshot s.relative_path current))
        cached)) [
          | inl lost ↦
              let (s, there, test) = any-mem _ cached lost in
              false≢true (sym (same s.relative_path) ∙ (ground arith))
          | inr kept ↦
              let (s, there, test) =
                any-mem (λ s. is_live s && is_none (live_snapshot s.relative_path cached)) current
                  (ground arith) in
              appeared (live_snapshot s.relative_path cached)
                (live_snapshot s.relative_path current) (ground arith)
                (live_snapshot_of_mem s.relative_path there (ground arith) refl)
                (same s.relative_path)
        ]

-- No change is reported exactly when every path has the same metadata on both sides: no live
-- snapshot, or one on each, of one kind and, for a file, of one size and one modification time.
pub metadata_delta-false_iff :
    (cached current : List FileSnapshot)
    → (metadata_delta cached current ≡ false) ↔ (
        (path : String)
        → entry_changed (live_snapshot path cached) (live_snapshot path current) ≡ false)
unfolding metadata_delta
metadata_delta-false_iff cached current = (
  λ quiet path.
      unchanged quiet path (live_snapshot path cached) refl (live_snapshot path current) refl,
  λ same. elim (Bool-cases (metadata_delta cached current)) [
    | inl noisy ↦ absurd (false_alarm cached current same noisy)
    | inr quiet ↦ quiet
  ],
)
  where
    unchanged :
        metadata_delta cached current ≡ false
        → (path : String) (old : Option FileSnapshot) → live_snapshot path cached ≡ old
        → (new : Option FileSnapshot) → live_snapshot path current ≡ new
        → entry_changed old new ≡ false
    unchanged quiet path none e none f = refl
    unchanged quiet path none e (some s) f =
        let (there, live, same) = live_snapshot-mem path current s f in
        let hit =
          any_of_mem (λ s. is_live s && is_none (live_snapshot s.relative_path cached)) there
            (rw live (rw same (rw e refl))) in
        ground arith
    unchanged quiet path (some s) e new f =
        let (there, live, same) = live_snapshot-mem path cached s e in
        elim (Bool-cases (entry_changed (some s) new)) [
          | inl changed ↦
              let hit =
                any_of_mem
                  (λ s.
                    is_live s
                    && entry_changed (live_snapshot s.relative_path cached)
                        (live_snapshot s.relative_path current))
                  there (rw live (rw same (rw (e, f) changed))) in
              ground arith
          | inr fine ↦ fine
        ]
