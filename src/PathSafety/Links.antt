-- ===== src/PathSafety/Links.antt =====
-- What a joined path can lead through.
use lan_bridge.Base.{
  String, true, false, Option, none, some, [], ◌∷◌, ◌++◌, ◌≡◌, ◌≢◌, refl, sym, inl, inr, string_eq,
  Bool-cases, All, Option-cases, beq_self,
}
use mathlib.Core.Option.{none-ne-some}
use lan_bridge.PathSafety.{
  FilePath, FileSystem, Metadata, found, components, validate_filesystem_boundary, safe_join,
  check_links, is_link, strip_root, existing_ancestor, is_within, check_walk, check_canonical,
  check_existing, check_root, root_link,
}
use lan_bridge.PathSafety.Join.{safe_join-ok_iff}
use lan_bridge.PathSafety.Plain.{IsPlainName, names_of-All, components-All, All-IsPlainName}

-- The entries on the way from a directory down through the names, as long as they exist.
pub data IsOnTheWay (fs : FileSystem) : FilePath → FilePath → Metadata → Type 0 where
  next :
      {current : FilePath} {name : String} {names : FilePath} {m : Metadata}
      → fs.symlink_metadata (current ++ (name ∷ [])) ≡ found m
      → IsOnTheWay fs current (name ∷ names) m
  deeper :
      {current : FilePath} {name : String} {names : FilePath} {m own : Metadata}
      → fs.symlink_metadata (current ++ (name ∷ [])) ≡ found own
      → IsOnTheWay fs (current ++ (name ∷ [])) names m
      → IsOnTheWay fs current (name ∷ names) m

check_links_sound :
    (fs : FileSystem) (current names : FilePath) (m : Metadata)
    → check_links fs current names ≡ none
    → IsOnTheWay fs current names m
    → is_link m ≡ false
unfolding check_links
check_links_sound fs current names m h (IsOnTheWay.next e) = elim (Bool-cases (is_link m)) [
  | inl link ↦ absurd (none-ne-some _ (sym (rw (e, link, check_links) at h)))
  | inr plain ↦ plain
]
check_links_sound fs current names m h (IsOnTheWay.deeper {name} {names = rest} {own} e way) =
    elim (Bool-cases (is_link own)) [
      | inl link ↦ absurd (none-ne-some _ (sym (rw (e, link, check_links) at h)))
      | inr plain ↦
          check_links_sound fs (current ++ (name ∷ [])) rest m (rw (e, plain, check_links) at h) way
    ]

pub strip_root-append : (root names : FilePath) → strip_root root (root ++ names) ≡ some names
unfolding strip_root
strip_root-append [] names = refl
strip_root-append (r ∷ root) names = rw (beq_self r) (strip_root-append root names)

-- The check of the boundary, taken apart.
abbrev IsInside : FileSystem → FilePath → FilePath → FilePath → Type 0
IsInside fs root names ancestor =
    (existing : FilePath) × (canonical_root : FilePath) × (canonical : FilePath) × (fs.canonicalize
        ancestor
      ≡ some canonical_root)
    × (existing_ancestor fs (root ++ names) ≡ some existing)
    × (fs.canonicalize existing ≡ some canonical)
    × (is_within canonical_root canonical ≡ true)
    × (check_links fs root names ≡ none)

check_canonical_sound :
    (fs : FileSystem) (root names canonical_root : FilePath) (found : Option FilePath)
    → check_canonical fs root (root ++ names) canonical_root found ≡ none
    → (canonical : FilePath) × (found ≡ some canonical)
      × (is_within canonical_root canonical ≡ true)
      × (check_links fs root names ≡ none)
check_canonical_sound fs root names canonical_root none h = absurd (none-ne-some _ (sym h))
check_canonical_sound fs root names canonical_root (some canonical) h =
    elim (Bool-cases (is_within canonical_root canonical)) [
      | inl within ↦
          let walked : check_walk fs root (strip_root root (root ++ names)) ≡ none =
            rw (within, check_canonical) at h in
          (canonical, refl, within, rw (strip_root-append root names) at walked)
      | inr out ↦ absurd (none-ne-some _ (sym (rw (out, check_canonical) at h)))
    ]

check_root_sound :
    (fs : FileSystem) (root names : FilePath) (found : Option FilePath)
    → check_root fs root (root ++ names) found ≡ none
    → (canonical_root : FilePath) × (found ≡ some canonical_root)
      × (check_existing fs root
            (root ++ names)
            canonical_root
            (existing_ancestor fs (root ++ names))
          ≡ none)
check_root_sound fs root names none h = absurd (none-ne-some _ (sym h))
check_root_sound fs root names (some canonical_root) h = elim (Option-cases (root_link fs root)) [
  | inl plain ↦ (canonical_root, refl, rw (plain, check_root) at h)
  | inr (error, bad) ↦ absurd (none-ne-some error (sym (rw (bad, check_root) at h)))
]

boundary-IsInside :
    (fs : FileSystem) (root names ancestor : FilePath)
    → existing_ancestor fs root ≡ some ancestor
    → validate_filesystem_boundary fs root (root ++ names) ≡ none
    → IsInside fs root names ancestor
unfolding validate_filesystem_boundary
boundary-IsInside fs root names ancestor a h =
    let checked : check_root fs root (root ++ names) (fs.canonicalize ancestor) ≡ none =
      rw (a, validate_filesystem_boundary) at h in
    let (canonical_root, same, rest) =
      check_root_sound fs root names (fs.canonicalize ancestor) checked in
    elim (Option-cases (existing_ancestor fs (root ++ names))) [
      | inl missing ↦ absurd (none-ne-some _ (sym (rw (missing, check_existing) at rest)))
      | inr (existing, there) ↦
          let (canonical, here, within, walked) =
            check_canonical_sound fs root names canonical_root (fs.canonicalize existing)
              (rw (there, check_existing) at rest) in
          (existing, canonical_root, canonical, same, there, here, within, walked)
    ]

-- A path joined to a root below something that exists is the root followed by plain names, and the
-- part of it that exists lies, as the file system resolves it, within what the existing part of the
-- root is resolved to.
pub safe_join-IsInside :
    (fs : FileSystem) (root : FilePath) (relative_path : String) (dest ancestor : FilePath)
    → safe_join fs root relative_path ≡ inr dest
    → existing_ancestor fs root ≡ some ancestor
    → (names : FilePath) × (existing : FilePath) × (canonical_root : FilePath)
      × (canonical : FilePath) × (names ≢ [])
      × (dest ≡ root ++ names)
      × All IsPlainName names
      × (fs.canonicalize ancestor ≡ some canonical_root)
      × (existing_ancestor fs dest ≡ some existing)
      × (fs.canonicalize existing ≡ some canonical)
      × (is_within canonical_root canonical ≡ true)
safe_join-IsInside fs root relative_path dest ancestor h a =
    let (names, named, some_name, safe, made, inside) =
      (safe_join-ok_iff fs root relative_path dest).0 h in
    let (existing, canonical_root, canonical, same, there, here, within, walked) =
      boundary-IsInside fs root names ancestor a (rw made at inside) in
    (
      names,
      existing,
      canonical_root,
      canonical,
      some_name,
      made,
      All-IsPlainName names
          (names_of-All (components relative_path) names named (components-All relative_path)) safe,
      same,
      rw made there,
      here,
      within,
    )

-- Nothing that exists on the way from the root to a joined path is a link, if something at or above
-- the root exists.
pub safe_join-no_link :
    (fs : FileSystem) (root names : FilePath) (relative_path : String) (ancestor : FilePath)
    (m : Metadata)
    → safe_join fs root relative_path ≡ inr (root ++ names)
    → existing_ancestor fs root ≡ some ancestor
    → IsOnTheWay fs root names m
    → is_link m ≡ false
safe_join-no_link fs root names relative_path ancestor m h a way =
    let (own, named, some_name, safe, made, inside) =
      (safe_join-ok_iff fs root relative_path (root ++ names)).0 h in
    let (existing, canonical_root, canonical, same, there, here, within, walked) =
      boundary-IsInside fs root names ancestor a inside in
    check_links_sound fs root names m walked way
