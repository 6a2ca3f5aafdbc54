-- ===== src/Examples/Files.antt =====
-- Paths that peers name, and the directories above a destination.
use lan_bridge.Base.{
  String, Bool, true, false, ◌&&◌, Option, none, some, List, [], ◌∷◌, ◌++◌, ◌≡◌, ◌≢◌, refl, ◌↔◌,
  inl, inr, ◌==◌, string_eq, eq_iff, arith, Bool-cases, All, any, filter,
}
use lan_bridge.Base.Text.{split, ends_with, contains_char, is_uppercase_of}
use lan_bridge.PathSafety.{
  FilePath, FileSystem, Metadata, Answer, found, not_found, safe_join, components, names_device,
  components_of_pieces, inner_components, pushed_names, validate_safe_component, reserved_names,
  validate_filesystem_boundary, existing_ancestor, existing_ancestor_from, check_links, strip_root,
  ensure_not_link_or_reparse, is_link, is_within,
}
use lan_bridge.PathSafety.Join.{IsJoin, safe_join-ok_iff}
use lan_bridge.PathSafety.Plain.{IsPlainName}
use lan_bridge.PathSafety.Links.{IsOnTheWay, safe_join-IsInside, safe_join-no_link}
use lan_bridge.PathSafety.Parents.{
  parent, create_component, create_components, create_safe_parent_dirs, AreDirectories,
}
use lan_bridge.PathSafety.Parents.Kept.{IsKept}
use lan_bridge.PathSafety.Parents.Made.{create_safe_parent_dirs-AreDirectories}
use lan_bridge.PathSafety.Guards.{
  Guard, prepare_mutation, validate, capture, capture_from, directory_identity,
}
use lan_bridge.PathSafety.Guards.Validation.{
  IsSameDirectory, paths_down, prepare_mutation-validate_iff,
}
use lan_bridge.Transient.{
  directory, file, Entries, none_left, entry, cleanup_lanbridge_transient_files,
}
use lan_bridge.Transient.Cleanup.{all_items, is_kept, all_items-cleanup_lanbridge_transient_files}

abbrev same_path : FilePath → FilePath → Bool
same_path [] [] = true
same_path [] (b ∷ bs) = false
same_path (a ∷ as_) [] = false
same_path (a ∷ as_) (b ∷ bs) = a == b && same_path as_ bs

same_path-eq : (p q : FilePath) → same_path p q ≡ true → p ≡ q
same_path-eq [] [] h = refl
same_path-eq [] (b ∷ bs) h = cc
same_path-eq (a ∷ rest) [] h = cc
same_path-eq (a ∷ rest) (b ∷ bs) h =
    let first : a ≡ b = ground (arith, eq_iff a b) in
    let others : rest ≡ bs = same_path-eq rest bs (ground arith) in rw (first, others) refl

same_path_self : (p : FilePath) → same_path p p ≡ true
same_path_self [] = refl
same_path_self (a ∷ p) = ground (arith, eq_iff a a, same_path_self p)

abbrev directory_at : Metadata
directory_at = record {
  is_dir = true;
  is_symlink = false;
  is_reparse_point = false;
  identity = (1, 2);
}

-- A world is the list of its directories, and all of them are on one volume.
abbrev World : Type 0
World = List FilePath

abbrev answer_of : Bool → Answer
answer_of true = found directory_at
answer_of false = not_found

abbrev view : World → FileSystem
view w = record {
  symlink_metadata = λ path. answer_of (any (same_path path) w);
  exists = λ path. any (same_path path) w;
  canonicalize = λ path. some path;
}

abbrev create_dir : FilePath → World → World × Option String
create_dir path w = (path ∷ w, none)

keeps : (path : FilePath) (w : World) → IsKept (view w) (view (create_dir path w).0)
keeps path w p m h = elim (Bool-cases (same_path p path)) [
  | inl same ↦ elim (Bool-cases (any (same_path p) w)) [
    | inl there ↦ rw same (rw there at h)
    | inr absent ↦ cc
  ]
  | inr differ ↦ rw differ h
]

makes :
    (path : FilePath) (w : World)
    → (create_dir path w).1 ≡ none
    → (m : Metadata) × ((view (create_dir path w).0).symlink_metadata path ≡ found m)
      × (m.is_dir ≡ true)
makes path w h = (directory_at, rw (same_path_self path) refl, refl)

abbrev root : FilePath
root = "sync" ∷ []

abbrev world : World
world = [] ∷ root ∷ []

joins : safe_join (view world) root "docs/./a.txt" ≡ inr ("sync" ∷ "docs" ∷ "a.txt" ∷ [])
unfolding safe_join components components_of_pieces inner_components pushed_names
    validate_safe_component names_device reserved_names validate_filesystem_boundary
    existing_ancestor existing_ancestor_from check_links strip_root ensure_not_link_or_reparse split
    ends_with contains_char is_uppercase_of
joins = refl

root_exists : existing_ancestor (view world) root ≡ some root
unfolding existing_ancestor existing_ancestor_from
root_exists = refl

safe_join-ok_iff_example :
    (safe_join (view world) root "docs/./a.txt" ≡ inr ("sync" ∷ "docs" ∷ "a.txt" ∷ []))
    ↔ IsJoin (view world) root "docs/./a.txt" ("sync" ∷ "docs" ∷ "a.txt" ∷ [])
safe_join-ok_iff_example =
    safe_join-ok_iff (view world) root "docs/./a.txt" ("sync" ∷ "docs" ∷ "a.txt" ∷ [])

safe_join-IsInside_example :
    (names : FilePath) × (existing : FilePath) × (canonical_root : FilePath)
    × (canonical : FilePath) × (names ≢ [])
    × ("sync" ∷ "docs" ∷ "a.txt" ∷ [] ≡ root ++ names)
    × All IsPlainName names
    × ((view world).canonicalize root ≡ some canonical_root)
    × (existing_ancestor (view world) ("sync" ∷ "docs" ∷ "a.txt" ∷ []) ≡ some existing)
    × ((view world).canonicalize existing ≡ some canonical)
    × (is_within canonical_root canonical ≡ true)
safe_join-IsInside_example =
    safe_join-IsInside (view world) root "docs/./a.txt" ("sync" ∷ "docs" ∷ "a.txt" ∷ []) root joins
      root_exists

abbrev with_docs : World
with_docs = ("sync" ∷ "docs" ∷ []) ∷ world

joins_in_docs : safe_join (view with_docs) root "docs/a.txt" ≡ inr (root ++ ("docs" ∷ "a.txt" ∷ []))
unfolding safe_join components components_of_pieces inner_components pushed_names
    validate_safe_component names_device reserved_names validate_filesystem_boundary
    existing_ancestor existing_ancestor_from check_links strip_root ensure_not_link_or_reparse split
    ends_with contains_char is_uppercase_of
joins_in_docs = refl

root_exists_with_docs : existing_ancestor (view with_docs) root ≡ some root
unfolding existing_ancestor existing_ancestor_from
root_exists_with_docs = refl

safe_join-no_link_example : is_link directory_at ≡ false
safe_join-no_link_example =
    safe_join-no_link (view with_docs) root ("docs" ∷ "a.txt" ∷ []) "docs/a.txt" root directory_at
      joins_in_docs root_exists_with_docs (IsOnTheWay.next refl)

makes_docs :
    (create_safe_parent_dirs view create_dir root
      ((root ++ ("docs" ∷ [])) ++ ("a.txt" ∷ []))
      world).1
    ≡ none
unfolding create_safe_parent_dirs create_components create_component parent strip_root
    ensure_not_link_or_reparse validate_filesystem_boundary existing_ancestor existing_ancestor_from
    check_links
makes_docs = refl

create_safe_parent_dirs-AreDirectories_example :
    AreDirectories
      (view
        (create_safe_parent_dirs view create_dir root
          ((root ++ ("docs" ∷ [])) ++ ("a.txt" ∷ []))
          world).0)
      root
      ("docs" ∷ [])
    × (validate_filesystem_boundary
          (view
            (create_safe_parent_dirs view create_dir root
              ((root ++ ("docs" ∷ [])) ++ ("a.txt" ∷ []))
              world).0)
          root
          ((root ++ ("docs" ∷ [])) ++ ("a.txt" ∷ []))
        ≡ none)
create_safe_parent_dirs-AreDirectories_example =
    create_safe_parent_dirs-AreDirectories view create_dir keeps makes root ("docs" ∷ []) "a.txt"
      world makes_docs

abbrev guard : Guard
guard = (root, (1, 2)) ∷ ("sync" ∷ "docs" ∷ [], (1, 2)) ∷ []

prepares :
    (prepare_mutation view create_dir root ((root ++ ("docs" ∷ [])) ++ ("a.txt" ∷ [])) world).1
    ≡ inr guard
unfolding prepare_mutation create_safe_parent_dirs create_components create_component parent
    strip_root ensure_not_link_or_reparse validate_filesystem_boundary existing_ancestor
    existing_ancestor_from check_links capture capture_from directory_identity
prepares = refl

prepare_mutation-validate_iff_example :
    (validate (view world) guard ≡ none)
    ↔ All
        (IsSameDirectory
          (view
            (prepare_mutation view create_dir root
              ((root ++ ("docs" ∷ [])) ++ ("a.txt" ∷ []))
              world).0)
          (view world))
        (paths_down root ("docs" ∷ []))
prepare_mutation-validate_iff_example =
    prepare_mutation-validate_iff view create_dir root ("docs" ∷ []) "a.txt" world guard
      (view world) prepares

abbrev tree : Entries
tree = entry (file "a.txt") (
    entry
      (directory "docs" (
        entry (file "b.txt.lanbridge-partial")
          (entry (directory ".lanbridge-temp" (entry (file "c") none_left)) none_left)))
      none_left)

all_items-cleanup_lanbridge_transient_files_example :
    all_items (cleanup_lanbridge_transient_files tree) ≡ filter is_kept (all_items tree)
all_items-cleanup_lanbridge_transient_files_example =
    all_items-cleanup_lanbridge_transient_files tree
