-- ===== src/PathSafety/Parents.antt =====
-- src-tauri/src/core/path_safety.rs: the directories above a destination, made one by one. The world
-- is what the file system is in; `view` is what it answers, and `create_dir` makes a directory.
pub mod Kept
pub mod Made
use lan_bridge.Base.{
  ℕ, String, Bool, true, false, ◌||◌, not, Option, none, some, List, [], ◌∷◌, ◌++◌, ◌≡◌, refl, sym,
  ap, ◌∙◌, inl, inr, arith, Bool-cases, if◌then◌else◌, Option-cases,
}
use mathlib.Core.Path.{subst}
use mathlib.Core.Option.{some-injective, none-ne-some}
use lan_bridge.PathSafety.{
  FilePath, FileSystem, Metadata, Answer, found, not_found, failed, PathError, io,
  symlink_not_allowed, not_a_directory, no_parent, path_escapes_task_root, is_link,
  ensure_not_link_or_reparse, validate_filesystem_boundary, strip_root,
}

-- `path.parent()`
unfoldable pub parent : FilePath → Option FilePath
parent [] = none
parent (name ∷ rest) = elim (parent rest) [ none ↦ some [] | some above ↦ some (name ∷ above) ]

module _ {W : Type 0} (view : W → FileSystem) (create_dir : FilePath → W → W × Option String) where
  -- A missing directory has been made, or not.
  abbrev pub made : FilePath → W × Option String → W × Option PathError
  made path (w, some error) = (w, some (io error))
  made path (w, none) = (w, ensure_not_link_or_reparse (view w) path)

  -- One turn of the loop up to the check of the boundary.
  abbrev pub found_or_made : FilePath → W → Answer → W × Option PathError
  found_or_made path w (found m) =
      if is_link m
      then (w, some symlink_not_allowed)
      else if not m.is_dir
      then (w, some not_a_directory)
      else (w, none)
  found_or_made path w not_found = made path (create_dir path w)
  found_or_made path w (failed error) = (w, some (io error))

  -- The rest is done if there is no error so far.
  abbrev pub and_then : W × Option PathError → (W → W × Option PathError) → W × Option PathError
  and_then (w, some error) rest = (w, some error)
  and_then (w, none) rest = rest w

  abbrev pub check_boundary : FilePath → FilePath → W → W × Option PathError
  check_boundary root path w = (w, validate_filesystem_boundary (view w) root path)

  unfoldable pub create_component : FilePath → FilePath → W → W × Option PathError
  create_component root path w =
      and_then (found_or_made path w ((view w).symlink_metadata path)) (check_boundary root path)

  unfoldable pub create_components : FilePath → FilePath → FilePath → W → W × Option PathError
  create_components root current [] w = (w, none)
  create_components root current (name ∷ names) w =
      and_then (create_component root (current ++ (name ∷ [])) w)
        (λ after. create_components root (current ++ (name ∷ [])) names after)

  abbrev pub create_below : FilePath → FilePath → W → Option FilePath → W × Option PathError
  create_below root destination w none = (w, some path_escapes_task_root)
  create_below root destination w (some names) =
      and_then (w, ensure_not_link_or_reparse (view w) root)
        (λ w. and_then (create_components root root names w) (check_boundary root destination))

  unfoldable pub create_safe_parent_dirs : FilePath → FilePath → W → W × Option PathError
  create_safe_parent_dirs root destination w = elim (parent destination) [
    | none ↦ (w, some no_parent)
    | some above ↦ create_below root destination w (strip_root root above)
  ]

-- Each of the names leads to a directory that is not a link.
abbrev pub AreDirectories : FileSystem → FilePath → FilePath → Type 0
AreDirectories fs current [] = Unit
AreDirectories fs current (name ∷ names) =
    ((m : Metadata) × (fs.symlink_metadata (current ++ (name ∷ [])) ≡ found m)
      × (m.is_dir ≡ true)
      × (is_link m ≡ false))
    × AreDirectories fs (current ++ (name ∷ [])) names
