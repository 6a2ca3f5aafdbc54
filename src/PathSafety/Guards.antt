-- ===== src/PathSafety/Guards.antt =====
-- src-tauri/src/core/path_safety.rs: `TaskRootHandle` and `MutationGuard`, which remembers which
-- directories a destination lies in and notices when one of them is another.
pub mod Validation
use lan_bridge.Base.{
  ℕ, String, Bool, true, false, ◌||◌, ◌&&◌, not, Option, none, some, List, [], ◌∷◌, ◌++◌, ◌≡◌, refl,
  sym, ap, ◌∙◌, ◌⊎◌, ◌↔◌, inl, inr, arith, Bool-cases, if◌then◌else◌, Option-cases, All, eqb,
  eqb_iff,
}
use mathlib.Core.Path.{subst}
use mathlib.Core.Option.{some-injective, none-ne-some}
use mathlib.Core.Sum.{inr-injective, inl-ne-inr}
use lan_bridge.PathSafety.{
  FilePath, FileSystem, Metadata, Answer, found, not_found, failed, PathError, io,
  symlink_not_allowed, not_a_directory, no_parent, path_escapes_task_root, identity_changed,
  is_link, ensure_not_link_or_reparse, validate_filesystem_boundary, strip_root, safe_join,
}
use lan_bridge.PathSafety.Links.{strip_root-append}
use lan_bridge.PathSafety.Parents.{parent, create_safe_parent_dirs, AreDirectories}

abbrev pub Identity : Type 0
Identity = ℕ × ℕ

abbrev pub same_identity : Identity → Identity → Bool
same_identity (a, b) (c, d) = eqb a c && eqb b d

abbrev pub Guard : Type 0
Guard = List (FilePath × Identity)

abbrev pub identity_of : Metadata → PathError ⊎ Identity
identity_of m =
    if is_link m
    then inl symlink_not_allowed
    else if m.is_dir
    then inr m.identity
    else inl not_a_directory

abbrev pub identity_in : Answer → PathError ⊎ Identity
identity_in (found m) = identity_of m
identity_in not_found = inl (io "not found")
identity_in (failed error) = inl (io error)

unfoldable pub directory_identity : FileSystem → FilePath → PathError ⊎ Identity
directory_identity fs path = identity_in (fs.symlink_metadata path)

abbrev pub with_identity : FilePath → PathError ⊎ Identity → PathError ⊎ Guard → PathError ⊎ Guard
with_identity path (inl error) guard = inl error
with_identity path (inr identity) (inl error) = inl error
with_identity path (inr identity) (inr guard) = inr ((path, identity) ∷ guard)

-- The directories from the first down through the names.
unfoldable pub capture_from : FileSystem → FilePath → FilePath → PathError ⊎ Guard
capture_from fs current [] = with_identity current (directory_identity fs current) (inr [])
capture_from fs current (name ∷ names) =
    with_identity current (directory_identity fs current)
      (capture_from fs (current ++ (name ∷ [])) names)

abbrev pub capture_below : FileSystem → FilePath → Option FilePath → PathError ⊎ Guard
capture_below fs root none = inl path_escapes_task_root
capture_below fs root (some names) = capture_from fs root names

unfoldable pub capture : FileSystem → FilePath → FilePath → PathError ⊎ Guard
capture fs root destination = elim (parent destination) [
  | none ↦ inl no_parent
  | some above ↦ capture_below fs root (strip_root root above)
]

abbrev pub compare_identity : Identity → PathError ⊎ Identity → Option PathError
compare_identity expected (inl error) = some error
compare_identity expected (inr current) =
    if same_identity current expected then none else some identity_changed

unfoldable pub validate : FileSystem → Guard → Option PathError
validate fs [] = none
validate fs ((path, identity) ∷ guard) =
    let rest = validate fs guard in
    elim (compare_identity identity (directory_identity fs path)) [
      | some error ↦ some error
      | none ↦ rest
    ]

abbrev checked_root : FileSystem → FilePath → Option PathError → PathError ⊎ FilePath
checked_root fs root (some error) = inl error
checked_root fs root none = elim (fs.symlink_metadata root) [
  | found m ↦ if m.is_dir then inr root else inl not_a_directory
  | not_found ↦ inl (io "not found")
  | failed error ↦ inl (io error)
]

-- `TaskRootHandle::new`: the handle is its root. A root that is no link has one metadata.
unfoldable pub new_handle : FileSystem → FilePath → PathError ⊎ FilePath
new_handle fs root = checked_root fs root (ensure_not_link_or_reparse fs root)

module _ {W : Type 0} (view : W → FileSystem) (create_dir : FilePath → W → W × Option String) where
  abbrev pub captured : FilePath → FilePath → W × Option PathError → W × (PathError ⊎ Guard)
  captured root destination (w, some error) = (w, inl error)
  captured root destination (w, none) = (w, capture (view w) root destination)

  unfoldable pub prepare_mutation : FilePath → FilePath → W → W × (PathError ⊎ Guard)
  prepare_mutation root destination w =
      captured root destination (create_safe_parent_dirs view create_dir root destination w)
