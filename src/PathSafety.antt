-- ===== src/PathSafety.antt =====
-- src-tauri/src/core/path_safety.rs: how the path that a peer names is joined to the root of a task. A
-- path is the list of its names from the root of the file system, and `Component` is that of
-- `std::path` on a Unix system. What the file system answers is an argument.
pub mod Join
pub mod Plain
pub mod Links
pub mod Parents
pub mod Guards
use lan_bridge.Base.{
  ℕ, String, Bool, true, false, ◌||◌, ◌&&◌, not, Option, none, some, List, [], ◌∷◌, ◌++◌, ◌⊎◌, inl,
  inr, ◌==◌, string_eq, any, if◌then◌else◌,
}
use lan_bridge.Base.Text.{split, is_empty, ends_with, contains_char, is_uppercase_of}

abbrev pub FilePath : Type 0
FilePath = List String

pub data Component : Type 0 where
  root_dir cur_dir parent_dir : Component
  normal : String → Component

pub data PathError : Type 0 where
  invalid_relative_path empty_relative_path trailing_dot_or_space invalid_character : PathError
  reserved_device_name : String → PathError
  path_escapes_task_root outside_task_root symlink_not_allowed not_a_directory : PathError
  no_parent unable_to_inspect canonicalize_failed identity_changed : PathError
  io : String → PathError

pub record Metadata : Type 0 where
  pub is_dir : Bool
  pub is_symlink : Bool
  pub is_reparse_point : Bool
  pub identity : ℕ × ℕ

-- What `symlink_metadata` answers.
pub data Answer : Type 0 where
  found : Metadata → Answer
  not_found : Answer
  failed : String → Answer

-- `exists` follows links, which `symlink_metadata` does not.
pub record FileSystem : Type 0 where
  pub symlink_metadata : FilePath → Answer
  pub exists : FilePath → Bool
  pub canonicalize : FilePath → Option FilePath

-- `.` is a component only at the start of a path, and empty pieces are none.
abbrev pub component : String → Component
component piece = if piece == ".." then parent_dir else normal piece

unfoldable pub inner_components : List String → List Component
inner_components [] = []
inner_components (piece ∷ pieces) =
    let rest = inner_components pieces in
    if is_empty piece || piece == "." then rest else component piece ∷ rest

unfoldable pub components_of_pieces : List String → List Component
components_of_pieces [] = []
components_of_pieces (piece ∷ pieces) =
    if piece == "." then cur_dir ∷ inner_components pieces else inner_components (piece ∷ pieces)

abbrev pub starts_at_root : List String → List Component → List Component
starts_at_root (String.[] ∷ piece ∷ pieces) components =
    root_dir ∷ inner_components (piece ∷ pieces)
starts_at_root pieces components = components

-- `Path::new(path).components()`
unfoldable pub components : String → List Component
components path = starts_at_root (split b'/' path) (components_of_pieces (split b'/' path))

unfoldable pub reserved_names : List String
reserved_names =
    "CON" ∷ "PRN" ∷ "AUX" ∷ "NUL" ∷ "COM1" ∷ "COM2" ∷ "COM3" ∷ "COM4" ∷ "COM5" ∷ "COM6" ∷ "COM7"
    ∷ "COM8" ∷ "COM9" ∷ "LPT1" ∷ "LPT2" ∷ "LPT3" ∷ "LPT4" ∷ "LPT5" ∷ "LPT6" ∷ "LPT7" ∷ "LPT8"
    ∷ "LPT9" ∷ []

abbrev pub forbidden_characters : List ℕ
forbidden_characters = 0 ∷ b'<' ∷ b'>' ∷ b':' ∷ b'"' ∷ b'|' ∷ b'?' ∷ b'*' ∷ []

-- `name.split('.').next()`
abbrev pub first_piece : List String → String → String
first_piece [] name = name
first_piece (piece ∷ pieces) name = piece

-- Whether the part before the first dot, in capitals, is the name of a device.
unfoldable pub names_device : String → Bool
names_device name = any (is_uppercase_of (first_piece (split b'.' name) name)) reserved_names

-- The error of the check, if it fails. Components are never empty and always UTF-8 here.
unfoldable pub validate_safe_component : String → Option PathError
validate_safe_component name =
    if ends_with name "." || ends_with name " "
    then some trailing_dot_or_space
    else if any (λ c. contains_char c name) forbidden_characters
    then some invalid_character
    else if names_device name
    then some (reserved_device_name name)
    else none

abbrev pub prepend : String → PathError ⊎ FilePath → PathError ⊎ FilePath
prepend name (inl error) = inl error
prepend name (inr names) = inr (name ∷ names)

-- The loop of `safe_join`: the names that it pushes, or its first error.
unfoldable pub pushed_names : List Component → PathError ⊎ FilePath
pushed_names [] = inr []
pushed_names (normal name ∷ rest) =
    let others = pushed_names rest in
    elim (validate_safe_component name) [ some error ↦ inl error | none ↦ prepend name others ]
pushed_names (cur_dir ∷ rest) = pushed_names rest
pushed_names (root_dir ∷ rest) = inl invalid_relative_path
pushed_names (parent_dir ∷ rest) = inl invalid_relative_path

abbrev pub is_link : Metadata → Bool
is_link metadata = metadata.is_symlink || metadata.is_reparse_point

abbrev pub answers_ok : Answer → Bool
answers_ok (found m) = true
answers_ok not_found = false
answers_ok (failed e) = false

-- `path.strip_prefix(root)`
unfoldable pub strip_root : FilePath → FilePath → Option FilePath
strip_root [] path = some path
strip_root (r ∷ root) [] = none
strip_root (r ∷ root) (p ∷ path) = let rest = strip_root root path in if r == p then rest else none

abbrev pub is_within : FilePath → FilePath → Bool
is_within root path = elim (strip_root root path) [ none ↦ false | some rest ↦ true ]

unfoldable pub ensure_not_link_or_reparse : FileSystem → FilePath → Option PathError
ensure_not_link_or_reparse fs path = elim (fs.symlink_metadata path) [
  | found metadata ↦ if is_link metadata then some symlink_not_allowed else none
  | not_found ↦ some (io "not found")
  | failed error ↦ some (io error)
]

-- The longest of the paths from `path` down through the names that exists: the loop tries the longest
-- first and pops one name after the other.
unfoldable pub existing_ancestor_from : FileSystem → FilePath → FilePath → Option FilePath
existing_ancestor_from fs path [] =
    if answers_ok (fs.symlink_metadata path) then some path else none
existing_ancestor_from fs path (name ∷ names) =
    let deeper = existing_ancestor_from fs (path ++ (name ∷ [])) names in
    elim deeper [
      | some p ↦ some p
      | none ↦ if answers_ok (fs.symlink_metadata path) then some path else none
    ]

unfoldable pub existing_ancestor : FileSystem → FilePath → Option FilePath
existing_ancestor fs path = existing_ancestor_from fs [] path

-- The walk from the root to the destination, which ends at the first name that is missing.
unfoldable pub check_links : FileSystem → FilePath → FilePath → Option PathError
check_links fs current [] = none
check_links fs current (name ∷ names) =
    let deeper = check_links fs (current ++ (name ∷ [])) names in
    elim (fs.symlink_metadata (current ++ (name ∷ []))) [
      | found metadata ↦ if is_link metadata then some symlink_not_allowed else deeper
      | not_found ↦ none
      | failed error ↦ some (io error)
    ]

abbrev pub check_walk : FileSystem → FilePath → Option FilePath → Option PathError
check_walk fs root none = some outside_task_root
check_walk fs root (some names) = check_links fs root names

abbrev pub check_canonical :
    FileSystem → FilePath → FilePath → FilePath → Option FilePath → Option PathError
check_canonical fs root destination canonical_root none = some canonicalize_failed
check_canonical fs root destination canonical_root (some canonical) =
    if is_within canonical_root canonical
    then check_walk fs root (strip_root root destination)
    else some path_escapes_task_root

abbrev pub check_existing :
    FileSystem → FilePath → FilePath → FilePath → Option FilePath → Option PathError
check_existing fs root destination canonical_root none = some unable_to_inspect
check_existing fs root destination canonical_root (some existing) =
    check_canonical fs root destination canonical_root (fs.canonicalize existing)

abbrev pub root_link : FileSystem → FilePath → Option PathError
root_link fs root = if fs.exists root then ensure_not_link_or_reparse fs root else none

abbrev pub check_root : FileSystem → FilePath → FilePath → Option FilePath → Option PathError
check_root fs root destination none = some canonicalize_failed
check_root fs root destination (some canonical_root) = elim (root_link fs root) [
  | some error ↦ some error
  | none ↦ check_existing fs root destination canonical_root (existing_ancestor fs destination)
]

unfoldable pub validate_filesystem_boundary : FileSystem → FilePath → FilePath → Option PathError
validate_filesystem_boundary fs root destination = elim (existing_ancestor fs root) [
  | none ↦ none
  | some ancestor ↦ check_root fs root destination (fs.canonicalize ancestor)
]

abbrev pub joined : FileSystem → FilePath → PathError ⊎ FilePath → PathError ⊎ FilePath
joined fs root (inl error) = inl error
joined fs root (inr []) = inl empty_relative_path
joined fs root (inr (name ∷ names)) =
    elim (validate_filesystem_boundary fs root (root ++ (name ∷ names))) [
      | some error ↦ inl error
      | none ↦ inr (root ++ (name ∷ names))
    ]

unfoldable pub safe_join : FileSystem → FilePath → String → PathError ⊎ FilePath
safe_join fs root relative_path = joined fs root (pushed_names (components relative_path))
