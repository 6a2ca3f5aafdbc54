-- ===== src/PathSafety/Parents/Kept.antt =====
-- Making directories leaves what is there.
use lan_bridge.Base.{
  String, Option, none, some, [], ◌∷◌, ◌++◌, ◌≡◌, refl, inl, inr, Bool-cases, Option-cases,
}
use lan_bridge.PathSafety.{
  FilePath, FileSystem, Metadata, Answer, found, not_found, failed, PathError, is_link,
  ensure_not_link_or_reparse, strip_root,
}
use lan_bridge.PathSafety.Parents.{
  parent, made, found_or_made, and_then, check_boundary, create_component, create_components,
  create_below, create_safe_parent_dirs,
}

-- What is in the first is in the second.
abbrev pub IsKept : FileSystem → FileSystem → Type 0
IsKept before after =
    (path : FilePath) (m : Metadata)
    → before.symlink_metadata path ≡ found m
    → after.symlink_metadata path ≡ found m

pub parent-append : (path : FilePath) (leaf : String) → parent (path ++ (leaf ∷ [])) ≡ some path
unfolding parent
parent-append [] leaf = refl
parent-append (name ∷ path) leaf = rw (parent-append path leaf) refl

-- A law of `std::fs::create_dir`: it leaves what is there as it is.
module _ {W : Type 0} (view : W → FileSystem) (create_dir : FilePath → W → W × Option String)
    (keeps : (path : FilePath) (w : W) → IsKept (view w) (view (create_dir path w).0)) where
  abbrev Run : Type 0
  Run = W × Option PathError

  abbrev then_do : Run → (W → Run) → Run
  then_do = and_then view create_dir

  and_then_keeps :
      (w : W) (r : Run) (rest : W → Run)
      → IsKept (view w) (view r.0)
      → ((v : W) → IsKept (view v) (view (rest v).0))
      → IsKept (view w) (view (then_do r rest).0)
  and_then_keeps w (v, none) rest h k = λ p m e. k v p m (h p m e)
  and_then_keeps w (v, some error) rest h k = h

  made_keeps :
      (path : FilePath) (w : W) (r : W × Option String)
      → IsKept (view w) (view r.0)
      → IsKept (view w) (view (made view create_dir path r).0)
  made_keeps path w (v, none) h = h
  made_keeps path w (v, some error) h = h

  found_or_made_keeps :
      (path : FilePath) (w : W) (answer : Answer)
      → IsKept (view w) (view (found_or_made view create_dir path w answer).0)
  found_or_made_keeps path w (found m) = λ p own e. elim (Bool-cases (is_link m)) [
    | inl link ↦ rw link e
    | inr plain ↦ elim (Bool-cases m.is_dir) [
      | inl dir ↦ rw (plain, dir) e
      | inr file ↦ rw (plain, file) e
    ]
  ]
  found_or_made_keeps path w not_found = made_keeps path w (create_dir path w) (keeps path w)
  found_or_made_keeps path w (failed error) = λ p m e. e

  create_component_keeps :
      (root path : FilePath) (w : W)
      → IsKept (view w) (view (create_component view create_dir root path w).0)
  unfolding create_component
  create_component_keeps root path w =
      and_then_keeps w (found_or_made view create_dir path w ((view w).symlink_metadata path))
        (check_boundary view create_dir root path)
        (found_or_made_keeps path w ((view w).symlink_metadata path)) (λ v p m e. e)

  pub create_components_keeps :
      (root current names : FilePath) (w : W)
      → IsKept (view w) (view (create_components view create_dir root current names w).0)
  unfolding create_components
  create_components_keeps root current [] w = λ p m e. e
  create_components_keeps root current (name ∷ names) w =
      and_then_keeps w (create_component view create_dir root (current ++ (name ∷ [])) w)
        (λ after. create_components view create_dir root (current ++ (name ∷ [])) names after)
        (create_component_keeps root (current ++ (name ∷ [])) w)
        (λ v. create_components_keeps root (current ++ (name ∷ [])) names v)

  create_below_keeps :
      (root destination : FilePath) (w : W) (names : Option FilePath)
      → IsKept (view w) (view (create_below view create_dir root destination w names).0)
  create_below_keeps root destination w none = λ p m e. e
  create_below_keeps root destination w (some names) =
      and_then_keeps w (w, ensure_not_link_or_reparse (view w) root) _ (λ p m e. e)
        (λ u.
          and_then_keeps u (create_components view create_dir root root names u)
            (check_boundary view create_dir root destination)
            (create_components_keeps root root names u) (λ v p m e. e))

  -- Making the parents of a destination leaves every entry that is there as it is, also when it
  -- fails.
  pub create_safe_parent_dirs_keeps :
      (root destination path : FilePath) (w : W) (m : Metadata)
      → (view w).symlink_metadata path ≡ found m
      → (view (create_safe_parent_dirs view create_dir root destination w).0).symlink_metadata path
        ≡ found m
  unfolding create_safe_parent_dirs
  create_safe_parent_dirs_keeps root destination path w m h =
      elim (Option-cases (parent destination)) [
        | inl top ↦ rw (top, create_safe_parent_dirs) h
        | inr (above, e) ↦
            rw (e, create_safe_parent_dirs)
              (create_below_keeps root destination w (strip_root root above) path m h)
      ]
