-- ===== src/PathSafety/Parents/Made.antt =====
-- The directories above a destination are there when they have been made.
use lan_bridge.Base.{
  String, true, false, Option, none, some, [], ◌∷◌, ◌++◌, ◌≡◌, refl, sym, ap, ◌∙◌, inl, inr,
  Bool-cases,
}
use mathlib.Core.Path.{subst}
use mathlib.Core.Option.{none-ne-some}
use lan_bridge.PathSafety.Links.{strip_root-append}
use lan_bridge.PathSafety.{
  FilePath, FileSystem, Metadata, Answer, found, not_found, failed, PathError, is_link,
  ensure_not_link_or_reparse, validate_filesystem_boundary,
}
use lan_bridge.PathSafety.Parents.{
  made, found_or_made, and_then, check_boundary, create_component, create_components, create_below,
  create_safe_parent_dirs, AreDirectories,
}
use lan_bridge.PathSafety.Parents.Kept.{IsKept, create_components_keeps, parent-append}

-- The two laws are those of `std::fs::create_dir`: it leaves what is there as it is, and if it
-- succeeds there is a directory.
module _ {W : Type 0} (view : W → FileSystem) (create_dir : FilePath → W → W × Option String)
    (keeps : (path : FilePath) (w : W) → IsKept (view w) (view (create_dir path w).0))
    (makes : (path : FilePath) (w : W)
      → (create_dir path w).1 ≡ none
      → (m : Metadata) × ((view (create_dir path w).0).symlink_metadata path ≡ found m)
        × (m.is_dir ≡ true)) where
  abbrev Run : Type 0
  Run = W × Option PathError

  abbrev then_do : Run → (W → Run) → Run
  then_do = and_then view create_dir

  and_then-ok :
      (r : Run) (rest : W → Run)
      → (then_do r rest).1 ≡ none
      → (r.1 ≡ none) × (then_do r rest ≡ rest r.0)
  and_then-ok (v, none) rest h = (refl, refl)
  and_then-ok (v, some error) rest h = absurd (none-ne-some error (sym h))

  -- What a name leads to is a directory.
  abbrev IsDirectoryAt : FileSystem → FilePath → Type 0
  IsDirectoryAt fs path =
      (m : Metadata) × (fs.symlink_metadata path ≡ found m)
      × (m.is_dir ≡ true)
      × (is_link m ≡ false)

  not_link-found :
      (fs : FileSystem) (path : FilePath) (m : Metadata)
      → ensure_not_link_or_reparse fs path ≡ none
      → fs.symlink_metadata path ≡ found m
      → is_link m ≡ false
  unfolding ensure_not_link_or_reparse
  not_link-found fs path m h e = elim (Bool-cases (is_link m)) [
    | inl link ↦ absurd (none-ne-some _ (sym (rw (e, link, ensure_not_link_or_reparse) at h)))
    | inr plain ↦ plain
  ]

  made-IsDirectoryAt :
      (path : FilePath) (r : W × Option String)
      → (r.1 ≡ none
          → (m : Metadata) × ((view r.0).symlink_metadata path ≡ found m) × (m.is_dir ≡ true))
      → (made view create_dir path r).1 ≡ none
      → IsDirectoryAt (view (made view create_dir path r).0) path
  made-IsDirectoryAt path (v, none) k h =
      let (m, there, dir) = k refl in (m, there, dir, not_link-found (view v) path m h there)
  made-IsDirectoryAt path (v, some error) k h = absurd (none-ne-some _ (sym h))

  found_or_made-IsDirectoryAt :
      (path : FilePath) (w : W) (answer : Answer)
      → (view w).symlink_metadata path ≡ answer
      → (found_or_made view create_dir path w answer).1 ≡ none
      → IsDirectoryAt (view (found_or_made view create_dir path w answer).0) path
  found_or_made-IsDirectoryAt path w (found m) e h = elim (Bool-cases (is_link m)) [
    | inl link ↦ absurd (none-ne-some _ (sym (rw (link, found_or_made) at h)))
    | inr plain ↦ elim (Bool-cases m.is_dir) [
      | inl dir ↦ rw (plain, dir) (m, e, dir, plain)
      | inr file ↦ absurd (none-ne-some _ (sym (rw (plain, file, found_or_made) at h)))
    ]
  ]
  found_or_made-IsDirectoryAt path w not_found e h =
      made-IsDirectoryAt path (create_dir path w) (makes path w) h
  found_or_made-IsDirectoryAt path w (failed error) e h = absurd (none-ne-some _ (sym h))

  create_component-IsDirectoryAt :
      (root path : FilePath) (w : W)
      → (create_component view create_dir root path w).1 ≡ none
      → IsDirectoryAt (view (create_component view create_dir root path w).0) path
  unfolding create_component
  create_component-IsDirectoryAt root path w h =
      let answer = (view w).symlink_metadata path in
      let r : Run = found_or_made view create_dir path w answer in
      let (ok, same) = and_then-ok r (check_boundary view create_dir root path) h in
      rw same (found_or_made-IsDirectoryAt path w answer refl ok)

  IsDirectoryAt-kept :
      (before after : FileSystem) (path : FilePath)
      → IsKept before after
      → IsDirectoryAt before path
      → IsDirectoryAt after path
  IsDirectoryAt-kept before after path h (m, there, dir, plain) = (m, h path m there, dir, plain)

  create_components-AreDirectories :
      (root current names : FilePath) (w : W)
      → (create_components view create_dir root current names w).1 ≡ none
      → AreDirectories
          (view (create_components view create_dir root current names w).0)
          current
          names
  unfolding create_components
  create_components-AreDirectories root current [] w h = tt
  create_components-AreDirectories root current (name ∷ names) w h =
      let next = current ++ (name ∷ []) in
      let first : Run = create_component view create_dir root next w in
      let (ok, same) =
        and_then-ok first (λ after. create_components view create_dir root next names after) h in
      let rest_ok : (create_components view create_dir root next names first.0).1 ≡ none =
        rw same at h in
      subst (λ (r : Run). AreDirectories (view r.0) current (name ∷ names)) (sym same)
        (
          IsDirectoryAt-kept (view first.0)
              (view (create_components view create_dir root next names first.0).0) next
              (create_components_keeps view create_dir keeps root next names first.0)
              (create_component-IsDirectoryAt root next w ok),
          create_components-AreDirectories root next names first.0 rest_ok,
        )

  create_below-AreDirectories :
      (root destination names : FilePath) (w : W)
      → (create_below view create_dir root destination w (some names)).1 ≡ none
      → AreDirectories
          (view (create_below view create_dir root destination w (some names)).0)
          root
          names
        × (validate_filesystem_boundary
              (view (create_below view create_dir root destination w (some names)).0)
              root
              destination
            ≡ none)
  create_below-AreDirectories root destination names w h =
      let inner : W → Run = λ v.
        then_do (create_components view create_dir root root names v)
          (check_boundary view create_dir root destination) in
      let (plain, first) = and_then-ok (w, ensure_not_link_or_reparse (view w) root) inner h in
      let inner_ok : (inner w).1 ≡ none = ap (λ (r : Run). r.1) (sym first) ∙ h in
      let (ok, second) =
        and_then-ok (create_components view create_dir root root names w)
          (check_boundary view create_dir root destination) inner_ok in
      let last : W = (create_components view create_dir root root names w).0 in
      let result : create_below view create_dir root destination w (some names)
          ≡ check_boundary view create_dir root destination last =
        first ∙ second in
      let checked : validate_filesystem_boundary (view last) root destination ≡ none =
        ap (λ (r : Run). r.1) (sym second) ∙ inner_ok in
      subst
        (λ (r : Run).
          AreDirectories (view r.0) root names
          × (validate_filesystem_boundary (view r.0) root destination ≡ none))
        (sym result) (create_components-AreDirectories root root names w ok, checked)

  create_safe_parent_dirs-below :
      (root names : FilePath) (leaf : String) (w : W)
      → create_safe_parent_dirs view create_dir root ((root ++ names) ++ (leaf ∷ [])) w
        ≡ create_below view create_dir root ((root ++ names) ++ (leaf ∷ [])) w (some names)
  unfolding create_safe_parent_dirs
  create_safe_parent_dirs-below root names leaf w =
      rw (parent-append (root ++ names) leaf, create_safe_parent_dirs, strip_root-append root names)
        refl

  -- If making the parents of a destination succeeds, all of them are directories and no links, and
  -- the destination passes the check of the boundary.
  pub create_safe_parent_dirs-AreDirectories :
      (root names : FilePath) (leaf : String) (w : W)
      → (create_safe_parent_dirs view create_dir root ((root ++ names) ++ (leaf ∷ [])) w).1 ≡ none
      → AreDirectories
          (view (create_safe_parent_dirs view create_dir root ((root ++ names) ++ (leaf ∷ [])) w).0)
          root
          names
        × (validate_filesystem_boundary
              (view
                (create_safe_parent_dirs view create_dir root ((root ++ names) ++ (leaf ∷ [])) w).0)
              root
              ((root ++ names) ++ (leaf ∷ []))
            ≡ none)
  create_safe_parent_dirs-AreDirectories root names leaf w h =
      let same = create_safe_parent_dirs-below root names leaf w in
      let ok = ap (λ (r : Run). r.1) (sym same) ∙ h in
      subst
        (λ (r : Run).
          AreDirectories (view r.0) root names
          × (validate_filesystem_boundary (view r.0) root ((root ++ names) ++ (leaf ∷ [])) ≡ none))
        (sym same) (create_below-AreDirectories root ((root ++ names) ++ (leaf ∷ [])) names w ok)
