-- ===== src/Transient/Cleanup.antt =====
-- What the removal of transient files leaves of a directory tree.
use lan_bridge.Base.{
  String, Bool, true, ◌&&◌, not, Option, none, some, List, [], ◌∷◌, ◌++◌, ◌≡◌, refl, sym, ap, ◌∙◌,
  inl, inr, string_eq, any, if◌then◌else◌, Bool-cases, map, filter,
}
use lan_bridge.Transient.{
  Entry, directory, file, other, Entries, none_left, entry, cleaned,
  cleanup_lanbridge_transient_files, is_lanbridge_transient_dir_name,
  is_lanbridge_partial_file_name,
}

pub data Kind : Type 0 where
  a_directory a_file another : Kind

-- An entry at any depth, with the directories that it lies in.
pub record Item : Type 0 where
  pub parents : List String
  pub name : String
  pub kind : Kind

abbrev pub below : String → Item → Item
below directory_name item = record item { parents = directory_name ∷ item.parents }

-- All entries of a tree, at any depth.
unfoldable mutual
  pub items : Entry → List Item
  items (directory name entries) =
      record { parents = []; name = name; kind = a_directory }
      ∷ map (below name) (all_items entries)
  items (file name) = record { parents = []; name = name; kind = a_file } ∷ []
  items (other name) = record { parents = []; name = name; kind = another } ∷ []

  pub all_items : Entries → List Item
  all_items none_left = []
  all_items (entry e entries) = items e ++ all_items entries

abbrev pub is_kept_itself : Kind → String → Bool
is_kept_itself a_directory name = not (is_lanbridge_transient_dir_name name)
is_kept_itself a_file name = not (is_lanbridge_partial_file_name name)
is_kept_itself another name = true

-- Neither a temporary directory nor in one, and no partial file.
unfoldable pub is_kept : Item → Bool
is_kept item =
    not (any is_lanbridge_transient_dir_name item.parents) && is_kept_itself item.kind item.name

filter-append {ℓ} :
    {A : Type ℓ} (p : A → Bool) (xs ys : List A) → filter p (xs ++ ys) ≡ filter p xs ++ filter p ys
unfolding filter
filter-append p [] ys = refl
filter-append p (x ∷ xs) ys = elim (Bool-cases (p x)) [
  | inl kept ↦ rw kept (ap (λ l. x ∷ l) (filter-append p xs ys))
  | inr gone ↦ rw gone (filter-append p xs ys)
]

filter-below :
    (name : String) (xs : List Item)
    → filter is_kept (map (below name) xs)
      ≡ (if is_lanbridge_transient_dir_name name then [] else map (below name) (filter is_kept xs))
unfolding filter is_kept
filter-below name [] = elim (Bool-cases (is_lanbridge_transient_dir_name name)) [
  | inl temp ↦ rw temp refl
  | inr plain ↦ rw plain refl
]
filter-below name (x ∷ xs) = elim (Bool-cases (is_lanbridge_transient_dir_name name)) [
  | inl temp ↦
      let ih : filter is_kept (map (below name) xs) ≡ [] = rw temp at (filter-below name xs) in
      rw temp (rw ih refl)
  | inr plain ↦
      let ih : filter is_kept (map (below name) xs) ≡ map (below name) (filter is_kept xs) =
        rw plain at (filter-below name xs) in
      elim (Bool-cases (is_kept x)) [
        | inl kept ↦ rw (plain, kept) (ap (λ l. below name x ∷ l) ih)
        | inr gone ↦ rw (plain, gone) ih
      ]
]

abbrev left_items : Option Entry → List Item
left_items none = []
left_items (some e) = items e

all_items-cleanup_entry :
    (found : Option Entry) (rest : Entries)
    → all_items (elim found as (λ _. Entries) [ none ↦ rest | some left ↦ entry left rest ])
      ≡ left_items found ++ all_items rest
unfolding items
all_items-cleanup_entry none rest = refl
all_items-cleanup_entry (some e) rest = refl

mutual
  unfolding items cleaned filter is_kept

  items-cleaned : (e : Entry) → left_items (cleaned e) ≡ filter is_kept (items e)
  items-cleaned (directory name entries) =
      elim (Bool-cases (is_lanbridge_transient_dir_name name)) [
        | inl temp ↦
            let inside : filter is_kept (map (below name) (all_items entries)) ≡ [] =
              rw temp at (filter-below name (all_items entries)) in
            rw temp (sym inside)
        | inr plain ↦
            let inside : filter is_kept (map (below name) (all_items entries))
                ≡ map (below name) (filter is_kept (all_items entries)) =
              rw plain at (filter-below name (all_items entries)) in
            rw plain (
              ap (λ l. record { parents = []; name = name; kind = a_directory } ∷ l)
                (ap (map (below name)) (all_items_cleaned entries) ∙ sym inside))
      ]
  items-cleaned (file name) = elim (Bool-cases (is_lanbridge_partial_file_name name)) [
    | inl partial ↦ rw partial refl
    | inr whole ↦ rw whole refl
  ]
  items-cleaned (other name) = refl

  all_items_cleaned :
      (entries : Entries)
      → all_items (cleanup_lanbridge_transient_files entries) ≡ filter is_kept (all_items entries)
  all_items_cleaned none_left = refl
  all_items_cleaned (entry e entries) =
      all_items-cleanup_entry (cleaned e) (cleanup_lanbridge_transient_files entries)
      ∙ rw (items-cleaned e, all_items_cleaned entries)
          (sym (filter-append is_kept (items e) (all_items entries)))

-- Removing the transient files of a tree leaves exactly the entries, at any depth, that are neither
-- the temporary directory nor inside one and are no partial file, in their order.
pub all_items-cleanup_lanbridge_transient_files :
    (entries : Entries)
    → all_items (cleanup_lanbridge_transient_files entries) ≡ filter is_kept (all_items entries)
all_items-cleanup_lanbridge_transient_files entries = all_items_cleaned entries
