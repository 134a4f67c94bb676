-- ===== src/Coordinator/Detached.antt =====
-- Requests that leave the lists of children and the tables apart.
use collective.Prelude.{
  ◌<◌, ◌≡◌, ◌≢◌, ap, ◌∙◌, Bool, true, false, none, some, List, [], ◌∷◌, arith, length, any, ok, err,
}
use collective.Text.{Text, same, same_iff}
use collective.Dict.{lookup, is_some, lookup-erase}
use collective.Coordinator.{
  Coordinator, Directory, Answer, root, normalize, get_parent_path, is_below_root, update_children,
  without_child, no_parent, not_empty,
}
use collective.Coordinator.Creation.{touched, lookup-update_children, is_some-update_children}
use collective.Coordinator.Removal.{delete_directory, delete_found, has_children, unlink_directory}
use collective.Coordinator.Moving.{is_below, detach, relink, move_directory, move_at, move_file}

lookup-detach :
    (c : Coordinator) (path key : Text) (d : Directory)
    → get_parent_path path ≢ []
    → lookup key c.directories ≡ some d
    → lookup key (detach c path).directories
      ≡ some (touched (without_child path) (get_parent_path path) key d)
unfolding detach
lookup-detach c path key d n h = ground (
  arith,
  same_iff (get_parent_path path) [],
  n,
  lookup-update_children (without_child path) (get_parent_path path) key c.directories,
)

move_at-relink :
    (c : Coordinator) (old_path new_path : Text)
    → old_path ≢ root
    → is_some (lookup old_path c.directories) ≡ true
    → lookup new_path c.directories ≡ none
    → lookup new_path c.file_entries ≡ none
    → is_below old_path new_path ≡ false
    → move_at c old_path new_path ≡ relink c old_path new_path
unfolding move_at move_directory
move_at-relink c old_path new_path n there free no_file beside =
    ground (arith, same_iff old_path root)

relink_fails :
    (c : Coordinator) (old_path new_path : Text)
    → is_below_root (get_parent_path new_path) ≡ true
    → lookup (get_parent_path new_path) c.directories ≡ none
    → relink c old_path new_path ≡ (err no_parent, detach c old_path)
unfolding relink detach
relink_fails c old_path new_path below missing = ground (
  arith,
  is_some-update_children (without_child old_path) (get_parent_path old_path)
      (get_parent_path new_path) c.directories,
)

-- A directory is moved to a free path whose parent is no directory. The request fails, yet the
-- directory is gone from the children of its parent, while it still stands in the table.
pub move_at_detaches :
    (c : Coordinator) (old_path new_path : Text) (d p : Directory)
    → old_path ≢ root
    → lookup old_path c.directories ≡ some d
    → lookup (get_parent_path old_path) c.directories ≡ some p
    → get_parent_path old_path ≢ []
    → get_parent_path old_path ≢ old_path
    → lookup new_path c.directories ≡ none
    → lookup new_path c.file_entries ≡ none
    → is_below old_path new_path ≡ false
    → is_below_root (get_parent_path new_path) ≡ true
    → lookup (get_parent_path new_path) c.directories ≡ none
    → ((move_at c old_path new_path).0 ≡ err no_parent)
      × (lookup old_path (move_at c old_path new_path).1.directories ≡ some d)
      × (lookup (get_parent_path old_path) (move_at c old_path new_path).1.directories
          ≡ some (record p { children = without_child old_path p.children }))
move_at_detaches c old_path new_path d p n there parent has_parent other free no_file beside below
      missing =
    let e =
      move_at-relink c old_path new_path n (ap is_some there) free no_file beside
      ∙ relink_fails c old_path new_path below missing in
    (
      ap (λ (a : Answer). a.0) e,
      ap (λ (a : Answer). lookup old_path a.1.directories) e
          ∙ lookup-detach c old_path old_path d has_parent there
          ∙ ground (arith, same_iff (get_parent_path old_path) old_path),
      ap (λ (a : Answer). lookup (get_parent_path old_path) a.1.directories) e
          ∙ lookup-detach c old_path (get_parent_path old_path) p has_parent parent
          ∙ ground (arith, same_iff (get_parent_path old_path) (get_parent_path old_path)),
    )

pub delete_directory-delete_found :
    (c : Coordinator) (path normal : Text) (recursive : Bool) (d : Directory)
    → path ≢ []
    → path ≢ root
    → normalize path ≡ normal
    → lookup normal c.directories ≡ some d
    → delete_directory c path recursive ≡ delete_found c normal recursive d
unfolding delete_directory
delete_directory-delete_found c path normal recursive d n m e there =
    rw (e, delete_directory) (ground (arith, same_iff path [], same_iff path root, there))

delete_found_bare :
    (c : Coordinator) (path : Text) (d : Directory)
    → has_children c path d ≡ false
    → delete_found c path false d ≡ (ok tt, unlink_directory c path)
unfolding delete_found
delete_found_bare c path d h = ground arith

delete_found_full :
    (c : Coordinator) (path : Text) (d : Directory)
    → 0 < length d.children
    → delete_found c path false d ≡ (err not_empty, c)
unfolding delete_found
delete_found_full c path d h = ground arith

pub lookup-unlink_directory :
    (c : Coordinator) (path : Text) → lookup path (unlink_directory c path).directories ≡ none
unfolding unlink_directory
lookup-unlink_directory c path = ground (
  arith,
  same_iff path path,
  lookup-erase path path c.directories,
  lookup-erase path path
      (update_children (without_child path) (get_parent_path path) c.directories),
)

move_file-directories :
    (c : Coordinator) (source dest : Text) → (move_file c source dest).1.directories ≡ c.directories
unfolding move_file
move_file-directories c source dest = ground arith

any_positive :
    (source : Text) (children : List Text) → any (same source) children ≡ true → 0 < length children
any_positive source [] h = absurd (cc)
any_positive source (x ∷ xs) h = omega arith

-- The guard of `delete_directory` looks at the path as given: a path that is only after Clean the
-- root, such as //, deletes the root directory, where that is empty.
delete_directory-root :
    (c : Coordinator) (path : Text) (d : Directory)
    → path ≢ []
    → path ≢ root
    → normalize path ≡ root
    → lookup root c.directories ≡ some d
    → has_children c root d ≡ false
    → ((delete_directory c path false).0 ≡ ok tt)
      × (lookup root (delete_directory c path false).1.directories ≡ none)
delete_directory-root c path d n m e there bare =
    let gone =
      delete_directory-delete_found c path root false d n m e there
      ∙ delete_found_bare c root d bare in
    (
      ap (λ (a : Answer). a.0) gone,
      ap (λ (a : Answer). lookup root a.1.directories) gone ∙ lookup-unlink_directory c root,
    )

-- Moving a file leaves it among the children of the directory that listed it, which then cannot be
-- deleted as an empty one.
pub delete_directory-move_file :
    (c : Coordinator) (source dest path : Text) (d : Directory)
    → path ≢ []
    → path ≢ root
    → normalize path ≡ get_parent_path source
    → lookup (get_parent_path source) c.directories ≡ some d
    → any (same source) d.children ≡ true
    → (delete_directory (move_file c source dest).1 path false).0 ≡ err not_empty
delete_directory-move_file c source dest path d n m e there listed =
    ap (λ (a : Answer). a.0)
      (delete_directory-delete_found (move_file c source dest).1 path (get_parent_path source) false
          d n m e
          (ap (lookup (get_parent_path source)) (move_file-directories c source dest) ∙ there)
        ∙ delete_found_full (move_file c source dest).1 (get_parent_path source) d
            (any_positive source d.children listed))
