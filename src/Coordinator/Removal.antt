-- ===== src/Coordinator/Removal.antt =====
-- pkg/coordinator/operations.go: removeDirectoryRecursive and DeleteDirectory. The recursion takes
-- fuel, and none means that it ran out.
use collective.Prelude.{
  ℕ, zero, suc, ◌+◌, Bool, not, ◌&&◌, ◌||◌, Option, none, some, List, [], ◌∷◌, if◌then◌else◌, ltb,
  length, any, keep, ok, err,
}
use collective.Text.{Text, same}
use collective.Dict.{Dict, lookup, erase, is_some}
use collective.Coordinator.{
  Coordinator, Directory, FileEntry, Answer, root, normalize, get_parent_path, update_children,
  without_child, no_directory, not_empty, is_root, out_of_fuel,
}

abbrev pub stands_in : Text → Text × FileEntry → Bool
stands_in path entry = same (get_parent_path entry.0) path

-- `delete(c.fileChunks, filePath)` for each file that goes
unfoldable pub forget_chunks : Text → Dict FileEntry → Dict (List Text) → Dict (List Text)
forget_chunks path [] file_chunks = file_chunks
forget_chunks path (entry ∷ files) file_chunks =
    forget_chunks path files
      (if stands_in path entry then erase entry.0 file_chunks else file_chunks)

-- What follows the loop over the child directories.
unfoldable pub remove_contents : Coordinator → Text → Coordinator
unfolding forget_chunks
remove_contents c path = record c {
  file_entries = keep (λ entry. not (stands_in path entry)) c.file_entries;
  file_chunks = forget_chunks path c.file_entries c.file_chunks;
  directories = erase path c.directories;
}

-- The loop over the child directories, by the function that removes one.
unfoldable pub remove_children :
    (Coordinator → Text → Option Answer) → Coordinator → List Text → Option Answer
remove_children remove c [] = some (ok tt, c)
remove_children remove c (child ∷ children) =
    let skipped = remove_children remove c children in
    if is_some (lookup child c.directories)
    then (elim (remove c child) [
      | none ↦ none
      | some (err e, c') ↦ some (err e, c')
      | some (ok done, c') ↦ remove_children remove c' children
    ])
    else skipped

-- removeDirectoryRecursive
unfoldable pub remove_directory_recursive : ℕ → Coordinator → Text → Option Answer
unfolding remove_children remove_contents
remove_directory_recursive zero c path = none
remove_directory_recursive (suc fuel) c path = elim (lookup path c.directories) [
  | none ↦ some (err no_directory, c)
  | some d ↦ elim (remove_children (remove_directory_recursive fuel) c d.children) [
    | none ↦ none
    | some (err e, c') ↦ some (err e, c')
    | some (ok done, c') ↦ some (ok tt, remove_contents c' path)
  ]
]

-- The longest path of a directory, which bounds the depth of the recursion.
unfoldable pub longest_path : Dict Directory → ℕ
longest_path [] = 0
longest_path ((path, d) ∷ directories) =
    let rest = longest_path directories in if ltb rest (length path) then length path else rest

abbrev pub removal_fuel : Coordinator → ℕ
removal_fuel c = longest_path c.directories + 1

abbrev pub has_children : Coordinator → Text → Directory → Bool
has_children c path d = ltb 0 (length d.children) || any (stands_in path) c.file_entries

-- The end of DeleteDirectory: out of the parent's children, and out of the table.
unfoldable pub unlink_directory : Coordinator → Text → Coordinator
unfolding update_children
unlink_directory c path = record c {
  directories = erase path (
      if same (get_parent_path path) []
      then c.directories
      else update_children (without_child path) (get_parent_path path) c.directories);
}

unfoldable pub delete_found : Coordinator → Text → Bool → Directory → Answer
unfolding remove_directory_recursive unlink_directory
delete_found c path recursive d =
    if has_children c path d && not recursive
    then (err not_empty, c)
    else if recursive
    then (elim (remove_directory_recursive (removal_fuel c) c path) [
      | none ↦ (err out_of_fuel, c)
      | some (err e, c') ↦ (err e, c')
      | some (ok done, c') ↦ (ok tt, unlink_directory c' path)
    ])
    else (ok tt, unlink_directory c path)

-- DeleteDirectory
unfoldable pub delete_directory : Coordinator → Text → Bool → Answer
unfolding delete_found
delete_directory c path recursive =
    if same path [] || same path root
    then (err is_root, c)
    else (elim (lookup (normalize path) c.directories) [
      | none ↦ (err no_directory, c)
      | some d ↦ delete_found c (normalize path) recursive d
    ])
