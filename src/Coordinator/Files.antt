-- ===== src/Coordinator/Files.antt =====
-- pkg/coordinator/coordinator_file.go: CreateFile and DeleteFile. What DeleteFile asks of the
-- storage nodes is in Coordinator/Transfer.
use collective.Prelude.{ℕ, not, ◌&&◌, none, some, List, [], ◌∷◌, if◌then◌else◌, ◌==◌, ok, err}
use collective.Text.{Text, same}
use collective.Dict.{Dict, lookup, insert, erase, is_some}
use collective.Coordinator.{
  Coordinator, Directory, FileEntry, Answer, get_parent_path, is_below_root, update_children,
  append_child, get_file_lock, already_exists, no_parent, no_file,
}

-- 0644
abbrev pub file_mode : ℕ
file_mode = 420

abbrev pub new_file_entry : Coordinator → Text → ℕ → ℕ → FileEntry
new_file_entry c path mode now = record {
  path = path;
  size = 0;
  mode = if mode == 0 then file_mode else mode;
  modified = now;
  chunk_ids = [];
  owner = c.member_id;
}

-- Into the parent's children; the root's too, unlike for directories.
abbrev pub add_child_file : Text → Dict Directory → Dict Directory
add_child_file path directories =
    if same (get_parent_path path) []
    then directories
    else update_children (append_child path) (get_parent_path path) directories

-- CreateFile, once it has the file's lock
unfoldable pub create_file_locked : Coordinator → Text → ℕ → ℕ → Answer
unfolding update_children
create_file_locked c path mode now =
    if is_some (lookup path c.file_entries)
    then (err already_exists, c)
    else if is_below_root (get_parent_path path)
        && not (is_some (lookup (get_parent_path path) c.directories))
    then (err no_parent, c)
    else (
      ok tt,
      record c {
        file_entries = insert path (new_file_entry c path mode now) c.file_entries;
        directories = add_child_file path c.directories;
      },
    )

-- CreateFile
unfoldable pub create_file : Coordinator → Text → ℕ → ℕ → Answer
unfolding create_file_locked get_file_lock
create_file c path mode now = create_file_locked (get_file_lock c path).1 path mode now

-- The first occurrence goes.
unfoldable pub remove_first : Text → List Text → List Text
remove_first path [] = []
remove_first path (child ∷ children) =
    let rest = remove_first path children in if same child path then children else child ∷ rest

unfoldable pub erase_all : List Text → Dict (List Text) → Dict (List Text)
erase_all [] m = m
erase_all (key ∷ keys) m = erase_all keys (erase key m)

-- DeleteFile
unfoldable pub delete_file : Coordinator → Text → Answer
unfolding remove_first erase_all update_children
delete_file c path = elim (lookup path c.file_entries) [
  | none ↦ (err no_file, c)
  | some f ↦ (
    ok tt,
    record c {
      file_entries = erase path c.file_entries;
      directories =
          if same (get_parent_path path) []
          then c.directories
          else update_children (remove_first path) (get_parent_path path) c.directories;
      file_chunks = erase path c.file_chunks;
      chunk_allocations = erase_all f.chunk_ids c.chunk_allocations;
    },
  )
]
