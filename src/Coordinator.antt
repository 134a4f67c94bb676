-- ===== src/Coordinator.antt =====
-- pkg/coordinator: the coordinator's directories and files, from operations.go and
-- coordinator_file.go. A request's mutexes are held from its first access to its last, so each
-- request is one step. A method returns its answer and the coordinator after it; answers carry no
-- message but an error each.
pub mod Removal
pub mod Moving
pub mod Files
pub mod Creation
pub mod Depth
pub mod Detached
pub mod Tree
pub mod Created
pub mod Steps
pub mod Unlink
pub mod Reach
pub mod Contents
pub mod Transfer
pub mod Rejoined
pub mod Received
pub mod Stored
pub mod Window
pub mod Written
pub mod Unstored
pub mod Service
pub mod Storing
pub mod Backed
use collective.Prelude.{
  ℕ, ◌+◌, ◌≡◌, Bool, true, false, not, ◌&&◌, ◌||◌, Option, none, some, List, [], ◌∷◌, ◌++◌, arith,
  if◌then◌else◌, Result, ok, err, any, keep,
}
use collective.Text.{Text, bytes, same}
use collective.FilePath.{slash, is_abs, clean, dir}
use collective.Dict.{Dict, lookup, insert, erase, is_some}
use collective.Storage.Distribution.{StorageNode}

-- types.Directory
pub record Directory : Type 0 where
  pub path : Text
  pub parent : Text
  pub children : List Text
  pub mode : ℕ
  pub modified : ℕ
  pub owner : Text

-- types.FileEntry
pub record FileEntry : Type 0 where
  pub path : Text
  pub size : ℕ
  pub mode : ℕ
  pub modified : ℕ
  pub chunk_ids : List Text
  pub owner : Text

-- The fields that these methods read or write; a file's lock is named by a number.
pub record Coordinator : Type 0 where
  pub member_id : Text
  pub directories : Dict Directory
  pub file_entries : Dict FileEntry
  pub file_chunks : Dict (List Text)
  pub chunk_allocations : Dict (List Text)
  pub nodes : Dict StorageNode
  pub file_locks : Dict ℕ
  pub next_lock : ℕ

pub data DirectoryError : Type 0 where
  invalid_path already_exists no_parent no_directory not_empty is_root : DirectoryError
  directory_at_destination file_at_destination into_itself no_source no_file out_of_fuel :
      DirectoryError

abbrev pub Answer : Type 0
Answer = Result DirectoryError (Unit {0}) × Coordinator

abbrev pub root : Text
root = bytes "/"

-- filepath.Clean, and a slash in front of a path that is not absolute
unfoldable pub normalize : Text → Text
normalize path = if is_abs (clean path) then clean path else slash ∷ clean path

-- getParentPath
unfoldable pub get_parent_path : Text → Text
get_parent_path path =
    if same path root || same path []
    then []
    else if same (dir path) (bytes ".")
    then root
    else dir path

-- `parent != "" && parent != "/"`
abbrev pub is_below_root : Text → Bool
is_below_root parent = not (same parent []) && not (same parent root)

-- A directory's list of children is changed in place, where the directory is there.
unfoldable pub update_children : (List Text → List Text) → Text → Dict Directory → Dict Directory
update_children change path directories = elim (lookup path directories) [
  | none ↦ directories
  | some d ↦ insert path (record d { children = change d.children }) directories
]

abbrev pub append_child : Text → List Text → List Text
append_child child children = children ++ (child ∷ [])

-- The loops that copy all children but one.
abbrev pub without_child : Text → List Text → List Text
without_child child children = keep (λ c. not (same c child)) children

-- 0755
abbrev pub directory_mode : ℕ
directory_mode = 493

abbrev pub new_directory : Coordinator → Text → ℕ → Directory
new_directory c path now = record {
  path = path;
  parent = get_parent_path path;
  children = [];
  mode = directory_mode;
  modified = now;
  owner = c.member_id;
}

-- CreateDirectory, from the normal path on
unfoldable pub create_at : Coordinator → Text → ℕ → Answer
unfolding update_children
create_at c path now =
    if is_some (lookup path c.directories)
    then (err already_exists, c)
    else if is_below_root (get_parent_path path)
    then if is_some (lookup (get_parent_path path) c.directories)
      then (
        ok tt,
        record c {
          directories =
              insert path (new_directory c path now)
                (update_children (append_child path) (get_parent_path path) c.directories);
        },
      )
      else (err no_parent, c)
    else (ok tt, record c { directories = insert path (new_directory c path now) c.directories })

-- CreateDirectory
unfoldable pub create_directory : Coordinator → Text → ℕ → Answer
unfolding create_at
create_directory c path now =
    if same path [] || same path root
    then (err invalid_path, c)
    else create_at c (normalize path) now

-- DirectoryEntry of the protocol, less the base name
pub record Entry : Type 0 where
  pub path : Text
  pub is_directory : Bool
  pub size : ℕ
  pub mode : ℕ
  pub modified_time : ℕ
  pub owner : Text

abbrev pub directory_entry : Directory → Entry
directory_entry d = record {
  path = d.path;
  is_directory = true;
  size = 0;
  mode = d.mode;
  modified_time = d.modified;
  owner = d.owner;
}

abbrev pub file_entry : Text → FileEntry → Entry
file_entry path f = record {
  path = path;
  is_directory = false;
  size = f.size;
  mode = f.mode;
  modified_time = f.modified;
  owner = f.owner;
}

-- The loop over the children: those that are directories.
unfoldable pub child_entries : Dict Directory → List Text → List Entry
child_entries directories [] = []
child_entries directories (child ∷ children) =
    let rest = child_entries directories children in
    elim (lookup child directories) [ none ↦ rest | some d ↦ directory_entry d ∷ rest ]

-- The loop over the files: those of this directory.
unfoldable pub entries_of_files : Text → Dict FileEntry → List Entry
entries_of_files path [] = []
entries_of_files path ((file_path, f) ∷ files) =
    let rest = entries_of_files path files in
    if same (get_parent_path file_path) path then file_entry file_path f ∷ rest else rest

-- ListDirectory; `if path == ""` is never met after Clean
unfoldable pub list_directory : Coordinator → Text → Option (List Entry)
unfolding child_entries entries_of_files
list_directory c path = elim (lookup (normalize path) c.directories) [
  | none ↦ none
  | some d ↦
      some
        (child_entries c.directories d.children ++ entries_of_files (normalize path) c.file_entries)
]

-- StatEntry
unfoldable pub stat_entry : Coordinator → Text → Option Entry
stat_entry c path = elim (lookup (normalize path) c.directories) [
  | some d ↦ some (directory_entry d)
  | none ↦ elim (lookup (normalize path) c.file_entries) [
    | none ↦ none
    | some f ↦ some (file_entry (normalize path) f)
  ]
]

-- initializeRootDirectory
unfoldable pub initialize_root_directory : Coordinator → ℕ → Coordinator
initialize_root_directory c now = if is_some (lookup root c.directories) then c else record c {
  directories = insert root (record (new_directory c root now) { parent = [] }) c.directories;
}

-- getFileLock
unfoldable pub get_file_lock : Coordinator → Text → ℕ × Coordinator
get_file_lock c path = elim (lookup path c.file_locks) [
  | some lock ↦ (lock, c)
  | none ↦ (
    c.next_lock,
    record c { file_locks = insert path c.next_lock c.file_locks; next_lock = c.next_lock + 1 },
  )
]
