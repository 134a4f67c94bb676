-- ===== src/Tests/Coordinators.antt =====
-- Directories and files of the coordinator.
use collective.Prelude.{◌≡◌, refl, false, some, List, [], ◌∷◌, err}
use collective.Text.{Text, bytes, same, has_prefix, contains}
use collective.Text.Split.{split, join}
use collective.FilePath.{clean, clean_step, dir}
use collective.Dict.{lookup, insert}
use collective.Coordinator.{
  Coordinator, Directory, FileEntry, root, normalize, get_parent_path, update_children, create_at,
  create_directory, list_directory, child_entries, entries_of_files, initialize_root_directory,
  get_file_lock, no_parent, not_empty,
}
use collective.Coordinator.Removal.{delete_directory}
use collective.Coordinator.Moving.{move_at, move_file}
use collective.Coordinator.Files.{create_file, create_file_locked}
use collective.Coordinator.Creation.{list_directory-create_directory}
use collective.Coordinator.Detached.{move_at_detaches, delete_directory-move_file}
use collective.Coordinator.Tree.{IsTree}
use collective.Coordinator.Reach.{Reach, makes_directory, makes_file, done, more, Reach-IsTree}

abbrev fresh : Coordinator
fresh = record {
  member_id = bytes "alice";
  directories = [];
  file_entries = [];
  file_chunks = [];
  chunk_allocations = [];
  nodes = [];
  file_locks = [];
  next_lock = 0;
}

abbrev folder : Text → Text → List Text → Directory
folder path parent children = record {
  path = path;
  parent = parent;
  children = children;
  mode = 493;
  modified = 7;
  owner = bytes "alice";
}

abbrev plain_file : Text → FileEntry
plain_file path = record {
  path = path;
  size = 0;
  mode = 420;
  modified = 7;
  chunk_ids = [];
  owner = bytes "alice";
}

-- The root, /a with /a/b and the file /a/f
abbrev small : Coordinator
small = record fresh {
  directories =
      (root, folder root [] [])
      ∷ (bytes "/a", folder (bytes "/a") root (bytes "/a/b" ∷ bytes "/a/f" ∷ []))
      ∷ (bytes "/a/b", folder (bytes "/a/b") (bytes "/a") [])
      ∷ [];
  file_entries = (bytes "/a/f", plain_file (bytes "/a/f")) ∷ [];
  file_locks = (bytes "/a/f", 0) ∷ [];
  next_lock = 1;
}

create_directory-create_file :
    (create_file
      (create_directory
        (create_directory (initialize_root_directory fresh 7) (bytes "a") 7).1
        (bytes "/a/b/")
        7).1
      (bytes "/a/f")
      0
      7).1
    ≡ small
unfolding create_directory create_at create_file create_file_locked get_file_lock
    initialize_root_directory normalize get_parent_path update_children lookup insert same clean dir
    has_prefix split clean_step join contains
create_directory-create_file = refl

list_directory-create_directory_example :
    list_directory (create_directory small (bytes "/c") 8).1 root ≡ some []
unfolding create_directory normalize get_parent_path lookup same clean dir has_prefix split
    clean_step join contains insert update_children create_at list_directory child_entries
    entries_of_files
list_directory-create_directory_example =
    list_directory-create_directory small (bytes "/c") 8 (folder root [] []) refl refl refl tt

move_at_detaches_example :
    ((move_at small (bytes "/a/b") (bytes "/c/b")).0 ≡ err no_parent)
    × (lookup (bytes "/a/b") (move_at small (bytes "/a/b") (bytes "/c/b")).1.directories
        ≡ some (folder (bytes "/a/b") (bytes "/a") []))
    × (lookup (bytes "/a") (move_at small (bytes "/a/b") (bytes "/c/b")).1.directories
        ≡ some (folder (bytes "/a") root (bytes "/a/f" ∷ [])))
unfolding normalize get_parent_path lookup same clean dir has_prefix split clean_step join contains
    move_at
move_at_detaches_example =
    move_at_detaches small (bytes "/a/b") (bytes "/c/b") (folder (bytes "/a/b") (bytes "/a") [])
      (folder (bytes "/a") root (bytes "/a/b" ∷ bytes "/a/f" ∷ [])) (λ e. absurd (cc)) refl refl
      (λ e. absurd (cc)) (λ e. absurd (cc)) refl refl refl refl refl

delete_directory-move_file_example :
    (delete_directory (move_file small (bytes "/a/f") (bytes "/f")).1 (bytes "/a") false).0
    ≡ err not_empty
unfolding normalize get_parent_path lookup same clean dir has_prefix split clean_step join contains
    delete_directory move_file
delete_directory-move_file_example =
    delete_directory-move_file small (bytes "/a/f") (bytes "/f") (bytes "/a")
      (folder (bytes "/a") root (bytes "/a/b" ∷ bytes "/a/f" ∷ [])) (λ e. absurd (cc))
      (λ e. absurd (cc)) refl refl refl

small-Reach : Reach (initialize_root_directory fresh 7) small
unfolding create_directory create_at create_file create_file_locked get_file_lock
    initialize_root_directory normalize get_parent_path update_children lookup insert same clean dir
    has_prefix split clean_step join contains
small-Reach =
    let a = initialize_root_directory fresh 7 in
    let b = (create_directory a (bytes "a") 7).1 in
    let c = (create_directory b (bytes "/a/b/") 7).1 in
    more a c small
      (more a b c (more a a b (done a) (makes_directory a (bytes "a") 7 refl))
        (makes_directory b (bytes "/a/b/") 7 refl))
      (makes_file c (bytes "/a/f") 0 7 refl)

Reach-IsTree_example : IsTree small
Reach-IsTree_example = Reach-IsTree fresh small 7 (refl, refl) small-Reach
