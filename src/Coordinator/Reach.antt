-- ===== src/Coordinator/Reach.antt =====
-- The coordinator's requests as steps, and what every reachable state has: operations.go and
-- coordinator_file.go.
use collective.Prelude.{ℕ, ◌≡◌, ◌≢◌, sym, false, none, [], refl, subst, Bool-cases, inl, inr, arith}
use collective.Text.{Text, same, same_iff}
use collective.Dict.{lookup, insert, is_some}
use collective.Coordinator.{
  Coordinator, root, normalize, get_parent_path, is_below_root, create_directory,
  initialize_root_directory,
}
use collective.Coordinator.Removal.{delete_directory}
use collective.Coordinator.Moving.{move_entry, move_at}
use collective.Coordinator.Files.{create_file, delete_file}
use collective.Coordinator.Tree.{IsTree, top_directory}
use collective.Coordinator.Created.{create_directory-IsTree}
use collective.Coordinator.Steps.{create_file-IsTree, delete_file-IsTree}
use collective.Coordinator.Unlink.{delete_directory-IsTree, move_file-IsTree}

-- A request that names no file where it makes a directory, no directory where it makes a file, moves
-- a file and not a directory, and deletes without contents a directory other than the root.
pub data Step : Coordinator → Coordinator → Type 0 where
  makes_directory :
      (c : Coordinator) (path : Text) (now : ℕ)
      → lookup (normalize path) c.file_entries ≡ none
      → Step c (create_directory c path now).1
  makes_file :
      (c : Coordinator) (path : Text) (mode now : ℕ)
      → lookup path c.directories ≡ none
      → Step c (create_file c path mode now).1
  deletes_directory :
      (c : Coordinator) (path : Text)
      → normalize path ≢ root
      → Step c (delete_directory c path false).1
  deletes_file : (c : Coordinator) (path : Text) → Step c (delete_file c path).1
  moves_file :
      (c : Coordinator) (source dest : Text)
      → lookup (normalize source) c.directories ≡ none
      → Step c (move_entry c source dest).1

pub data Reach : Coordinator → Coordinator → Type 0 where
  done : (c : Coordinator) → Reach c c
  more : (a b c : Coordinator) → Reach a b → Step b c → Reach a c

-- A coordinator as NewWithConfig leaves it: no file and no directory but the root.
abbrev pub IsFresh : Coordinator → Type 0
IsFresh c = (c.directories ≡ []) × (c.file_entries ≡ [])

move_at-IsTree :
    (c : Coordinator) (source dest : Text)
    → lookup source c.directories ≡ none
    → IsTree c
    → IsTree (move_at c source dest).1
unfolding move_at
move_at-IsTree c source dest e t = elim (Bool-cases (same source root)) [
  | inl r ↦ rw (r, move_at) t
  | inr r ↦ elim (Bool-cases (is_some (lookup source c.file_entries))) [
    | inl f ↦ rw (r, e, f, move_at) (move_file-IsTree c source dest t)
    | inr f ↦ rw (r, e, f, move_at) t
  ]
]

Step-IsTree : (a b : Coordinator) → Step a b → IsTree a → IsTree b
Step-IsTree a b (makes_directory c path now no_file) t =
    create_directory-IsTree c path now no_file t
Step-IsTree a b (makes_file c path mode now no_directory) t =
    create_file-IsTree c path mode now no_directory t
Step-IsTree a b (deletes_directory c path below) t = delete_directory-IsTree c path below t
Step-IsTree a b (deletes_file c path) t = delete_file-IsTree c path t
Step-IsTree a b (moves_file c source dest no_directory) t =
    move_at-IsTree c (normalize source) (normalize dest) no_directory t

root_is_on_top : is_below_root (get_parent_path root) ≡ false
unfolding get_parent_path same
root_is_on_top = refl

initialize_root_directory-IsTree :
    (c : Coordinator) (now : ℕ) → IsFresh c → IsTree (initialize_root_directory c now)
unfolding initialize_root_directory lookup insert same
initialize_root_directory-IsTree c now (d, f) = record {
  rooted = rw (initialize_root_directory, d) refl;
  descends = λ path h. top_directory path (sym ((same_iff root path).0 (ground (arith, d, h))));
  linked = λ path h. inl (
      subst (λ (k : Text). is_below_root (get_parent_path k) ≡ false)
        ((same_iff root path).0 (ground (arith, d, h))) root_is_on_top);
  housed = λ path h. absurd (ground (arith, d, f, h));
  apart = λ path h. ground (arith, d, f, h);
}

steps-IsTree : (a b : Coordinator) → Reach a b → IsTree a → IsTree b
steps-IsTree a b (done c) t = t
steps-IsTree a b (more x y z reached step) t = Step-IsTree y z step (steps-IsTree x y reached t)

-- Whatever a coordinator that started with no file and no directory but the root reaches by requests
-- to make files and directories that keep their names apart, to delete files and, not recursively,
-- directories other than the root, and to move files is a tree: the root is there, from every
-- directory the parents lead to it and are directories, a parent other than the root lists its
-- directory, every file's parent other than the root is there, and no path names both a file and a
-- directory.
pub Reach-IsTree :
    (start c : Coordinator) (now : ℕ)
    → IsFresh start
    → Reach (initialize_root_directory start now) c
    → IsTree c
Reach-IsTree start c now fresh reached =
    steps-IsTree (initialize_root_directory start now) c reached
      (initialize_root_directory-IsTree start now fresh)
