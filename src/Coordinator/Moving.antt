-- ===== src/Coordinator/Moving.antt =====
-- pkg/coordinator/operations.go: MoveEntry, moveFile and updateChildPaths. The recursion takes fuel,
-- and none means that it ran out.
use collective.Prelude.{
  ℕ, zero, suc, ◌+◌, Bool, true, false, not, ◌&&◌, Option, none, some, List, [], ◌∷◌, ◌++◌,
  if◌then◌else◌, length, ok, err,
}
use collective.Text.{Text, same, has_prefix}
use collective.Dict.{Dict, lookup, insert, erase, is_some}
use collective.FilePath.{slash}
use collective.Storage.{drop}
use collective.Coordinator.{
  Coordinator, Directory, Answer, root, normalize, get_parent_path, is_below_root, update_children,
  append_child, without_child, already_exists, file_at_destination, directory_at_destination,
  into_itself, no_parent, no_source, is_root, out_of_fuel,
}
use collective.Coordinator.Removal.{longest_path}

-- `m[to] = v; delete(m, from)`, where `from` is there
unfoldable pub rekey {ℓ} : {V : Type ℓ} → Text → Text → Dict V → Dict V
rekey from to m = elim (lookup from m) [ none ↦ m | some v ↦ erase from (insert to v m) ]

-- strings.HasPrefix(path, base+"/")
abbrev pub is_below : Text → Text → Bool
is_below base path = has_prefix path (base ++ (slash ∷ []))

-- strings.Replace of the first occurrence, which is at the front
unfoldable pub rebase : Text → Text → Text → Text
rebase old_base new_base path = new_base ++ drop (length old_base) path

-- A file's entry and chunks go with the path.
abbrev pub move_file_of : Text → Text → Coordinator → Coordinator
move_file_of from to c =
    if is_some (lookup from c.file_entries)
    then record c {
      file_entries = rekey from to c.file_entries;
      file_chunks = rekey from to c.file_chunks;
    }
    else c

-- The directory goes to its new key with its new path.
unfoldable pub move_directory_to : Text → Text → Directory → Dict Directory → Dict Directory
move_directory_to from to d directories =
    erase from (insert to (record d { path = to }) directories)

-- One round of the loop of updateChildPaths, for a child below the old base, by the function for its
-- own children. Those are changed in place, in the directory that was moved.
unfoldable pub update_child :
    (Coordinator → Text → Text → List Text → Option (List Text × Coordinator))
    → Coordinator
    → Text
    → Text
    → Option Coordinator
unfolding rekey move_directory_to update_children
update_child update c child new_child = elim (lookup child c.directories) [
  | none ↦ some (move_file_of child new_child c)
  | some d ↦
      elim (update (record c { directories = move_directory_to child new_child d c.directories })
        child new_child d.children) [
          | none ↦ none
          | some (children, c') ↦ some (
              move_file_of child new_child (record c' {
                directories = update_children (λ old. children) new_child c'.directories;
              }))
        ]
]

-- The loop, which changes the children in place: it returns them.
unfoldable pub update_each :
    (Coordinator → Text → Text → List Text → Option (List Text × Coordinator))
    → Coordinator
    → Text
    → Text
    → List Text
    → Option (List Text × Coordinator)
unfolding update_child rebase
update_each update c old_base new_base [] = some ([], c)
update_each update c old_base new_base (child ∷ children) = elim (is_below old_base child) [
  | true ↦ elim (update_child update c child (rebase old_base new_base child)) [
    | none ↦ none
    | some c' ↦ elim (update_each update c' old_base new_base children) [
      | none ↦ none
      | some (rest, c'') ↦ some (rebase old_base new_base child ∷ rest, c'')
    ]
  ]
  | false ↦ elim (update_each update c old_base new_base children) [
    | none ↦ none
    | some (rest, c'') ↦ some (child ∷ rest, c'')
  ]
]

-- updateChildPaths
unfoldable pub update_child_paths :
    ℕ → Coordinator → Text → Text → List Text → Option (List Text × Coordinator)
unfolding update_each
update_child_paths zero c old_base new_base children = none
update_child_paths (suc fuel) c old_base new_base children =
    update_each (update_child_paths fuel) c old_base new_base children

-- moveFile
unfoldable pub move_file : Coordinator → Text → Text → Answer
unfolding rekey
move_file c source dest =
    if is_some (lookup dest c.file_entries)
    then (err file_at_destination, c)
    else if is_some (lookup dest c.directories)
    then (err directory_at_destination, c)
    else if is_below_root (get_parent_path dest)
        && not (is_some (lookup (get_parent_path dest) c.directories))
    then (err no_parent, c)
    else (
      ok tt,
      record c {
        file_entries = rekey source dest c.file_entries;
        file_chunks = rekey source dest c.file_chunks;
        file_locks = rekey source dest c.file_locks;
      },
    )

-- Out of the old parent's children.
unfoldable pub detach : Coordinator → Text → Coordinator
unfolding update_children
detach c path = record c {
  directories =
      if same (get_parent_path path) []
      then c.directories
      else update_children (without_child path) (get_parent_path path) c.directories;
}

-- Into the new parent's children.
unfoldable pub attach : Coordinator → Text → Coordinator
unfolding update_children
attach c path = record c {
  directories =
      if is_below_root (get_parent_path path)
      then update_children (append_child path) (get_parent_path path) c.directories
      else c.directories;
}

-- From "Move the directory" on. The fuel is above the depth of the old tree.
unfoldable pub carry : Coordinator → Text → Text → Directory → Answer
unfolding update_child_paths update_children move_directory_to
carry c old_path new_path d =
    elim (update_child_paths (longest_path c.directories + 1)
      (record c { directories = move_directory_to old_path new_path d c.directories }) old_path
      new_path d.children) [
        | none ↦ (err out_of_fuel, c)
        | some (children, c') ↦ (
          ok tt,
          record c' { directories = update_children (λ old. children) new_path c'.directories },
        )
      ]

-- The directory as it stands once the parents' lists were changed.
unfoldable pub carry_found : Coordinator → Text → Text → Answer
unfolding carry
carry_found c old_path new_path = elim (lookup old_path c.directories) [
  | none ↦ (err no_source, c)
  | some d ↦ carry c old_path new_path d
]

-- From "Update parent references" on: the directory leaves its old parent before the new one is
-- looked for.
unfoldable pub relink : Coordinator → Text → Text → Answer
unfolding detach attach carry_found
relink c old_path new_path =
    if is_below_root (get_parent_path new_path)
      && not (is_some (lookup (get_parent_path new_path) (detach c old_path).directories))
    then (err no_parent, detach c old_path)
    else carry_found (attach (detach c old_path) new_path) old_path new_path

-- MoveEntry for a directory
unfoldable pub move_directory : Coordinator → Text → Text → Answer
unfolding relink
move_directory c old_path new_path =
    if is_some (lookup new_path c.directories)
    then (err already_exists, c)
    else if is_some (lookup new_path c.file_entries)
    then (err file_at_destination, c)
    else if is_below old_path new_path
    then (err into_itself, c)
    else relink c old_path new_path

-- MoveEntry, from the normal paths on
unfoldable pub move_at : Coordinator → Text → Text → Answer
unfolding move_directory move_file
move_at c old_path new_path =
    if same old_path root
    then (err is_root, c)
    else if is_some (lookup old_path c.directories)
    then move_directory c old_path new_path
    else if is_some (lookup old_path c.file_entries)
    then move_file c old_path new_path
    else (err no_source, c)

-- MoveEntry
abbrev pub move_entry : Coordinator → Text → Text → Answer
move_entry c old_path new_path = move_at c (normalize old_path) (normalize new_path)
