-- ===== src/Coordinator/Creation.antt =====
-- When directories are created, and what a listing shows of them.
use collective.Prelude.{
  ℕ, ◌≡◌, ◌≢◌, refl, sym, ap, ◌∙◌, ◌⊎◌, inl, inr, true, false, Bool-cases, Option-cases, ◌||◌, none,
  some, List, [], ◌∷◌, ◌++◌, arith, if◌then◌else◌, All, ok, err,
}
use collective.Prelude.Options.{map_option}
use collective.Text.{Text, same, same_iff, has_prefix}
use collective.Text.Split.{split, join}
use collective.FilePath.{clean, clean_step}
use collective.Dict.{Dict, lookup, insert, is_some, lookup-insert}
use collective.Coordinator.{
  Coordinator, Directory, DirectoryError, Answer, root, normalize, get_parent_path, is_below_root,
  update_children, append_child, new_directory, create_at, create_directory, child_entries,
  entries_of_files, list_directory, already_exists, no_parent, invalid_path,
}

-- A directory that stands under `key`, once the children of `path` were changed.
abbrev pub touched : (List Text → List Text) → Text → Text → Directory → Directory
touched change path key d = if same path key then record d { children = change d.children } else d

pub lookup-update_children :
    (change : List Text → List Text) (path key : Text) (directories : Dict Directory)
    → lookup key (update_children change path directories)
      ≡ map_option (touched change path key) (lookup key directories)
unfolding update_children lookup
lookup-update_children change path key directories = elim (Option-cases (lookup path directories)) [
  | inl e ↦
      rw (e, update_children)
        (ground (
          arith,
          e,
          same_iff path key,
          Option-cases (lookup key directories),
          ap (λ k. lookup k directories),
        ))
  | inr (d, e) ↦
      rw (e, update_children)
        (ground (
          arith,
          e,
          same_iff path key,
          lookup-insert path key (record d { children = change d.children }) directories,
          Option-cases (lookup key directories),
          ap (λ k. lookup k directories),
        ))
]

pub is_some-update_children :
    (change : List Text → List Text) (path key : Text) (directories : Dict Directory)
    → is_some (lookup key (update_children change path directories))
      ≡ is_some (lookup key directories)
is_some-update_children change path key directories =
    ground (arith, lookup-update_children change path key directories)

-- Whether a directory can be made at a normal path.
abbrev pub IsFree : Coordinator → Text → Type 0
IsFree c path =
    (lookup path c.directories ≡ none)
    × ((is_below_root (get_parent_path path) ≡ false)
        ⊎ (is_some (lookup (get_parent_path path) c.directories) ≡ true))

-- The table of directories after one was made.
abbrev pub IsCreated : Coordinator → Coordinator → Text → ℕ → Type 0
IsCreated c c' path now =
    (c'.file_entries ≡ c.file_entries)
    × ((key : Text)
        → lookup key c'.directories ≡ (
            if same path key
            then some (new_directory c path now)
            else if is_below_root (get_parent_path path)
            then map_option (touched (append_child path) (get_parent_path path) key)
                (lookup key c.directories)
            else lookup key c.directories))

is_some-none :
    (path : Text) (directories : Dict Directory)
    → is_some (lookup path directories) ≡ false
    → lookup path directories ≡ none
is_some-none path directories h = ground (arith, Option-cases (lookup path directories))

create_at_lem :
    (c : Coordinator) (path : Text) (now : ℕ)
    → (((create_at c path now).0 ≡ ok tt)
        × IsFree c path
        × IsCreated c (create_at c path now).1 path now)
      ⊎ ((e : DirectoryError) × ((create_at c path now).0 ≡ err e)
          × ((create_at c path now).1 ≡ c)
          × ¬ (IsFree c path))
unfolding create_at
create_at_lem c path now = elim (Bool-cases (is_some (lookup path c.directories))) [
  | inl taken ↦ inr (
    already_exists,
    rw (taken, create_at) refl,
    rw (taken, create_at) refl,
    λ h. ground (arith, h.0),
  )
  | inr fresh ↦ elim (Bool-cases (is_below_root (get_parent_path path))) [
    | inl below ↦ elim (Bool-cases (is_some (lookup (get_parent_path path) c.directories))) [
      | inl there ↦ inl (
        rw (fresh, below, there, create_at) refl,
        (is_some-none path c.directories fresh, inr there),
        rw (fresh, below, there, create_at)
            (
              refl,
              λ key. ground (
                arith,
                below,
                lookup-insert path key (new_directory c path now)
                    (update_children (append_child path) (get_parent_path path) c.directories),
                lookup-update_children (append_child path) (get_parent_path path) key c.directories,
              ),
            ),
      )
      | inr missing ↦ inr (
        no_parent,
        rw (fresh, below, missing, create_at) refl,
        rw (fresh, below, missing, create_at) refl,
        λ h. ground (arith, h.1),
      )
    ]
    | inr top ↦ inl (
      rw (fresh, top, create_at) refl,
      (is_some-none path c.directories fresh, inl top),
      rw (fresh, top, create_at)
          (
            refl,
            λ key.
                ground
                  (arith, top, lookup-insert path key (new_directory c path now) c.directories),
          ),
    )
  ]
]

pub create_directory_iff :
    (c : Coordinator) (path : Text) (now : ℕ)
    → (((create_directory c path now).0 ≡ ok tt)
        × (path ≢ [])
        × (path ≢ root)
        × IsFree c (normalize path)
        × IsCreated c (create_directory c path now).1 (normalize path) now)
      ⊎ ((e : DirectoryError) × ((create_directory c path now).0 ≡ err e)
          × ((create_directory c path now).1 ≡ c)
          × ¬ ((path ≢ []) × (path ≢ root) × IsFree c (normalize path)))
unfolding create_directory
create_directory_iff c path now = elim (Bool-cases (same path [] || same path root)) [
  | inl e ↦ rw e (
      inr (
        invalid_path,
        refl,
        refl,
        λ h. ground (arith, e, same_iff path [], same_iff path root, h.0, h.1),
      ))
  | inr e ↦ elim (create_at_lem c (normalize path) now) [
    | inl (done, free, made) ↦ rw e (
        inl (
          done,
          (λ p. ground (arith, e, same_iff path [])),
          (λ p. ground (arith, e, same_iff path root)),
          free,
          made,
        ))
    | inr (x, p, q, r) ↦ rw e (inr (x, p, q, λ h. r h.2))
  ]
]

child_entries-insert :
    (path : Text) (d : Directory) (directories : Dict Directory) (children : List Text)
    → All (λ child. same path child ≡ false) children
    → child_entries (insert path d directories) children ≡ child_entries directories children
unfolding child_entries
child_entries-insert path d directories [] h = refl
child_entries-insert path d directories (child ∷ children) (p, h) = ground (
  arith,
  p,
  lookup-insert path child d directories,
  child_entries-insert path d directories children h,
)

normalize-root : normalize root ≡ root
unfolding normalize clean clean_step has_prefix split join same
normalize-root = refl

list_at :
    (c : Coordinator) (path normal : Text)
    → normalize path ≡ normal
    → list_directory c path
      ≡ map_option
          (λ d. child_entries c.directories d.children ++ entries_of_files normal c.file_entries)
          (lookup normal c.directories)
unfolding list_directory
list_at c path normal e =
    rw (e, list_directory) (ground (arith, Option-cases (lookup normal c.directories)))

create_top :
    (c : Coordinator) (path : Text) (now : ℕ)
    → (create_at c path now).0 ≡ ok tt
    → get_parent_path path ≡ root
    → (create_at c path now).1.directories ≡ insert path (new_directory c path now) c.directories
unfolding create_at
create_top c path now h e = ground (arith, (same_iff (get_parent_path path) root).1 e)

create_files :
    (c : Coordinator) (path : Text) (now : ℕ)
    → (create_at c path now).1.file_entries ≡ c.file_entries
unfolding create_at
create_files c path now = ground arith

create_directory-create_at :
    (c : Coordinator) (path : Text) (now : ℕ)
    → (create_directory c path now).0 ≡ ok tt
    → create_directory c path now ≡ create_at c (normalize path) now
unfolding create_directory
create_directory-create_at c path now h = elim (Bool-cases (same path [] || same path root)) [
  | inl e ↦ ground (arith, e)
  | inr e ↦ rw e refl
]

create_at_fresh :
    (c : Coordinator) (path : Text) (now : ℕ)
    → (create_at c path now).0 ≡ ok tt
    → lookup path c.directories ≡ none
unfolding create_at
create_at_fresh c path now h = ground (arith, Option-cases (lookup path c.directories))

list_unchanged :
    (c : Coordinator) (path : Text) (now : ℕ) (d : Directory)
    → (create_at c path now).0 ≡ ok tt
    → get_parent_path path ≡ root
    → lookup root c.directories ≡ some d
    → All (λ child. same path child ≡ false) d.children
    → list_directory (create_at c path now).1 root ≡ list_directory c root
list_unchanged c path now d h top there unlisted =
    let made = create_top c path now h top in
    let fresh : same path root ≡ false =
      ground (
        arith,
        create_at_fresh c path now h,
        ap (λ k. lookup k c.directories),
        same_iff path root,
      ) in
    list_at (create_at c path now).1 root root normalize-root
    ∙ rw
        (
          made,
          create_files c path now,
          lookup-insert path root (new_directory c path now) c.directories,
          fresh,
          there,
        )
        (ap (λ es. some (es ++ entries_of_files root c.file_entries))
          (child_entries-insert path (new_directory c path now) c.directories d.children unlisted))
    ∙ sym (list_at c root root normalize-root)

-- The listing of the root right after a directory was made at the top level is the one before, where
-- the root did not list the directory's path.
pub list_directory-create_directory :
    (c : Coordinator) (path : Text) (now : ℕ) (d : Directory)
    → (create_directory c path now).0 ≡ ok tt
    → get_parent_path (normalize path) ≡ root
    → lookup root c.directories ≡ some d
    → All (λ child. same (normalize path) child ≡ false) d.children
    → list_directory (create_directory c path now).1 root ≡ list_directory c root
list_directory-create_directory c path now d h top there unlisted =
    let e = create_directory-create_at c path now h in
    ap (λ (a : Answer). list_directory a.1 root) e
    ∙ list_unchanged c (normalize path) now d (sym (ap (λ (a : Answer). a.0) e) ∙ h) top there
        unlisted
