-- ===== src/Coordinator/Tree.antt =====
-- When the tables of directories and files are a tree, and what keeps a directory linked.
use collective.Prelude.{
  ◌≡◌, ◌≢◌, ap, ◌⊎◌, Bool, true, false, inl, inr, none, some, List, [], ◌∷◌, arith, any,
}
use collective.Text.{Text, same, same_iff}
use collective.Dict.{Dict, lookup, insert, erase, is_some, lookup-erase, lookup-insert}
use collective.Coordinator.{
  Coordinator, Directory, root, get_parent_path, is_below_root, update_children, without_child,
  append_child,
}
use collective.Coordinator.Creation.{touched, lookup-update_children}
use collective.Coordinator.Files.{remove_first}

abbrev pub lists : Directory → Text → Bool
lists d path = any (λ child. same child path) d.children

-- Where the parent is not the root, it is there and lists the path.
abbrev pub IsLinked : Dict Directory → Text → Type 0
IsLinked directories path =
    (is_below_root (get_parent_path path) ≡ false)
    ⊎ ((q : Directory) × (lookup (get_parent_path path) directories ≡ some q)
        × (lists q path ≡ true))

-- Where the parent is not the root, it is there.
abbrev pub HasParent : Dict Directory → Text → Type 0
HasParent directories path =
    (is_below_root (get_parent_path path) ≡ false)
    ⊎ (is_some (lookup (get_parent_path path) directories) ≡ true)

-- From the path the parents lead to the root, and each on the way is a directory.
pub data Descends (directories : Dict Directory) : Text → Type 0 where
  top_directory : (path : Text) → path ≡ root → Descends directories path
  lower_directory :
      (path : Text)
      → is_some (lookup path directories) ≡ true
      → get_parent_path path ≢ []
      → Descends directories (get_parent_path path)
      → Descends directories path

-- The root is a directory, from every directory the parents lead to it, and a directory whose parent
-- is not the root is among the children of its parent; a file's parent is there; and no path names a
-- directory and a file.
pub record IsTree (c : Coordinator) : Type 0 where
  pub rooted : is_some (lookup root c.directories) ≡ true
  pub descends :
      (path : Text) → is_some (lookup path c.directories) ≡ true → Descends c.directories path
  pub linked :
      (path : Text) → is_some (lookup path c.directories) ≡ true → IsLinked c.directories path
  pub housed :
      (path : Text) → is_some (lookup path c.file_entries) ≡ true → HasParent c.directories path
  pub apart :
      (path : Text) → is_some (lookup path c.directories) ≡ true → lookup path c.file_entries ≡ none

pub parent_is_root :
    (path : Text)
    → get_parent_path path ≢ []
    → is_below_root (get_parent_path path) ≡ false
    → get_parent_path path ≡ root
parent_is_root path n h =
    ground (arith, n, h, same_iff (get_parent_path path) [], same_iff (get_parent_path path) root)

-- A directory that was below the root and is still there is below it still, where directories are
-- linked.
pub Descends-kept :
    (directories directories' : Dict Directory)
    → ((key : Text) → is_some (lookup key directories') ≡ true → IsLinked directories' key)
    → (path : Text) → Descends directories path
    → is_some (lookup path directories') ≡ true
    → Descends directories' path
Descends-kept directories directories' linked path (top_directory p e) h = top_directory p e
Descends-kept directories directories' linked path (lower_directory p here n rest) h =
    elim (linked p h) [
      | inl top ↦ lower_directory p h n (top_directory (get_parent_path p) (parent_is_root p n top))
      | inr (q, e, l) ↦
          lower_directory p h n
            (Descends-kept directories directories' linked (get_parent_path p) rest (ap is_some e))
    ]

-- A change of lists of children that keeps a path keeps its link.
pub update_children-IsLinked :
    (change : List Text → List Text) (at path : Text) (directories : Dict Directory)
    → ((children : List Text)
        → any (λ child. same child path) children ≡ true
        → any (λ child. same child path) (change children) ≡ true)
    → IsLinked directories path
    → IsLinked (update_children change at directories) path
update_children-IsLinked change at path directories keeps (inl top) = inl top
update_children-IsLinked change at path directories keeps (inr (q, e, l)) = inr (
  touched change at (get_parent_path path) q,
  ground (arith, lookup-update_children change at (get_parent_path path) directories, e),
  ground (arith, l, keeps q.children l),
)

pub insert-IsLinked :
    (new path : Text) (d : Directory) (directories : Dict Directory)
    → lookup new directories ≡ none
    → IsLinked directories path
    → IsLinked (insert new d directories) path
insert-IsLinked new path d directories free (inl top) = inl top
insert-IsLinked new path d directories free (inr (q, e, l)) = inr (
  q,
  ground (
    arith,
    e,
    lookup-insert new (get_parent_path path) d directories,
    same_iff new (get_parent_path path),
    ap (λ k. lookup k directories),
  ),
  l,
)

pub erase-IsLinked :
    (gone path : Text) (directories : Dict Directory)
    → (is_below_root (get_parent_path path) ≡ false) ⊎ (same gone (get_parent_path path) ≡ false)
    → IsLinked directories path
    → IsLinked (erase gone directories) path
erase-IsLinked gone path directories other (inl top) = inl top
erase-IsLinked gone path directories (inl top) (inr l) = inl top
erase-IsLinked gone path directories (inr other) (inr (q, e, l)) =
    inr (q, ground (arith, e, lookup-erase gone (get_parent_path path) directories), l)

pub HasParent-more :
    (directories directories' : Dict Directory) (path : Text)
    → ((key : Text)
        → is_some (lookup key directories) ≡ true
        → is_some (lookup key directories') ≡ true)
    → HasParent directories path
    → HasParent directories' path
HasParent-more directories directories' path more (inl top) = inl top
HasParent-more directories directories' path more (inr there) =
    inr (more (get_parent_path path) there)

pub any-append_child :
    (path x : Text) (children : List Text)
    → any (λ child. same child path) children ≡ true
    → any (λ child. same child path) (append_child x children) ≡ true
any-append_child path x [] h = absurd (cc)
any-append_child path x (y ∷ ys) h = ground (arith, any-append_child path x ys)

pub any-append_child_self :
    (path : Text) (children : List Text)
    → any (λ child. same child path) (append_child path children) ≡ true
any-append_child_self path [] = ground (arith, same_iff path path)
any-append_child_self path (y ∷ ys) = ground (arith, any-append_child_self path ys)

pub any-without_child :
    (path gone : Text) (children : List Text)
    → same gone path ≡ false
    → any (λ child. same child path) children ≡ true
    → any (λ child. same child path) (without_child gone children) ≡ true
any-without_child path gone [] n h = absurd (cc)
any-without_child path gone (y ∷ ys) n h =
    ground (
      arith,
      any-without_child path gone ys n,
      same_iff y gone,
      same_iff y path,
      same_iff gone path,
    )

pub any-remove_first :
    (path gone : Text) (children : List Text)
    → same gone path ≡ false
    → any (λ child. same child path) children ≡ true
    → any (λ child. same child path) (remove_first gone children) ≡ true
unfolding remove_first
any-remove_first path gone [] n h = absurd (cc)
any-remove_first path gone (y ∷ ys) n h =
    ground
      (arith, any-remove_first path gone ys n, same_iff y gone, same_iff y path, same_iff gone path)
