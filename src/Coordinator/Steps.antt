-- ===== src/Coordinator/Steps.antt =====
-- What keeps the tables a tree: children change, a file is made, a file goes.
use collective.Prelude.{
  ℕ, ◌≡◌, refl, sym, ap, ◌∙◌, subst, true, false, Bool-cases, Option-cases, inl, inr, not, ◌&&◌,
  none, some, List, [], arith, if◌then◌else◌, any,
}
use collective.Text.{Text, same, same_iff}
use collective.Dict.{Dict, lookup, insert, erase, is_some, lookup-erase, lookup-insert}
use collective.Coordinator.{
  Coordinator, Directory, FileEntry, root, get_parent_path, is_below_root, update_children,
  append_child, get_file_lock,
}
use collective.Coordinator.Creation.{is_some-update_children}
use collective.Coordinator.Files.{
  create_file, create_file_locked, delete_file, remove_first, new_file_entry,
}
use collective.Coordinator.Tree.{
  IsTree, IsLinked, Descends, Descends-kept, HasParent, update_children-IsLinked, HasParent-more,
  any-append_child, any-remove_first,
}

-- The tables count, and nothing else.
pub same_tables-IsTree :
    (c c' : Coordinator)
    → c'.directories ≡ c.directories
    → c'.file_entries ≡ c.file_entries
    → IsTree c
    → IsTree c'
same_tables-IsTree c c' d f t = record {
  rooted = ap (λ (m : Dict Directory). is_some (lookup root m)) d ∙ t.rooted;
  descends = λ key h.
      subst (λ (m : Dict Directory). Descends m key) (sym d)
        (t.descends key (sym (ap (λ (m : Dict Directory). is_some (lookup key m)) d) ∙ h));
  linked = λ key h.
      subst (λ (m : Dict Directory). IsLinked m key) (sym d)
        (t.linked key (sym (ap (λ (m : Dict Directory). is_some (lookup key m)) d) ∙ h));
  housed = λ key h.
      subst (λ (m : Dict Directory). HasParent m key) (sym d)
        (t.housed key (sym (ap (λ (m : Dict FileEntry). is_some (lookup key m)) f) ∙ h));
  apart = λ key h.
      ap (lookup key) f
      ∙ t.apart key (sym (ap (λ (m : Dict Directory). is_some (lookup key m)) d) ∙ h);
}

-- How the methods change the children of a path's parent.
abbrev pub rechild : (List Text → List Text) → Text → Dict Directory → Dict Directory
rechild change path directories =
    if same (get_parent_path path) []
    then directories
    else update_children change (get_parent_path path) directories

pub is_some-rechild :
    (change : List Text → List Text) (path key : Text) (directories : Dict Directory)
    → is_some (lookup key (rechild change path directories)) ≡ is_some (lookup key directories)
is_some-rechild change path key directories =
    ground (arith, is_some-update_children change (get_parent_path path) key directories)

pub rechild-IsLinked :
    (change : List Text → List Text) (path key : Text) (directories : Dict Directory)
    → ((children : List Text)
        → any (λ child. same child key) children ≡ true
        → any (λ child. same child key) (change children) ≡ true)
    → IsLinked directories key
    → IsLinked (rechild change path directories) key
rechild-IsLinked change path key directories keeps h =
    elim (Bool-cases (same (get_parent_path path) [])) [
      | inl e ↦ rw e h
      | inr e ↦
          rw e (update_children-IsLinked change (get_parent_path path) key directories keeps h)
    ]

-- Children were changed, and files came or went.
pub relist-IsTree :
    (c c' : Coordinator) (change : List Text → List Text) (path : Text)
    → c'.directories ≡ rechild change path c.directories
    → ((key : Text) (children : List Text)
        → is_some (lookup key c.directories) ≡ true
        → any (λ child. same child key) children ≡ true
        → any (λ child. same child key) (change children) ≡ true)
    → ((key : Text) → is_some (lookup key c'.file_entries) ≡ true → HasParent c.directories key)
    → ((key : Text) → is_some (lookup key c.directories) ≡ true → lookup key c'.file_entries ≡ none)
    → IsTree c
    → IsTree c'
relist-IsTree c c' change path d keeps house free t = record {
  rooted =
      ap (λ (m : Dict Directory). is_some (lookup root m)) d
      ∙ is_some-rechild change path root c.directories
      ∙ t.rooted;
  descends = λ key h.
      Descends-kept c.directories c'.directories linked_at key (t.descends key (old key h)) h;
  linked = linked_at;
  housed = λ key h.
      HasParent-more c.directories c'.directories key
        (λ k e.
          ap (λ (m : Dict Directory). is_some (lookup k m)) d
          ∙ is_some-rechild change path k c.directories
          ∙ e)
        (house key h);
  apart = λ key h. free key (old key h);
}
  where
    old :
        (key : Text)
        → is_some (lookup key c'.directories) ≡ true
        → is_some (lookup key c.directories) ≡ true
    old key h =
        sym (is_some-rechild change path key c.directories)
        ∙ sym (ap (λ (m : Dict Directory). is_some (lookup key m)) d)
        ∙ h

    linked_at :
        (key : Text) → is_some (lookup key c'.directories) ≡ true → IsLinked c'.directories key
    linked_at key h =
        subst (λ (m : Dict Directory). IsLinked m key) (sym d)
          (rechild-IsLinked change path key c.directories
            (λ children. keeps key children (old key h)) (t.linked key (old key h)))

pub guarded-HasParent :
    (directories : Dict Directory) (path : Text)
    → (is_below_root (get_parent_path path)
        && not (is_some (lookup (get_parent_path path) directories)))
      ≡ false
    → HasParent directories path
guarded-HasParent directories path h = elim (Bool-cases (is_below_root (get_parent_path path))) [
  | inl e ↦ inr (ground arith)
  | inr e ↦ inl e
]

pub inserted-HasParent :
    (c : Coordinator) (path : Text) (f : FileEntry) (key : Text)
    → IsTree c
    → HasParent c.directories path
    → is_some (lookup key (insert path f c.file_entries)) ≡ true
    → HasParent c.directories key
inserted-HasParent c path f key t p h = elim (Bool-cases (same path key)) [
  | inl e ↦ subst (λ (k : Text). HasParent c.directories k) ((same_iff path key).0 e) p
  | inr e ↦ t.housed key (ground (arith, e, lookup-insert path key f c.file_entries))
]

pub inserted_apart :
    (c : Coordinator) (path : Text) (f : FileEntry) (key : Text)
    → IsTree c
    → lookup path c.directories ≡ none
    → is_some (lookup key c.directories) ≡ true
    → lookup key (insert path f c.file_entries) ≡ none
inserted_apart c path f key t free h = ground (
  arith,
  lookup-insert path key f c.file_entries,
  t.apart key h,
  same_iff path key,
  ap (λ k. lookup k c.directories),
)

create_file_locked-IsTree :
    (c : Coordinator) (path : Text) (mode now : ℕ)
    → lookup path c.directories ≡ none
    → IsTree c
    → IsTree (create_file_locked c path mode now).1
unfolding create_file_locked
create_file_locked-IsTree c path mode now free t =
    elim (Bool-cases (is_some (lookup path c.file_entries))) [
      | inl e ↦ rw (e, create_file_locked) t
      | inr e ↦
          elim (Bool-cases (
            is_below_root (get_parent_path path)
            && not (is_some (lookup (get_parent_path path) c.directories)))) [
              | inl g ↦ rw (e, g, create_file_locked) t
              | inr g ↦
                  relist-IsTree c (create_file_locked c path mode now).1 (append_child path) path
                    (rw (e, g, create_file_locked) refl)
                    (λ key children h. any-append_child key path children)
                    (rw (e, g, create_file_locked)
                      (λ key.
                        inserted-HasParent c path (new_file_entry c path mode now) key t
                          (guarded-HasParent c.directories path g)))
                    (rw (e, g, create_file_locked)
                      (λ key. inserted_apart c path (new_file_entry c path mode now) key t free))
                    t
            ]
    ]

get_file_lock_tables :
    (c : Coordinator) (path : Text)
    → ((get_file_lock c path).1.directories ≡ c.directories)
      × ((get_file_lock c path).1.file_entries ≡ c.file_entries)
unfolding get_file_lock
get_file_lock_tables c path = ground arith

pub create_file-IsTree :
    (c : Coordinator) (path : Text) (mode now : ℕ)
    → lookup path c.directories ≡ none
    → IsTree c
    → IsTree (create_file c path mode now).1
unfolding create_file
create_file-IsTree c path mode now free t =
    let tables = get_file_lock_tables c path in
    create_file_locked-IsTree (get_file_lock c path).1 path mode now
      (ap (lookup path) tables.0 ∙ free)
      (same_tables-IsTree c (get_file_lock c path).1 tables.0 tables.1 t)

file_is_apart :
    (c : Coordinator) (path key : Text) (f : FileEntry)
    → IsTree c
    → lookup path c.file_entries ≡ some f
    → is_some (lookup key c.directories) ≡ true
    → same path key ≡ false
file_is_apart c path key f t e h =
    ground (arith, t.apart key h, e, same_iff path key, ap (λ k. lookup k c.file_entries))

erased-HasParent :
    (c : Coordinator) (path key : Text)
    → IsTree c
    → is_some (lookup key (erase path c.file_entries)) ≡ true
    → HasParent c.directories key
erased-HasParent c path key t h =
    t.housed key (ground (arith, lookup-erase path key c.file_entries))

erased_apart :
    (c : Coordinator) (path key : Text)
    → IsTree c
    → is_some (lookup key c.directories) ≡ true
    → lookup key (erase path c.file_entries) ≡ none
erased_apart c path key t h = ground (arith, lookup-erase path key c.file_entries, t.apart key h)

pub delete_file-IsTree : (c : Coordinator) (path : Text) → IsTree c → IsTree (delete_file c path).1
unfolding delete_file
delete_file-IsTree c path t = elim (Option-cases (lookup path c.file_entries)) [
  | inl e ↦ rw (e, delete_file) t
  | inr (f, e) ↦
      relist-IsTree c (delete_file c path).1 (remove_first path) path (rw (e, delete_file) refl)
        (λ key children h. any-remove_first key path children (file_is_apart c path key f t e h))
        (rw (e, delete_file) (λ key. erased-HasParent c path key t))
        (rw (e, delete_file) (λ key. erased_apart c path key t)) t
]
