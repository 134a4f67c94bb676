-- ===== src/Coordinator/Unlink.antt =====
-- What keeps the tables a tree: a directory without children goes, a file moves.
use collective.Prelude.{
  ◌≡◌, ◌≢◌, refl, sym, ap, ◌∙◌, subst, ◌⊎◌, true, false, Bool-cases, Option-cases, inl, inr, not,
  ◌&&◌, ◌||◌, none, some, List, [], ◌∷◌, arith, ltb, length, any,
}
use collective.Text.{Text, same, same_iff}
use collective.Dict.{Dict, lookup, insert, erase, is_some, lookup-erase, lookup-insert}
use collective.Coordinator.{
  Coordinator, Directory, FileEntry, root, normalize, get_parent_path, is_below_root, without_child,
}
use collective.Coordinator.Removal.{
  delete_directory, delete_found, unlink_directory, has_children, stands_in,
}
use collective.Coordinator.Moving.{move_file, rekey}
use collective.Coordinator.Tree.{
  IsTree, IsLinked, Descends-kept, HasParent, lists, erase-IsLinked, any-without_child,
}
use collective.Coordinator.Steps.{
  rechild, is_some-rechild, rechild-IsLinked, guarded-HasParent, same_tables-IsTree,
}

-- No file stands in a directory that has none.
no_file_stands_in :
    (path key : Text) (files : Dict FileEntry)
    → any (stands_in path) files ≡ false
    → is_some (lookup key files) ≡ true
    → same (get_parent_path key) path ≡ false
unfolding lookup
no_file_stands_in path key [] h e = absurd (cc)
no_file_stands_in path key ((k, f) ∷ files) h e = ground (
  arith,
  no_file_stands_in path key files,
  same_iff k key,
  ap get_parent_path,
  ap (λ p. same p path),
)

-- No directory is among no children.
has_no_child :
    (d : Directory) (key : Text) → ltb 0 (length d.children) ≡ false → lists d key ≡ false
has_no_child d key h = at_children d.children h
  where
    at_children :
        (children : List Text)
        → ltb 0 (length children) ≡ false
        → any (λ child. same child key) children ≡ false
    at_children [] h = refl
    at_children (x ∷ children) h = ground arith

parent_stays :
    (c : Coordinator) (path : Text) (d : Directory) (key : Text)
    → lookup path c.directories ≡ some d
    → ltb 0 (length d.children) ≡ false
    → IsLinked c.directories key
    → (is_below_root (get_parent_path key) ≡ false) ⊎ (same path (get_parent_path key) ≡ false)
parent_stays c path d key e none_here (inl top) = inl top
parent_stays c path d key e none_here (inr (q, eq, l)) = inr (
    ground (
      arith,
      e,
      eq,
      l,
      has_no_child d key none_here,
      same_iff path (get_parent_path key),
      ap (λ k. lookup k c.directories),
      ap (λ (x : Directory). lists x key),
    ))

erased_linked :
    (c : Coordinator) (path : Text) (d : Directory) (key : Text)
    → IsTree c
    → lookup path c.directories ≡ some d
    → ltb 0 (length d.children) ≡ false
    → is_some (lookup key (erase path (rechild (without_child path) path c.directories))) ≡ true
    → IsLinked (erase path (rechild (without_child path) path c.directories)) key
erased_linked c path d key t e none_here h =
    erase-IsLinked path key (rechild (without_child path) path c.directories)
      (parent_stays c path d key e none_here (t.linked key old))
      (rechild-IsLinked (without_child path) path key c.directories
        (λ children. any-without_child key path children other) (t.linked key old))
  where
    other : same path key ≡ false
    other =
        ground (arith, h, lookup-erase path key (rechild (without_child path) path c.directories))

    old : is_some (lookup key c.directories) ≡ true
    old =
        sym (is_some-rechild (without_child path) path key c.directories)
        ∙ ground (
          arith,
          h,
          other,
          lookup-erase path key (rechild (without_child path) path c.directories),
        )

erased_housed :
    (c : Coordinator) (path : Text) (key : Text)
    → any (stands_in path) c.file_entries ≡ false
    → is_some (lookup key c.file_entries) ≡ true
    → HasParent c.directories key
    → HasParent (erase path (rechild (without_child path) path c.directories)) key
erased_housed c path key no_file h (inl top) = inl top
erased_housed c path key no_file h (inr there) = inr (
    ground (
      arith,
      there,
      no_file_stands_in path key c.file_entries no_file h,
      same_iff path (get_parent_path key),
      same_iff (get_parent_path key) path,
      lookup-erase path (get_parent_path key) (rechild (without_child path) path c.directories),
      is_some-rechild (without_child path) path (get_parent_path key) c.directories,
    ))

unlink_directory-IsTree :
    (c : Coordinator) (path : Text) (d : Directory)
    → IsTree c
    → lookup path c.directories ≡ some d
    → has_children c path d ≡ false
    → path ≢ root
    → IsTree (unlink_directory c path)
unfolding unlink_directory
unlink_directory-IsTree c path d t e bare below = record {
  rooted = ground (
    arith,
    t.rooted,
    below,
    same_iff path root,
    lookup-erase path root (rechild (without_child path) path c.directories),
    is_some-rechild (without_child path) path root c.directories,
  );
  descends = λ key h.
      Descends-kept c.directories (erase path (rechild (without_child path) path c.directories))
        (λ k g. erased_linked c path d k t e no_child g) key (t.descends key (old key h)) h;
  linked = λ key h. erased_linked c path d key t e no_child h;
  housed = λ key h. erased_housed c path key no_file h (t.housed key h);
  apart = λ key h. t.apart key (old key h);
}
  where
    no_child : ltb 0 (length d.children) ≡ false
    no_child = ground arith

    no_file : any (stands_in path) c.file_entries ≡ false
    no_file = ground arith

    old :
        (key : Text)
        → is_some (lookup key (erase path (rechild (without_child path) path c.directories))) ≡ true
        → is_some (lookup key c.directories) ≡ true
    old key h = ground (
      arith,
      h,
      lookup-erase path key (rechild (without_child path) path c.directories),
      is_some-rechild (without_child path) path key c.directories,
    )

delete_found-IsTree :
    (c : Coordinator) (path : Text) (d : Directory)
    → IsTree c
    → lookup path c.directories ≡ some d
    → path ≢ root
    → IsTree (delete_found c path false d).1
unfolding delete_found
delete_found-IsTree c path d t e below = elim (Bool-cases (has_children c path d)) [
  | inl h ↦ rw (h, delete_found) t
  | inr h ↦ rw (h, delete_found) (unlink_directory-IsTree c path d t e h below)
]

pub delete_directory-IsTree :
    (c : Coordinator) (path : Text)
    → normalize path ≢ root
    → IsTree c
    → IsTree (delete_directory c path false).1
unfolding delete_directory
delete_directory-IsTree c path below t = elim (Bool-cases (same path [] || same path root)) [
  | inl h ↦ rw (h, delete_directory) t
  | inr h ↦ elim (Option-cases (lookup (normalize path) c.directories)) [
    | inl e ↦ rw (h, e, delete_directory) t
    | inr (d, e) ↦ rw (h, e, delete_directory) (delete_found-IsTree c (normalize path) d t e below)
  ]
]

lookup-rekey_lem :
    (from to key : Text) (m : Dict FileEntry)
    → is_some (lookup key (rekey from to m)) ≡ true
    → (key ≡ to) ⊎ (is_some (lookup key m) ≡ true)
unfolding rekey
lookup-rekey_lem from to key m h = elim (Option-cases (lookup from m)) [
  | inl e ↦ inr (ground arith)
  | inr (f, e) ↦ elim (Bool-cases (same to key)) [
    | inl s ↦ inl (sym ((same_iff to key).0 s))
    | inr s ↦
        inr
          (ground (arith, h, e, s, lookup-erase from key (insert to f m), lookup-insert to key f m))
  ]
]

-- A file that moves to a free path whose parent is there.
moved-IsTree :
    (c : Coordinator) (source dest : Text)
    → lookup dest c.directories ≡ none
    → HasParent c.directories dest
    → IsTree c
    → IsTree (record c { file_entries = rekey source dest c.file_entries })
moved-IsTree c source dest free p t = record {
  rooted = t.rooted;
  descends = t.descends;
  linked = t.linked;
  housed = λ key h. elim (lookup-rekey_lem source dest key c.file_entries h) [
    | inl e ↦ subst (λ (k : Text). HasParent c.directories k) (sym e) p
    | inr old ↦ t.housed key old
  ];
  apart = λ key h. elim (Option-cases (lookup key (rekey source dest c.file_entries))) [
    | inl e ↦ e
    | inr (f, e) ↦ elim (lookup-rekey_lem source dest key c.file_entries (ap is_some e)) [
      | inl same_key ↦ absurd (ground (arith, h, free, ap (λ k. lookup k c.directories) same_key))
      | inr old ↦ absurd (ground (arith, old, t.apart key h))
    ]
  ];
}

pub move_file-IsTree :
    (c : Coordinator) (source dest : Text) → IsTree c → IsTree (move_file c source dest).1
unfolding move_file
move_file-IsTree c source dest t = elim (Bool-cases (is_some (lookup dest c.file_entries))) [
  | inl e ↦ rw (e, move_file) t
  | inr e ↦ elim (Option-cases (lookup dest c.directories)) [
    | inr (d, at_dest) ↦ rw (e, at_dest, move_file) t
    | inl free ↦
        elim (Bool-cases (
          is_below_root (get_parent_path dest)
          && not (is_some (lookup (get_parent_path dest) c.directories)))) [
            | inl g ↦ rw (e, free, g, move_file) t
            | inr g ↦
                same_tables-IsTree (record c { file_entries = rekey source dest c.file_entries })
                  (move_file c source dest).1 (rw (e, free, g, move_file) refl)
                  (rw (e, free, g, move_file) refl)
                  (moved-IsTree c source dest free (guarded-HasParent c.directories dest g) t)
          ]
  ]
]
