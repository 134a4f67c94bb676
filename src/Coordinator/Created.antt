-- ===== src/Coordinator/Created.antt =====
-- What keeps the tables a tree: a directory is made.
use collective.Prelude.{
  Bool, ℕ, ◌≡◌, ◌≢◌, ◌∷◌, [], List, refl, sym, ap, ◌∙◌, subst, true, false, Bool-cases,
  Option-cases, inl, inr, none, some, arith, if◌then◌else◌,
}
use collective.Text.{Text, bytes, same, same_iff, has_prefix, contains}
use collective.FilePath.{slash, is_abs, clean, render, stack_of, dir, up_to_slash}
use collective.Dict.{Dict, lookup, is_some}
use collective.Coordinator.{
  Coordinator, Directory, FileEntry, root, normalize, get_parent_path, is_below_root, append_child,
  create_directory,
}
use collective.Coordinator.Creation.{touched, create_directory_iff, IsFree, IsCreated}
use collective.Coordinator.Tree.{
  IsTree, IsLinked, Descends, Descends-kept, parent_is_root, top_directory, lower_directory,
  HasParent-more, any-append_child, any-append_child_self,
}

-- An old directory after one was made.
created_old :
    (c c' : Coordinator) (path : Text) (now : ℕ) (key : Text) (q : Directory)
    → IsFree c path
    → IsCreated c c' path now
    → lookup key c.directories ≡ some q
    → lookup key c'.directories
      ≡ some (
          if is_below_root (get_parent_path path)
          then touched (append_child path) (get_parent_path path) key q
          else q)
created_old c c' path now key q free made e =
    ground (arith, made.1 key, e, free.0, same_iff path key, ap (λ k. lookup k c.directories))

created_new :
    (c c' : Coordinator) (path : Text) (now : ℕ) (key : Text)
    → IsCreated c c' path now
    → same path key ≡ false
    → is_some (lookup key c'.directories) ≡ is_some (lookup key c.directories)
created_new c c' path now key made e = ground (arith, made.1 key, e)

self_linked :
    (c c' : Coordinator) (path : Text) (now : ℕ)
    → IsFree c path
    → IsCreated c c' path now
    → IsLinked c'.directories path
self_linked c c' path now free made = elim (Bool-cases (is_below_root (get_parent_path path))) [
  | inr top ↦ inl top
  | inl below ↦ elim (Option-cases (lookup (get_parent_path path) c.directories)) [
    | inl e ↦ absurd (ground (arith, free.1, e))
    | inr (q, e) ↦ inr (
      record q { children = append_child path q.children },
      ground (
        arith,
        created_old c c' path now (get_parent_path path) q free made e,
        below,
        same_iff (get_parent_path path) (get_parent_path path),
      ),
      any-append_child_self path q.children,
    )
  ]
]

other_linked :
    (c c' : Coordinator) (path : Text) (now : ℕ) (key : Text)
    → IsFree c path
    → IsCreated c c' path now
    → IsLinked c.directories key
    → IsLinked c'.directories key
other_linked c c' path now key free made (inl top) = inl top
other_linked c c' path now key free made (inr (q, e, l)) = inr (
  (if is_below_root (get_parent_path path)
      then touched (append_child path) (get_parent_path path) (get_parent_path key) q
      else q),
  created_old c c' path now (get_parent_path key) q free made e,
  ground (arith, l, any-append_child key path q.children),
)

created_linked :
    (c c' : Coordinator) (path : Text) (now : ℕ) (key : Text)
    → IsTree c
    → IsFree c path
    → IsCreated c c' path now
    → is_some (lookup key c'.directories) ≡ true
    → IsLinked c'.directories key
created_linked c c' path now key t free made h = elim (Bool-cases (same path key)) [
  | inl e ↦
      subst (λ (k : Text). IsLinked c'.directories k) ((same_iff path key).0 e)
        (self_linked c c' path now free made)
  | inr e ↦
      other_linked c c' path now key free made
        (t.linked key (sym (created_new c c' path now key made e) ∙ h))
]

created_more :
    (c c' : Coordinator) (path : Text) (now : ℕ) (key : Text)
    → IsCreated c c' path now
    → is_some (lookup key c.directories) ≡ true
    → is_some (lookup key c'.directories) ≡ true
created_more c c' path now key made h = ground (arith, made.1 key)

created-IsTree :
    (c c' : Coordinator) (path : Text) (now : ℕ)
    → lookup path c.file_entries ≡ none
    → get_parent_path path ≢ []
    → IsTree c
    → IsFree c path
    → IsCreated c c' path now
    → IsTree c'
created-IsTree c c' path now no_file has_parent t free made = record {
  rooted = created_more c c' path now root made t.rooted;
  descends = λ key h. descends_at key h;
  linked = λ key h. created_linked c c' path now key t free made h;
  housed = λ key h.
      HasParent-more c.directories c'.directories key (λ k. created_more c c' path now k made)
        (t.housed key (sym (ap (λ (m : Dict FileEntry). is_some (lookup key m)) made.0) ∙ h));
  apart = λ key h. ap (lookup key) made.0 ∙ no_file_at key h;
}
  where
    linked_at :
        (key : Text) → is_some (lookup key c'.directories) ≡ true → IsLinked c'.directories key
    linked_at key h = created_linked c c' path now key t free made h

    parent_descends : is_some (lookup path c'.directories) ≡ true → Descends c'.directories path
    parent_descends h = elim (Bool-cases (is_below_root (get_parent_path path))) [
      | inr top ↦
          lower_directory path h has_parent
            (top_directory (get_parent_path path) (parent_is_root path has_parent top))
      | inl under ↦
          let there : is_some (lookup (get_parent_path path) c.directories) ≡ true =
            ground (arith, under, free.1) in
          lower_directory path h has_parent (
            Descends-kept c.directories c'.directories linked_at (get_parent_path path)
              (t.descends (get_parent_path path) there)
              (created_more c c' path now (get_parent_path path) made there))
    ]

    descends_at :
        (key : Text) → is_some (lookup key c'.directories) ≡ true → Descends c'.directories key
    descends_at key h = elim (Bool-cases (same path key)) [
      | inl e ↦
          let same_path = (same_iff path key).0 e in
          subst (λ (k : Text). Descends c'.directories k) same_path
            (parent_descends (ap (λ k. is_some (lookup k c'.directories)) same_path ∙ h))
      | inr e ↦
          Descends-kept c.directories c'.directories linked_at key
            (t.descends key (sym (created_new c c' path now key made e) ∙ h)) h
    ]

    no_file_at :
        (key : Text) → is_some (lookup key c'.directories) ≡ true → lookup key c.file_entries ≡ none
    no_file_at key h = elim (Bool-cases (same path key)) [
      | inl e ↦
          subst (λ (k : Text). lookup k c.file_entries ≡ none) ((same_iff path key).0 e) no_file
      | inr e ↦ t.apart key (sym (created_new c c' path now key made e) ∙ h)
    ]

up_to_slash_rooted : (s : Text) → has_prefix (up_to_slash (slash ∷ s)) (bytes "/") ≡ true
unfolding up_to_slash contains has_prefix
up_to_slash_rooted s = ground arith

render_nonempty : (rooted : Bool) (st : List Text) → rooted ≡ true → render rooted st ≢ []
unfolding render
render_nonempty true st h = ground arith
render_nonempty false st h = ground (arith, h)

clean_rooted : (p : Text) → is_abs p ≡ true → clean p ≢ []
unfolding clean
clean_rooted p h = render_nonempty (is_abs p) (stack_of p) h

get_parent_path_nonempty :
    (path : Text) → path ≢ root → path ≢ [] → dir path ≢ [] → get_parent_path path ≢ []
unfolding get_parent_path
get_parent_path_nonempty path n m d = ground (arith, same_iff path root, same_iff path [], n, m, d)

get_parent_path_rooted : (s : Text) → (slash ∷ s) ≢ root → get_parent_path (slash ∷ s) ≢ []
unfolding dir
get_parent_path_rooted s n =
    get_parent_path_nonempty (slash ∷ s) n (λ e. absurd (cc))
      (clean_rooted (up_to_slash (slash ∷ s)) (up_to_slash_rooted s))

begins_with_slash : (p : Text) → is_abs p ≡ true → (s : Text) × (p ≡ slash ∷ s)
unfolding has_prefix
begins_with_slash [] h = ground (arith, h)
begins_with_slash (c ∷ p) h = (p, ground (arith, h))

normalize_rooted : (path : Text) → (s : Text) × (normalize path ≡ slash ∷ s)
unfolding normalize has_prefix
normalize_rooted path = elim (Bool-cases (is_abs (clean path))) [
  | inl e ↦ rw e (begins_with_slash (clean path) e)
  | inr e ↦ rw e (clean path, refl)
]

-- A normal path other than the root has a parent.
get_parent_path-normalize :
    (path : Text) → normalize path ≢ root → get_parent_path (normalize path) ≢ []
get_parent_path-normalize path n =
    let (s, e) = normalize_rooted path in
    λ h. get_parent_path_rooted s (λ q. n (e ∙ q)) (ap get_parent_path (sym e) ∙ h)

pub create_directory-IsTree :
    (c : Coordinator) (path : Text) (now : ℕ)
    → lookup (normalize path) c.file_entries ≡ none
    → IsTree c
    → IsTree (create_directory c path now).1
create_directory-IsTree c path now no_file t = elim (create_directory_iff c path now) [
  | inr (e, p, same_state, q) ↦ subst IsTree (sym same_state) t
  | inl (done, n, m, free, made) ↦
      created-IsTree c (create_directory c path now).1 (normalize path) now no_file
        (get_parent_path-normalize path
          (λ e. ground (arith, e, t.rooted, free.0, ap (λ k. lookup k c.directories))))
        t free made
]
