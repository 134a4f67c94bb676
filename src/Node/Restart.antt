-- ===== src/Node/Restart.antt =====
-- pkg/node/node.go: what a node finds in its data directory when it starts again.
use mathlib.Core.List.{append_assoc}
use collective.Prelude.{
  Bool, ℕ, ◌≡◌, ◌≢◌, refl, sym, ap, ◌∙◌, subst, ◌⊎◌, inl, inr, Option-cases, true, false, Option,
  List, [], ◌∷◌, ◌++◌, map, arith, length, All, if◌then◌else◌, err,
}
use collective.Text.{Text, bytes, same, same_iff, contains, has_prefix}
use collective.FilePath.{slash, up_to_slash}
use collective.Dict.{Dict, lookup, lookup-insert}
use collective.Storage.{drop}
use collective.Node.{
  Node, new_node, join_path, without_slashes, base, first_part, names_in, glob_entries, load_found,
  load_existing_chunks, loaded_chunk, size_of, retrieve_chunk, chunk_not_found,
}
use collective.Node.Kept.{retrieve_chunk_missing}

-- The directory for chunks, or something below it.
abbrev pub IsChunkPath : Text → Text → Type 0
IsChunkPath data_dir path =
    (path ≡ data_dir ++ bytes "/chunks")
    ⊎ ((rest : Text) × (path ≡ data_dir ++ (bytes "/chunks/" ++ rest)))

-- That, or outside the data directory.
abbrev pub IsOfChunks : Text → Text → Type 0
IsOfChunks data_dir path =
    (has_prefix path (data_dir ++ bytes "/") ≡ false) ⊎ IsChunkPath data_dir path

contains-append : (s t : Text) → contains t slash ≡ true → contains (s ++ t) slash ≡ true
unfolding contains
contains-append [] t h = h
contains-append (c ∷ s) t h = ground (arith, contains-append s t h)

up_to_slash-append :
    (s t : Text) → contains t slash ≡ true → up_to_slash (s ++ t) ≡ s ++ up_to_slash t
unfolding up_to_slash
up_to_slash-append [] t h = refl
up_to_slash-append (c ∷ s) t h =
    rw (contains-append s t h) (ap (λ p. c ∷ p) (up_to_slash-append s t h))

without_slashes-append :
    (s : Text) (c : ℕ) (t : Text)
    → without_slashes (c ∷ t) ≡ c ∷ t
    → without_slashes (s ++ (c ∷ t)) ≡ s ++ (c ∷ t)
unfolding without_slashes same
without_slashes-append [] c t h = h
without_slashes-append (b ∷ []) c t h = rw h (ground arith)
without_slashes-append (b ∷ d ∷ s) c t h = rw (without_slashes-append (d ∷ s) c t h) (ground arith)

drop-append : (s t : Text) → drop (length s) (s ++ t) ≡ t
unfolding drop
drop-append [] t = refl
drop-append (c ∷ s) t = drop-append s t

base_of :
    (path : Text)
    → path ≢ []
    → without_slashes path ≡ path
    → base path ≡ drop (length (up_to_slash path)) path
unfolding base
base_of path n e = rw (base, e) (ground (arith, same_iff path [], n))

append-nonempty : (s : Text) (c : ℕ) (t : Text) → (s ++ (c ∷ t)) ≢ []
append-nonempty [] c t h = absurd (cc)
append-nonempty (b ∷ s) c t h = absurd (cc)

drop_directory :
    (data_dir rest : Text)
    → drop (length (data_dir ++ bytes "/")) (data_dir ++ (bytes "/" ++ rest)) ≡ rest
drop_directory data_dir rest =
    ap (drop (length (data_dir ++ bytes "/"))) (sym (append_assoc data_dir (bytes "/") rest))
    ∙ drop-append (data_dir ++ bytes "/") rest

base_of_chunks : (data_dir : Text) → base (data_dir ++ bytes "/chunks") ≡ bytes "chunks"
unfolding without_slashes up_to_slash contains same
base_of_chunks data_dir =
    base_of (data_dir ++ bytes "/chunks") (append-nonempty data_dir slash (bytes "chunks"))
      (without_slashes-append data_dir slash (bytes "chunks") refl)
    ∙ ap (λ d. drop (length d) (data_dir ++ bytes "/chunks"))
        (up_to_slash-append data_dir (bytes "/chunks") refl)
    ∙ drop_directory data_dir (bytes "chunks")

name_of_chunk_path :
    (data_dir path : Text)
    → IsChunkPath data_dir path
    → first_part (drop (length (data_dir ++ bytes "/")) path) ≡ bytes "chunks"
unfolding first_part
name_of_chunk_path data_dir path (inl e) =
    rw e (ap first_part (drop_directory data_dir (bytes "chunks")))
name_of_chunk_path data_dir path (inr (rest, e)) =
    rw e (ap first_part (drop_directory data_dir (bytes "chunks/" ++ rest)))

All-kept :
    (kept : Bool) (name : Text) (names : List Text)
    → name ≡ bytes "chunks"
    → All (λ x. x ≡ bytes "chunks") names
    → All (λ x. x ≡ bytes "chunks") (if kept then name ∷ names else names)
All-kept true name names e h = (e, h)
All-kept false name names e h = h

-- The names that Glob finds, by the directory that ends in a slash.
names_in-chunks :
    (data_dir : Text) (paths : List Text)
    → All (IsOfChunks data_dir) paths
    → All (λ name. name ≡ bytes "chunks") (names_in (data_dir ++ bytes "/") paths)
unfolding names_in
names_in-chunks data_dir [] h = tt
names_in-chunks data_dir (path ∷ paths) h = elim h.0 [
  | inl outside ↦ rw outside (names_in-chunks data_dir paths h.1)
  | inr below ↦
      All-kept _ _ _ (name_of_chunk_path data_dir path below) (names_in-chunks data_dir paths h.1)
]

-- The bases of what Glob gives.
All-base :
    (data_dir chunk_id : Text) (names : List Text)
    → join_path (data_dir ∷ bytes "chunks" ∷ []) ≡ data_dir ++ bytes "/chunks"
    → chunk_id ≢ bytes "chunks"
    → All (λ name. name ≡ bytes "chunks") names
    → All (λ file. base file ≢ chunk_id) (map (λ name. join_path (data_dir ∷ name ∷ [])) names)
All-base data_dir chunk_id [] joined other h = tt
All-base data_dir chunk_id (name ∷ names) joined other h = (
  λ e. other (
      sym e
      ∙ ap base (ap (λ x. join_path (data_dir ∷ x ∷ [])) h.0 ∙ joined)
      ∙ base_of_chunks data_dir),
  All-base data_dir chunk_id names joined other h.1,
)

lookup-load_found :
    (size : Text → Option ℕ) (found : List Text) (n : Node) (chunk_id : Text)
    → All (λ file. base file ≢ chunk_id) found
    → lookup chunk_id (load_found size found n).chunks ≡ lookup chunk_id n.chunks
unfolding load_found
lookup-load_found size [] n chunk_id other = refl
lookup-load_found size (file ∷ found) n chunk_id other = elim (Option-cases (size file)) [
  | inl e ↦ rw (load_found, e) (lookup-load_found size found n chunk_id other.1)
  | inr (held, e) ↦
      rw (load_found, e)
        (lookup-load_found size found _ chunk_id other.1
          ∙ ground (
            arith,
            lookup-insert (base file) chunk_id (loaded_chunk (base file) held) n.chunks,
            same_iff (base file) chunk_id,
            other.0,
          ))
]

-- A node that starts again, where every file and every directory below its data directory is `chunks`
-- or lies below that, which is where StoreChunk writes, finds none of the chunks: every id but `chunks` is
-- unknown to it. The data directory's path is one to which joining the names `chunks` and `*` only
-- appends.
pub retrieve_chunk-load_existing_chunks :
    (data_dir : Text) (total : ℕ) (files : Dict (List ℕ)) (directories : List Text)
    (stat : Text → Option ℕ) (chunk_id : Text)
    → join_path (data_dir ∷ bytes "chunks" ∷ []) ≡ data_dir ++ bytes "/chunks"
    → join_path (data_dir ∷ bytes "*" ∷ []) ≡ data_dir ++ bytes "/*"
    → All (IsOfChunks data_dir) (map (λ entry. entry.0) files ++ directories)
    → chunk_id ≢ bytes "chunks"
    → retrieve_chunk chunk_id
        (load_existing_chunks stat directories (new_node data_dir total files))
      ≡ err chunk_not_found
unfolding load_existing_chunks glob_entries lookup up_to_slash contains
retrieve_chunk-load_existing_chunks data_dir total files directories stat chunk_id joined star below
      other =
    let n = new_node data_dir total files in
    let paths = map (λ entry. entry.0) files ++ directories in
    let directory = ap up_to_slash star ∙ up_to_slash-append data_dir (bytes "/*") refl in
    retrieve_chunk_missing chunk_id (load_existing_chunks stat directories n) (
      lookup-load_found (size_of stat files) (glob_entries n directories) n chunk_id (
        All-base data_dir chunk_id
          (names_in (up_to_slash (join_path (data_dir ∷ bytes "*" ∷ []))) paths) joined other
          (subst (λ (d : Text). All (λ name. name ≡ bytes "chunks") (names_in d paths))
            (sym directory) (names_in-chunks data_dir paths below))))
