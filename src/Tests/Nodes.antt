-- ===== src/Tests/Nodes.antt =====
-- A storage node.
use collective.Prelude.{
  ℕ, inl, inr, Option, ◌+◌, ◌≤◌, ◌≡◌, ◌⊎◌, refl, sym, true, false, some, List, [], ◌∷◌, arith, ok,
  err,
}
use collective.Text.{Text, bytes, same, same_iff, has_prefix, contains}
use collective.Text.Split.{split, join}
use collective.FilePath.{clean, clean_step, up_to_slash}
use collective.Dict.{Dict, lookup, insert, erase}
use collective.Storage.{Codec, drop}
use collective.Node.{
  Node, NodeError, StoreRequest, new_node, store_chunk, retrieve_chunk, delete_chunk, get_capacity,
  load_existing_chunks, glob_entries, names_in, first_part, cannot_read, chunk_path, join_path,
  base, without_slashes, writes, writes_no_file, chunk_not_found,
}
use collective.Node.Kept.{retrieve_chunk-store_chunk, get_capacity-store_chunk_twice, IsGivenBack}
use collective.Node.Restart.{retrieve_chunk-load_existing_chunks}
use collective.Node.Accounting.{held, run, store, delete, NodeRequest, get_capacity-run}

abbrev plain : Codec
plain = record {
  sha256 = λ xs. xs;
  gzip = λ xs. some xs;
  gunzip = λ xs. some xs;
  gunzip_gzip = λ xs ys e. sym e;
}

abbrev request : StoreRequest
request = record {
  chunk_id = bytes "f-0-ab";
  file_id = bytes "f";
  index = 0;
  content = 1 ∷ 2 ∷ 3 ∷ [];
}

abbrev node : Node
node = new_node (bytes "/data") 7 []

chunk_path_example :
    (chunk_path node (bytes "a") ≡ bytes "/data/chunks/a")
    × (chunk_path node (bytes "../../etc/a") ≡ bytes "/etc/a")
    × (base (bytes "/data/chunks/") ≡ bytes "chunks")
    × (base (bytes "//") ≡ bytes "/")
unfolding join_path clean clean_step split join same has_prefix base without_slashes up_to_slash
    drop contains
chunk_path_example = (refl, refl, refl, refl)

retrieve_chunk-store_chunk_example :
    ((writes ≡ writes)
      × (0 + 3 ≤ 7)
      × ((store_chunk plain writes request node).0 ≡ ok tt)
      × IsGivenBack request (store_chunk plain writes request node).1
      × ((key : Text)
          → (key ≡ bytes "f-0-ab")
            ⊎ (lookup key (store_chunk plain writes request node).1.chunks ≡ lookup key [])))
    ⊎ ((e : NodeError) × ((store_chunk plain writes request node).0 ≡ err e)
        × ((store_chunk plain writes request node).1.chunks ≡ [])
        × ((store_chunk plain writes request node).1.used_capacity ≡ 0)
        × ¬ ((writes ≡ writes) × (0 + 3 ≤ 7)))
retrieve_chunk-store_chunk_example = retrieve_chunk-store_chunk plain writes request node

get_capacity-store_chunk_twice_example :
    let once = store_chunk plain writes request node in
    let twice = store_chunk plain writes request once.1 in
    let deleted = delete_chunk true (bytes "f-0-ab") twice.1 in
    (deleted.0 ≡ ok tt)
    × (retrieve_chunk (bytes "f-0-ab") deleted.1 ≡ err chunk_not_found)
    × ((get_capacity deleted.1).used ≡ 3)
get_capacity-store_chunk_twice_example =
    get_capacity-store_chunk_twice plain request true node (omega arith)

-- An empty chunk is not found again.
abbrev empty_request : StoreRequest
empty_request = record request { content = [] }

empty_chunk_is_lost :
    ((store_chunk plain writes empty_request node).0 ≡ ok tt)
    × (retrieve_chunk (bytes "f-0-ab") (store_chunk plain writes empty_request node).1
        ≡ err cannot_read)
unfolding store_chunk retrieve_chunk join_path clean clean_step split join same has_prefix lookup
    insert
empty_chunk_is_lost = (refl, refl)

stat_directory : Text → Option ℕ
stat_directory path = some 4096

abbrev disk : Dict (List ℕ)
disk = (bytes "/data/chunks/f-0-ab", 1 ∷ 2 ∷ 3 ∷ []) ∷ []

abbrev directories : List Text
directories = bytes "/" ∷ bytes "/data" ∷ bytes "/data/chunks" ∷ []

-- Glob finds the directory of the chunks, and nothing else.
glob_entries_run :
    (glob_entries (new_node (bytes "/data") 7 disk) directories ≡ bytes "/data/chunks" ∷ [])
    × (glob_entries (new_node (bytes "/data") 7 ((bytes "/data/x", []) ∷ disk)) directories
        ≡ bytes "/data/x" ∷ bytes "/data/chunks" ∷ [])
unfolding glob_entries names_in first_part join_path up_to_slash clean clean_step split join same
    has_prefix contains drop
glob_entries_run = (refl, refl)

other_name : same (bytes "f-0-ab") (bytes "chunks") ≡ false
unfolding same
other_name = refl

retrieve_chunk-load_existing_chunks_example :
    retrieve_chunk
      (bytes "f-0-ab")
      (load_existing_chunks stat_directory directories (new_node (bytes "/data") 7 disk))
    ≡ err chunk_not_found
unfolding join_path clean clean_step split join same has_prefix
retrieve_chunk-load_existing_chunks_example =
    retrieve_chunk-load_existing_chunks (bytes "/data") 7 disk directories stat_directory
      (bytes "f-0-ab") refl refl
      (inr (inr (bytes "f-0-ab", refl)), (inl refl, (inl refl, (inr (inl refl), tt))))
      (λ e. ground (arith, other_name, (same_iff (bytes "f-0-ab") (bytes "chunks")).1 e))

abbrev requests : List NodeRequest
requests =
    store writes request
    ∷ store (writes_no_file (some (1 ∷ []))) request
    ∷ store writes request
    ∷ store writes request
    ∷ delete false (bytes "f-0-ab")
    ∷ []

used_after_run :
    ((get_capacity (run plain requests node)).used ≡ 3)
    × (held (run plain requests node).chunks ≡ 0)
unfolding run store_chunk delete_chunk get_capacity held lookup insert erase same
used_after_run = (refl, refl)

get_capacity-run_example :
    let n = run plain requests node in
    (held n.chunks ≤ (get_capacity n).used)
    × ((get_capacity n).used ≤ (get_capacity n).total)
    × ((get_capacity n).used + (get_capacity n).available ≡ (get_capacity n).total)
get_capacity-run_example = get_capacity-run plain requests (bytes "/data") 7 []
