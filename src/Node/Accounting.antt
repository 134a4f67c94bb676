-- ===== src/Node/Accounting.antt =====
-- pkg/node/node.go: the used capacity over any history of requests.
use collective.Prelude.{
  ℕ, ◌+◌, ◌≤◌, ◌≡◌, ap, inl, inr, Bool, Option-cases, none, some, List, [], ◌∷◌, arith,
}
use collective.Text.{Text}
use collective.Dict.{Dict, lookup, insert, erase}
use collective.Storage.{Codec, Chunk}
use collective.Node.{
  Node, DiskOutcome, StoreRequest, new_node, store_chunk, delete_chunk, writes, makes_no_directory,
  writes_no_file, requested_chunk, get_capacity,
}

-- The sizes of the chunks in memory.
unfoldable pub held : Dict Chunk → ℕ
held [] = 0
held (entry ∷ chunks) = entry.1.size + held chunks

-- A request to a node, with what the file system does.
pub data NodeRequest : Type 0 where
  store : DiskOutcome → StoreRequest → NodeRequest
  delete : Bool → Text → NodeRequest

unfoldable pub run : Codec → List NodeRequest → Node → Node
run codec [] n = n
run codec (store outcome request ∷ requests) n =
    run codec requests (store_chunk codec outcome request n).1
run codec (delete removes chunk_id ∷ requests) n =
    run codec requests (delete_chunk removes chunk_id n).1

-- The chunks in memory fit into the used capacity, and that into the total.
abbrev pub IsAccounted : Node → Type 0
IsAccounted n = (held n.chunks ≤ n.used_capacity) × (n.used_capacity ≤ n.total_capacity)

held-insert :
    (key : Text) (chunk : Chunk) (chunks : Dict Chunk)
    → held (insert key chunk chunks) ≤ held chunks + chunk.size
unfolding held insert
held-insert key chunk [] = omega arith
held-insert key chunk ((k, c) ∷ chunks) = ground (arith, held-insert key chunk chunks)

held-erase_all : (key : Text) (chunks : Dict Chunk) → held (erase key chunks) ≤ held chunks
unfolding held erase
held-erase_all key [] = omega arith
held-erase_all key ((k, c) ∷ chunks) = ground (arith, held-erase_all key chunks)

held-erase :
    (key : Text) (chunk : Chunk) (chunks : Dict Chunk)
    → lookup key chunks ≡ some chunk
    → held (erase key chunks) + chunk.size ≤ held chunks
unfolding held erase lookup
held-erase key chunk [] h = absurd (cc)
held-erase key chunk ((k, c) ∷ chunks) h =
    ground
      (arith, held-erase key chunk chunks, held-erase_all key chunks, ap (λ (x : Chunk). x.size))

store_chunk-IsAccounted :
    (codec : Codec) (outcome : DiskOutcome) (request : StoreRequest) (n : Node)
    → IsAccounted n
    → IsAccounted (store_chunk codec outcome request n).1
unfolding store_chunk
store_chunk-IsAccounted codec makes_no_directory request n (a, b) = ground arith
store_chunk-IsAccounted codec (writes_no_file none) request n (a, b) = ground arith
store_chunk-IsAccounted codec (writes_no_file (some left)) request n (a, b) = ground arith
store_chunk-IsAccounted codec writes request n (a, b) =
    ground (arith, held-insert request.chunk_id (requested_chunk codec request) n.chunks)

delete_chunk-IsAccounted :
    (removes : Bool) (chunk_id : Text) (n : Node)
    → IsAccounted n
    → IsAccounted (delete_chunk removes chunk_id n).1
unfolding delete_chunk
delete_chunk-IsAccounted removes chunk_id n (a, b) =
    elim (Option-cases (lookup chunk_id n.chunks)) [
      | inl e ↦ rw (e, delete_chunk) (a, b)
      | inr (chunk, e) ↦ rw (e, delete_chunk) (ground (arith, held-erase chunk_id chunk n.chunks e))
    ]

run-IsAccounted :
    (codec : Codec) (requests : List NodeRequest) (n : Node)
    → IsAccounted n
    → IsAccounted (run codec requests n)
unfolding run
run-IsAccounted codec [] n a = a
run-IsAccounted codec (store outcome request ∷ requests) n a =
    run-IsAccounted codec requests (store_chunk codec outcome request n).1
      (store_chunk-IsAccounted codec outcome request n a)
run-IsAccounted codec (delete removes chunk_id ∷ requests) n a =
    run-IsAccounted codec requests (delete_chunk removes chunk_id n).1
      (delete_chunk-IsAccounted removes chunk_id n a)

-- Over any history of stores and deletions on a node that started empty, whatever the file system
-- does, the sizes of the chunks in memory fit into the used capacity, that fits into the total, and
-- what `get_capacity` calls available is exactly the rest.
pub get_capacity-run :
    (codec : Codec) (requests : List NodeRequest) (data_dir : Text) (total : ℕ)
    (files : Dict (List ℕ))
    → let n = run codec requests (new_node data_dir total files) in
      (held n.chunks ≤ (get_capacity n).used)
      × ((get_capacity n).used ≤ (get_capacity n).total)
      × ((get_capacity n).used + (get_capacity n).available ≡ (get_capacity n).total)
unfolding get_capacity
get_capacity-run codec requests data_dir total files =
    let (a, b) =
      run-IsAccounted codec requests (new_node data_dir total files)
        (unfold held in (omega arith, omega arith)) in
    (a, b, omega arith)
