-- ===== src/Tests/Chunks.antt =====
-- Chunks and their nodes.
use mathlib.Core.List.{Permᴰ}
use collective.Prelude.{
  ◌≤◌, ◌*◌, ℕ, zero, suc, ◌≡◌, refl, inl, inr, Bool, true, false, Bool-cases, Option, none, some,
  List, [], ◌∷◌, map, arith, if◌then◌else◌, length, take, All, ok, err,
}
use collective.Text.{Text, bytes, same, same_iff}
use collective.Dict.{Dict, lookup, insert, is_some}
use collective.Storage.{
  Codec, Chunk, ChunkManager, drop, split_into_chunks, split_loop, make_chunk, pack,
  new_chunk_manager, new_chunk_manager_with_options, generate_chunk_id, safe_file_id, decimal, hex,
  digits,
}
use collective.Storage.Assembly.{reassemble_chunks}
use collective.Storage.Pieces.{take-append-drop}
use collective.Storage.Whole.{
  reassemble_chunks-split_into_chunks, split_into_chunks_small_first, manager_after,
}
use collective.Storage.Distribution.{
  StorageNode, allocate_chunks, no_healthy_nodes, ensure_member_diversity, member_of, select_nodes,
  allocate_all,
}
use collective.Storage.Distribution.Allocated.{IsAllocation, allocate_chunks-IsAllocation}

-- Three zeros in front are coded as one.
abbrev zeros : List ℕ
zeros = 0 ∷ 0 ∷ 0 ∷ []

code : List ℕ → Option (List ℕ)
code plain = some (if same (take 3 plain) zeros then 0 ∷ drop 3 plain else 1 ∷ plain)

decode : List ℕ → Option (List ℕ)
decode [] = none
decode (zero ∷ xs) = some (0 ∷ 0 ∷ 0 ∷ xs)
decode (suc n ∷ xs) = some xs

decode-code : (plain coded : List ℕ) → code plain ≡ some coded → decode coded ≡ some plain
unfolding code decode
decode-code plain coded h = elim (Bool-cases (same (take 3 plain) zeros)) [
  | inl e ↦ ground (arith, e, (same_iff (take 3 plain) zeros).0 e, take-append-drop 3 plain)
  | inr e ↦ ground (arith, e)
]

abbrev toy : Codec
toy = record {
  sha256 = λ xs. length xs ∷ 171 ∷ [];
  gzip = code;
  gunzip = decode;
  gunzip_gzip = decode-code;
}

abbrev manager : ChunkManager
manager = new_chunk_manager_with_options 4 true

abbrev input : List ℕ
input = 0 ∷ 0 ∷ 0 ∷ 5 ∷ 6 ∷ 7 ∷ []

abbrev chunk_at : ℕ → List ℕ → Chunk
chunk_at index piece = make_chunk toy manager (bytes "/a") index piece

abbrev out_of_order : List Chunk
out_of_order = chunk_at 1 (6 ∷ 7 ∷ []) ∷ chunk_at 0 (0 ∷ 0 ∷ 0 ∷ 5 ∷ []) ∷ []

id_example : generate_chunk_id (bytes "/a/b") 12 ≡ bytes "_a_b-chunk-12"
unfolding generate_chunk_id safe_file_id decimal digits
id_example = refl

split_example :
    map (λ (c : Chunk). c.id) (split_into_chunks toy manager input (bytes "/a")).0
    ≡ bytes "_a-0-02ab" ∷ bytes "_a-1-02ab" ∷ []
unfolding split_into_chunks new_chunk_manager_with_options split_loop drop make_chunk pack
    safe_file_id decimal digits hex code same
split_example = refl

reassemble_chunks-split_into_chunks_example :
    reassemble_chunks toy (split_into_chunks toy manager input (bytes "/a")).1 out_of_order
    ≡ ok input
unfolding new_chunk_manager_with_options split_into_chunks split_loop drop
reassemble_chunks-split_into_chunks_example =
    reassemble_chunks-split_into_chunks toy manager input (bytes "/a") out_of_order (omega arith)
      (Permᴰ.swap refl refl)

split_into_chunks_small_first_example :
    let cm = manager_after toy new_chunk_manager ((input, bytes "/a") ∷ (zeros, bytes "/c") ∷ []) in
    let chunks = (split_into_chunks toy cm input (bytes "/b")).0 in
    All (λ c. c.original_size ≤ 65536) chunks × (length input ≤ 65536 * length chunks)
split_into_chunks_small_first_example =
    split_into_chunks_small_first toy input (bytes "/a") ((zeros, bytes "/c") ∷ []) input
      (bytes "/b") (omega arith)

abbrev node_of : Text → Text → ℕ → Bool → StorageNode
node_of id member_id used healthy = record {
  id = id;
  member_id = member_id;
  address = [];
  total_capacity = 10;
  used_capacity = used;
  is_healthy = healthy;
}

abbrev fleet : List StorageNode
fleet =
    node_of (bytes "n1") (bytes "alice") 0 true
    ∷ node_of (bytes "n2") (bytes "alice") 9 true
    ∷ node_of (bytes "n3") (bytes "bob") 0 false
    ∷ node_of (bytes "n4") (bytes "bob") 3 true
    ∷ []

abbrev placed : Dict (List Text)
placed = (bytes "_a-1-02ab", bytes "n4" ∷ []) ∷ (bytes "_a-0-02ab", bytes "n1" ∷ []) ∷ []

fleet_allocates : allocate_chunks 2 out_of_order fleet ≡ ok placed
unfolding allocate_chunks select_nodes allocate_all make_chunk pack safe_file_id decimal digits hex
    code same drop new_chunk_manager_with_options insert
fleet_allocates = refl

none_healthy :
    allocate_chunks 2 out_of_order (node_of (bytes "n3") (bytes "bob") 0 false ∷ [])
    ≡ err no_healthy_nodes
unfolding allocate_chunks
none_healthy = refl

allocate_chunks-IsAllocation_example :
    All (λ c. is_some (lookup c.id placed) ≡ true) out_of_order
    × ((chunk_id : Text) (node_ids : List Text)
        → lookup chunk_id placed ≡ some node_ids
        → IsAllocation 2 out_of_order fleet chunk_id node_ids)
allocate_chunks-IsAllocation_example =
    allocate_chunks-IsAllocation 2 out_of_order fleet placed fleet_allocates

abbrev ids : List Text
ids = bytes "n1" ∷ bytes "n2" ∷ bytes "n4" ∷ []

diverse_example :
    ensure_member_diversity fleet ((bytes "c", ids) ∷ [])
    ≡ (bytes "c", bytes "n1" ∷ bytes "n4" ∷ bytes "n2" ∷ []) ∷ []
unfolding ensure_member_diversity member_of same
diverse_example = refl
