-- ===== src/Tests/Contents.antt =====
-- Writing files to nodes and reading them.
use collective.Prelude.{
  get_elem?, ltb, ◌||◌, ◌==◌, ◌+◌, if◌then◌else◌, none, ℕ, ◌≡◌, ◌≢◌, refl, sym, true, false,
  Bool-cases, none, some, List, [], ◌∷◌, map, arith, ok, inl, inr,
}
use collective.Text.{Text, bytes, same, same_iff}
use collective.Text.Split.{split}
use collective.Dict.{Dict, lookup, insert, erase}
use collective.Storage.{
  Codec, split_into_chunks, split_loop, make_chunk, pack, drop, safe_file_id, decimal, digits, hex,
}
use collective.Storage.Distribution.{
  StorageNode, allocate_chunks, allocate_all, select_nodes, new_distribution_strategy,
}
use collective.Node.{Node, new_node, delete_chunk, store_chunk}
use collective.Coordinator.{FileEntry}
use collective.Coordinator.Contents.{
  NodeService, Holdings, healthy_nodes, targets, chunk_index, index_part, atoi, read_digits,
  in_range,
}
use collective.Coordinator.Transfer.{
  write_file, read_file, allocate_chunks_to_nodes, store_on_nodes, delete_file_and_chunks,
  delete_chunks, delete_on_nodes,
}
use collective.Coordinator.Stored.{stored_everywhere}
use collective.Coordinator.Service.{node_service, store_at, delete_at}
use collective.Coordinator.Storing.{store_file}
use collective.Coordinator.Backed.{IsStored, store_file-IsStored}
use collective.Coordinator.Written.{read_file-write_file}

abbrev plain : Codec
plain = record {
  sha256 = λ xs. xs;
  gzip = λ xs. some xs;
  gunzip = λ xs. some xs;
  gunzip_gzip = λ xs ys e. sym e;
}

abbrev file : FileEntry
file = record {
  path = bytes "/a";
  size = 0;
  mode = 420;
  modified = 7;
  chunk_ids = [];
  owner = bytes "alice";
}

abbrev storage_node : Text → Text → StorageNode
storage_node id address = record {
  id = id;
  member_id = bytes "alice";
  address = address;
  total_capacity = 100;
  used_capacity = 0;
  is_healthy = true;
}

abbrev holdings : Holdings
holdings = record {
  coordinator = record {
    member_id = bytes "alice";
    directories = [];
    file_entries = (bytes "/a", file) ∷ [];
    file_chunks = [];
    chunk_allocations = [];
    nodes =
        (bytes "n1", storage_node (bytes "n1") (bytes "h:1"))
        ∷ (bytes "n2", storage_node (bytes "n2") (bytes "h:2"))
        ∷ [];
    file_locks = [];
    next_lock = 0;
  };
  chunk_manager = record { chunk_size = 2; enable_compression = false };
  tracked = [];
}

abbrev world : Dict Node
world =
    (bytes "h:1", new_node (bytes "/x") 100 []) ∷ (bytes "h:2", new_node (bytes "/y") 100 []) ∷ []

abbrev input : List ℕ
input = 11 ∷ 22 ∷ 33 ∷ []

abbrev allocations : Dict (List Text)
allocations =
    (bytes "_a-0-0b16", bytes "n1" ∷ bytes "n2" ∷ [])
    ∷ (bytes "_a-1-21", bytes "n2" ∷ bytes "n1" ∷ [])
    ∷ []

chunk_index_runs :
    (chunk_index (bytes "my-dir-12-ab") ≡ 12)
    × (chunk_index (bytes "12-ab") ≡ 0)
    × (chunk_index (bytes "a-x-b") ≡ 0)
    × (chunk_index (bytes "a-9223372036854775808-b") ≡ 0)
unfolding chunk_index index_part atoi read_digits in_range split same
chunk_index_runs = (refl, refl, refl, refl)

all_healthy :
    (node_id : Text) (node : StorageNode)
    → lookup node_id holdings.coordinator.nodes ≡ some node
    → node.is_healthy ≡ true
unfolding lookup same
all_healthy node_id node h = elim (Bool-cases (same (bytes "n1") node_id)) [
  | inl e ↦ ground (arith, (same_iff (bytes "n1") node_id).0 e)
  | inr e ↦ ground (arith, same_iff (bytes "n1") node_id, same_iff (bytes "n2") node_id)
]

read_file-write_file_example :
    let written = write_file plain (node_service plain) holdings world (bytes "/a") input 9 in
    (written.0 ≡ ok 3)
    × ((read : List ℕ) × (read_file plain (node_service plain) written.1 written.2 (bytes "/a") 1 1
          ≡ some read)
        × ((i : ℕ)
            → get_elem? read i ≡ (if (1 == 0) || ltb i 1 then get_elem? input (1 + i) else none)))
unfolding lookup same split_into_chunks split_loop make_chunk pack safe_file_id decimal digits hex
    allocate_chunks_to_nodes healthy_nodes allocate_chunks allocate_all select_nodes
    new_distribution_strategy insert stored_everywhere store_on_nodes targets store_at store_chunk
read_file-write_file_example =
    read_file-write_file plain (node_service plain) holdings world (bytes "/a") input 9 1 1 file
      allocations refl refl (omega arith) (omega arith) all_healthy refl refl

never : (content : List ℕ) → false ≡ true → content ≢ [] → ⊥
never content e full = absurd (cc)

-- Nodes that cannot be reached.
abbrev no_service : NodeService
no_service = record {
  World = Unit;
  store = λ w address chunk. (false, w);
  retrieve = λ w address chunk_id. none;
  delete = λ w address chunk_id. w;
  Has = λ w address chunk_id content. ⊥;
  Has-store = λ w address chunk e full. never chunk.content e full;
  Has-store_other = λ w address chunk at chunk_id content other h. h;
  retrieve-Has = λ w address chunk_id content h. absurd h;
}

-- A file that was written and deleted leaves no chunk in the memory of a node.
delete_file_and_chunks-write_file :
    let written = write_file plain (node_service plain) holdings world (bytes "/a") input 9 in
    map
      (λ entry. entry.1.chunks)
      (delete_file_and_chunks (node_service plain) written.1.coordinator written.2 (bytes "/a")).1
    ≡ [] ∷ [] ∷ []
unfolding lookup same split_into_chunks split_loop make_chunk pack safe_file_id decimal digits hex
    drop allocate_chunks_to_nodes healthy_nodes allocate_chunks allocate_all select_nodes
    new_distribution_strategy insert write_file delete_file_and_chunks delete_chunks delete_on_nodes
    delete_at delete_chunk store_at store_chunk targets erase
delete_file_and_chunks-write_file = refl

store_file-IsStored_example :
    IsStored
      (node_service plain)
      holdings.coordinator.nodes
      (bytes "id")
      (bytes "a")
      3
      9
      (bytes "alice")
      []
      (store_file plain
        (node_service plain)
        holdings.coordinator.nodes
        world
        (bytes "id")
        (bytes "a")
        input
        9
        (bytes "alice")
        [])
store_file-IsStored_example =
    store_file-IsStored plain (node_service plain) holdings.coordinator.nodes world (bytes "id")
      (bytes "a") input 9 (bytes "alice") [] (omega arith)
