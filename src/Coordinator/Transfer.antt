-- ===== src/Coordinator/Transfer.antt =====
-- pkg/coordinator/coordinator_file.go and coordinator_storage.go: WriteFile and ReadFile, and
-- allocateChunksToNodes and retrieveChunksFromNodes.
use collective.Prelude.{
  ℕ, ◌+◌, Option, none, some, List, [], ◌∷◌, if◌then◌else◌, ltb, length, Result, ok, err,
}
use collective.Text.{Text}
use collective.Dict.{Dict, lookup, insert, erase}
use collective.Storage.{Codec, Chunk, split_into_chunks}
use collective.Storage.Assembly.{reassemble_chunks}
use collective.Storage.Distribution.{StorageNode, allocate_chunks, new_distribution_strategy}
use collective.Coordinator.{Coordinator, FileEntry, get_file_lock, Answer}
use collective.Coordinator.Files.{delete_file}
use collective.Coordinator.Contents.{
  NodeService, File, Holdings, ContentError, healthy_nodes, targets, merge_allocations, locations,
  received_chunk, window, no_such_file, no_healthy_node, not_allocated,
}

module _ (service : NodeService) (nodes : Dict StorageNode) where
  -- The inner loop of WriteFile: how many nodes took the chunk.
  unfoldable pub store_on_nodes : service.World → Chunk → List Text → ℕ × service.World
  store_on_nodes w chunk [] = (0, w)
  store_on_nodes w chunk (node_id ∷ node_ids) = elim (lookup node_id nodes) [
    | none ↦ store_on_nodes w chunk node_ids
    | some node ↦
        let (stored, w') = service.store w node.address chunk in
        let (count, w'') = store_on_nodes w' chunk node_ids in
        (if stored then count + 1 else count, w'')
  ]

  -- The outer loop: the ids of the chunks that some node took.
  unfoldable pub store_all :
      service.World → Dict (List Text) → List Chunk → List Text × service.World
  unfolding store_on_nodes targets
  store_all w allocations [] = ([], w)
  store_all w allocations (chunk ∷ chunks) =
      let (count, w') = store_on_nodes w chunk (targets allocations chunk.id) in
      let (stored, w'') = store_all w' allocations chunks in
      (if ltb 0 count then chunk.id ∷ stored else stored, w'')

  -- The inner loop of retrieveChunksFromNodes: the first node that gives the chunk.
  unfoldable pub retrieve_one : service.World → Text → List Text → Option Chunk
  retrieve_one w chunk_id [] = none
  retrieve_one w chunk_id (node_id ∷ node_ids) =
      let others = retrieve_one w chunk_id node_ids in
      elim (lookup node_id nodes) [
        | none ↦ others
        | some node ↦
            if node.is_healthy
            then (elim (service.retrieve w node.address chunk_id) [
              | none ↦ others
              | some content ↦ some (received_chunk chunk_id content)
            ])
            else others
      ]

  -- retrieveChunksFromNodes
  unfoldable pub retrieve_chunks_from_nodes :
      service.World → Dict (List Text) → List Text → Option (List Chunk)
  unfolding retrieve_one targets
  retrieve_chunks_from_nodes w allocations [] = some []
  retrieve_chunks_from_nodes w allocations (chunk_id ∷ chunk_ids) =
      let rest = retrieve_chunks_from_nodes w allocations chunk_ids in
      elim (retrieve_one w chunk_id (targets allocations chunk_id)) [
        | none ↦ none
        | some chunk ↦ elim rest [ none ↦ none | some chunks ↦ some (chunk ∷ chunks) ]
      ]

  -- The inner loop of DeleteFile, whose failures change nothing.
  unfoldable pub delete_on_nodes : service.World → Text → List Text → service.World
  delete_on_nodes w chunk_id [] = w
  delete_on_nodes w chunk_id (node_id ∷ node_ids) =
      let rest = delete_on_nodes w chunk_id node_ids in
      elim (lookup node_id nodes) [
        | none ↦ rest
        | some node ↦ delete_on_nodes (service.delete w node.address chunk_id) chunk_id node_ids
      ]

  -- The outer loop; a chunk has no nodes any more once it was deleted.
  unfoldable pub delete_chunks : service.World → Dict (List Text) → List Text → service.World
  unfolding delete_on_nodes targets
  delete_chunks w allocations [] = w
  delete_chunks w allocations (chunk_id ∷ chunk_ids) =
      delete_chunks (delete_on_nodes w chunk_id (targets allocations chunk_id))
        (erase chunk_id allocations) chunk_ids

-- allocateChunksToNodes, which WriteFile does in place with the replication factor 2
unfoldable pub allocate_chunks_to_nodes :
    List Chunk → ℕ → Dict StorageNode → Result ContentError (Dict (List Text))
unfolding healthy_nodes allocate_chunks new_distribution_strategy
allocate_chunks_to_nodes chunks factor nodes = elim (healthy_nodes nodes) [
  | [] ↦ err no_healthy_node
  | node ∷ others ↦
      elim (allocate_chunks (new_distribution_strategy factor) chunks (node ∷ others)) [
        | err e ↦ err (not_allocated e)
        | ok allocations ↦ ok allocations
      ]
]

-- The tables after a write, from "Update chunk allocations" on.
abbrev pub record_write :
    Text → ℕ → ℕ → Dict (List Text) → List Text → FileEntry → Coordinator → Coordinator
record_write path size now allocations stored f c = record c {
  chunk_allocations = merge_allocations allocations c.chunk_allocations;
  file_chunks = insert path stored c.file_chunks;
  file_entries =
      insert path (record f { size = size; modified = now; chunk_ids = stored }) c.file_entries;
}

abbrev pub written_file :
    Text → ℕ → ℕ → Dict (List Text) → List Chunk → List Text → Coordinator → File
written_file path size now allocations chunks stored c = record {
  id = path;
  name = path;
  size = size;
  chunks = locations allocations chunks 0 stored;
  created_at = now;
  owner_id = c.member_id;
}

module _ (service : NodeService) where
  -- From "Store chunks on allocated nodes" on.
  unfoldable pub write_chunks :
      Holdings
      → service.World
      → Text
      → ℕ
      → ℕ
      → FileEntry
      → List Chunk
      → Dict (List Text)
      → Result ContentError ℕ × Holdings × service.World
  unfolding store_all merge_allocations locations
  write_chunks h w path size now f chunks allocations =
      let (stored, w') = store_all service h.coordinator.nodes w allocations chunks in
      (
        ok size,
        record h {
          coordinator = record_write path size now allocations stored f h.coordinator;
          tracked =
              insert path (written_file path size now allocations chunks stored h.coordinator)
                h.tracked;
        },
        w',
      )

module _ (codec : Codec) (service : NodeService) where
  -- WriteFile, once the file is found
  unfoldable pub write_found :
      Holdings
      → service.World
      → Text
      → List ℕ
      → ℕ
      → FileEntry
      → Result ContentError ℕ × Holdings × service.World
  unfolding split_into_chunks allocate_chunks_to_nodes write_chunks
  write_found h w path input now f =
      let (chunks, cm) = split_into_chunks codec h.chunk_manager input path in
      elim (allocate_chunks_to_nodes chunks 2 h.coordinator.nodes) [
        | err e ↦ (err e, record h { chunk_manager = cm }, w)
        | ok allocations ↦
            write_chunks service (record h { chunk_manager = cm }) w path (length input) now f
              chunks allocations
      ]

  -- WriteFile; the offset is only logged
  unfoldable pub write_file :
      Holdings
      → service.World
      → Text
      → List ℕ
      → ℕ
      → Result ContentError ℕ × Holdings × service.World
  unfolding write_found get_file_lock
  write_file h w path input now = elim (lookup path h.coordinator.file_entries) [
    | none ↦ (err no_such_file, record h { coordinator = (get_file_lock h.coordinator path).1 }, w)
    | some f ↦
        write_found (record h { coordinator = (get_file_lock h.coordinator path).1 }) w path input
          now f
  ]

  -- ReadFile, and none where it has no success
  unfoldable pub read_file : Holdings → service.World → Text → ℕ → ℕ → Option (List ℕ)
  unfolding retrieve_chunks_from_nodes reassemble_chunks window
  read_file h w path offset limit = elim (lookup path h.coordinator.file_entries) [
    | none ↦ none
    | some f ↦ elim f.chunk_ids [
      | [] ↦ some []
      | chunk_id ∷ chunk_ids ↦
          elim (retrieve_chunks_from_nodes service h.coordinator.nodes w
            h.coordinator.chunk_allocations (chunk_id ∷ chunk_ids)) [
              | none ↦ none
              | some chunks ↦ elim (reassemble_chunks codec h.chunk_manager chunks) [
                | err e ↦ none
                | ok content ↦ some (window offset limit content)
              ]
            ]
    ]
  ]

-- DeleteFile with what it asks of the nodes
unfoldable pub delete_file_and_chunks :
    (service : NodeService) → Coordinator → service.World → Text → Answer × service.World
unfolding delete_file delete_chunks
delete_file_and_chunks service c w path = elim (lookup path c.file_entries) [
  | none ↦ (delete_file c path, w)
  | some f ↦ (delete_file c path, delete_chunks service c.nodes w c.chunk_allocations f.chunk_ids)
]
