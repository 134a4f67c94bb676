-- ===== src/Coordinator/Storing.antt =====
-- pkg/coordinator/coordinator.go: StoreFile. The file's own fields come with the request.
use collective.Prelude.{ℕ, none, some, List, [], ◌∷◌, ◌++◌, if◌then◌else◌, length, Result, ok, err}
use collective.Text.{Text}
use collective.Dict.{Dict, lookup, insert}
use collective.Storage.{Codec, Chunk, split_into_chunks, new_chunk_manager}
use collective.Storage.Distribution.{
  StorageNode, AllocationError, allocate_chunks, new_distribution_strategy, ensure_member_diversity,
}
use collective.Coordinator.Contents.{NodeService, ChunkLocation, File, healthy_nodes, targets}

pub data StoreError : Type 0 where
  nowhere_to_store nothing_stored : StoreError
  unallocated : AllocationError → StoreError

abbrev pub location_of : Chunk → Text → ChunkLocation
location_of chunk node_id = record {
  chunk_id = chunk.id;
  node_id = node_id;
  index = chunk.index;
  size = chunk.size;
}

module _ (service : NodeService) (nodes : Dict StorageNode) where
  -- The inner loop: a location for each node that took the chunk.
  unfoldable pub store_on_each :
      service.World → Chunk → List Text → List ChunkLocation × service.World
  store_on_each w chunk [] = ([], w)
  store_on_each w chunk (node_id ∷ node_ids) = elim (lookup node_id nodes) [
    | none ↦ store_on_each w chunk node_ids
    | some node ↦
        let (stored, w') = service.store w node.address chunk in
        let (found, w'') = store_on_each w' chunk node_ids in
        (if stored then location_of chunk node_id ∷ found else found, w'')
  ]

  -- The outer loop.
  unfoldable pub store_each :
      service.World → Dict (List Text) → List Chunk → List ChunkLocation × service.World
  unfolding store_on_each targets
  store_each w allocations [] = ([], w)
  store_each w allocations (chunk ∷ chunks) =
      let (found, w') = store_on_each w chunk (targets allocations chunk.id) in
      let (others, w'') = store_each w' allocations chunks in (found ++ others, w'')

-- The file's metadata.
abbrev pub tracked_file : Text → Text → ℕ → ℕ → Text → List ChunkLocation → File
tracked_file file_id filename size now member_id locations = record {
  id = file_id;
  name = filename;
  size = size;
  chunks = locations;
  created_at = now;
  owner_id = member_id;
}

-- What StoreFile leaves: its answer, the tracked files and the world.
abbrev pub Stored : NodeService → Type 0
Stored service = Result StoreError (List ChunkLocation) × Dict File × service.World

-- From "Store file metadata" on, where something was stored.
unfoldable pub track :
    Text
    → Text
    → ℕ
    → ℕ
    → Text
    → List ChunkLocation
    → Dict File
    → Result StoreError (List ChunkLocation) × Dict File
track file_id filename size now member_id [] tracked = (err nothing_stored, tracked)
track file_id filename size now member_id (location ∷ locations) tracked = (
  ok (location ∷ locations),
  insert file_id (tracked_file file_id filename size now member_id (location ∷ locations)) tracked,
)

module _ (codec : Codec) (service : NodeService) (nodes : Dict StorageNode) where
  -- StoreFile, once the nodes are chosen
  unfoldable pub store_chosen :
      service.World
      → Text
      → Text
      → ℕ
      → ℕ
      → Text
      → Dict File
      → List Chunk
      → Dict (List Text)
      → Stored service
  unfolding store_each track
  store_chosen w file_id filename size now member_id tracked chunks allocations =
      let (found, w') = store_each service nodes w allocations chunks in
      let (answer, tracked') = track file_id filename size now member_id found tracked in
      (answer, tracked', w')

  -- StoreFile
  unfoldable pub store_file :
      service.World → Text → Text → List ℕ → ℕ → Text → Dict File → Stored service
  unfolding split_into_chunks healthy_nodes store_chosen
  store_file w file_id filename input now member_id tracked =
      let chunks = (split_into_chunks codec new_chunk_manager input file_id).0 in
      elim (healthy_nodes nodes) [
        | [] ↦ (err nowhere_to_store, tracked, w)
        | node ∷ others ↦
            elim (allocate_chunks (new_distribution_strategy 2) chunks (node ∷ others)) [
              | err e ↦ (err (unallocated e), tracked, w)
              | ok allocations ↦
                  store_chosen w file_id filename (length input) now member_id tracked chunks
                    (ensure_member_diversity (node ∷ others) allocations)
            ]
      ]
