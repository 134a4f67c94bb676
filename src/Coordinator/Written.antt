-- ===== src/Coordinator/Written.antt =====
-- pkg/coordinator/coordinator_file.go: what was written to a file is read from it.
use collective.Prelude.{
  ℕ, ◌+◌, ◌==◌, ltb, ◌||◌, if◌then◌else◌, none, get_elem?, ◌^◌, ◌≤◌, ◌<◌, ◌≡◌, ◌≢◌, refl, sym, ap,
  ◌∙◌, true, false, some, List, [], ◌∷◌, arith, length, map, All, Option-cases, inl, inr, Result,
  ok, ok-injective,
}
use collective.Text.{Text}
use collective.Dict.{Dict, lookup, is_some, lookup-insert_self}
use collective.Storage.{Codec, Chunk, split_loop, split_into_chunks, resized}
use collective.Storage.Assembly.{reassemble_chunks}
use collective.Storage.Whole.{split_loop-Consecutive, resized-positive}
use collective.Storage.Distribution.{StorageNode, allocate_chunks, new_distribution_strategy}
use collective.Storage.Distribution.Allocated.{allocate_chunks-IsAllocation}
use collective.Coordinator.{Coordinator, FileEntry, get_file_lock}
use collective.Coordinator.Contents.{
  NodeService, Holdings, ContentError, healthy_nodes, targets, window,
}
use collective.Coordinator.Window.{get_elem?-window}
use collective.Coordinator.Transfer.{
  retrieve_chunks_from_nodes, write_file, write_found, write_chunks, read_file,
  allocate_chunks_to_nodes,
}
use collective.Coordinator.Stored.{
  Placed, stored_everywhere, store_all_everywhere, retrieve_chunks_held, targets-merge_allocations,
}
use collective.Coordinator.Rejoined.{
  Sound, received, split_loop-Sound, Consecutive-Distinct, reassemble_chunks-received,
}

All-Placed :
    (allocations : Dict (List Text)) (chunks : List Chunk)
    → All (λ c. is_some (lookup c.id allocations) ≡ true) chunks
    → ((chunk_id : Text) (node_ids : List Text)
        → lookup chunk_id allocations ≡ some node_ids
        → 0 < length node_ids)
    → All (Placed allocations) chunks
unfolding targets
All-Placed allocations [] h positive = tt
All-Placed allocations (c ∷ chunks) (h, hs) positive = (
  elim (Option-cases (lookup c.id allocations)) [
    | inl e ↦ absurd (ground (arith, h, e))
    | inr (node_ids, e) ↦ rw (targets, e) (split_first node_ids (positive c.id node_ids e))
  ],
  All-Placed allocations chunks hs positive,
)
  where
    split_first :
        (node_ids : List Text)
        → 0 < length node_ids
        → (node_id : Text) × (others : List Text) × (node_ids ≡ node_id ∷ others)
    split_first [] less = absurd (omega arith)
    split_first (node_id ∷ others) less = (node_id, others, refl)

allocate_chunks-Placed :
    (chunks : List Chunk) (factor : ℕ) (nodes : List StorageNode) (allocations : Dict (List Text))
    → allocate_chunks factor chunks nodes ≡ ok allocations
    → All (Placed allocations) chunks
allocate_chunks-Placed chunks factor nodes allocations h =
    let (each, named) = allocate_chunks-IsAllocation factor chunks nodes allocations h in
    All-Placed allocations chunks each (λ chunk_id node_ids e. (named chunk_id node_ids e).4)

-- An allocation gives every chunk some node.
allocated-Placed :
    (chunks : List Chunk) (factor : ℕ) (nodes : Dict StorageNode) (allocations : Dict (List Text))
    → allocate_chunks_to_nodes chunks factor nodes ≡ ok allocations
    → All (Placed allocations) chunks
unfolding allocate_chunks_to_nodes
allocated-Placed chunks factor nodes allocations h = at_nodes (healthy_nodes nodes) refl
  where
    at_nodes :
        (usable : List StorageNode) → healthy_nodes nodes ≡ usable → All (Placed allocations) chunks
    at_nodes [] e = absurd (ground (arith, h, e))
    at_nodes (node ∷ others) e =
        allocate_chunks-Placed chunks (new_distribution_strategy factor) (node ∷ others) allocations
          (ground (arith, h, e))

window-nil : (offset limit : ℕ) → window offset limit [] ≡ []
unfolding window
window-nil offset limit = ground arith

-- A read of a file whose chunks come back and are put together to the content.
read_file_found :
    (codec : Codec) (service : NodeService) (h : Holdings) (w : service.World) (path : Text)
    (offset limit : ℕ) (f : FileEntry) (chunks : List Chunk) (content : List ℕ)
    → lookup path h.coordinator.file_entries ≡ some f
    → f.chunk_ids ≡ map (λ c. c.id) chunks
    → retrieve_chunks_from_nodes service h.coordinator.nodes w h.coordinator.chunk_allocations
        (map (λ c. c.id) chunks)
      ≡ some (received chunks)
    → reassemble_chunks codec h.chunk_manager (received chunks) ≡ ok content
    → read_file codec service h w path offset limit ≡ some (window offset limit content)
unfolding read_file
read_file_found codec service h w path offset limit f [] content there ids back whole =
    rw (read_file, there, ids)
      (ap some (sym (window-nil offset limit))
        ∙ ap (λ s. some (window offset limit s)) (ok-injective whole))
read_file_found codec service h w path offset limit f (c ∷ chunks) content there ids back whole =
    rw (read_file, there, ids, back, whole) refl

pub get_file_lock_kept :
    (c : Coordinator) (path : Text)
    → ((get_file_lock c path).1.nodes ≡ c.nodes)
      × ((get_file_lock c path).1.file_entries ≡ c.file_entries)
unfolding get_file_lock
get_file_lock_kept c path = ground arith

pub write_file_found :
    (codec : Codec) (service : NodeService) (h : Holdings) (w : service.World) (path : Text)
    (input : List ℕ) (now : ℕ) (f : FileEntry) (allocations : Dict (List Text))
    → lookup path h.coordinator.file_entries ≡ some f
    → allocate_chunks_to_nodes
        (split_into_chunks codec h.chunk_manager input path).0
        2
        (get_file_lock h.coordinator path).1.nodes
      ≡ ok allocations
    → write_file codec service h w path input now
      ≡ write_chunks service
          (record h {
            coordinator = (get_file_lock h.coordinator path).1;
            chunk_manager = (split_into_chunks codec h.chunk_manager input path).1;
          })
          w
          path
          (length input)
          now
          f
          (split_into_chunks codec h.chunk_manager input path).0
          allocations
unfolding write_file write_found
write_file_found codec service h w path input now f allocations there placed =
    rw (write_file, there) (rw (write_found, placed) refl)

pub All-content : (chunks : List Chunk) → All Sound chunks → All (λ c. c.content ≢ []) chunks
All-content [] h = tt
All-content (c ∷ chunks) (h, hs) = (h.1, All-content chunks hs)

write_chunks-read_file :
    (codec : Codec) (service : NodeService) (h : Holdings) (w : service.World) (path : Text)
    (input : List ℕ) (now offset limit fuel : ℕ) (f : FileEntry) (allocations : Dict (List Text))
    → let chunks = split_loop codec fuel h.chunk_manager path 0 input in
      h.chunk_manager.enable_compression ≡ false
      → 0 < h.chunk_manager.chunk_size
      → length input < 2 ^ 63
      → length input ≤ fuel
      → ((node_id : Text) (node : StorageNode)
          → lookup node_id h.coordinator.nodes ≡ some node
          → node.is_healthy ≡ true)
      → All (Placed allocations) chunks
      → stored_everywhere service h.coordinator.nodes w allocations chunks ≡ true
      → let written = write_chunks service h w path (length input) now f chunks allocations in
        read_file codec service written.1 written.2 path offset limit
        ≡ some (window offset limit input)
unfolding write_chunks
write_chunks-read_file codec service h w path input now offset limit fuel f allocations plain pos
      small enough healthy placed everywhere =
    let chunks = split_loop codec fuel h.chunk_manager path 0 input in
    let sound = split_loop-Sound codec h.chunk_manager plain fuel path 0 input pos (omega arith) in
    let (ids, held) =
      store_all_everywhere service h.coordinator.nodes w allocations chunks everywhere
        (All-content chunks sound) placed
        (Consecutive-Distinct 0 chunks sound
          (split_loop-Consecutive codec h.chunk_manager fuel path 0 input)) in
    let written = write_chunks service h w path (length input) now f chunks allocations in
    read_file_found codec service written.1 written.2 path offset limit _ chunks input
      (lookup-insert_self path _ h.coordinator.file_entries) ids
      (retrieve_chunks_held service h.coordinator.nodes written.2 allocations
        written.1.coordinator.chunk_allocations chunks
        (λ chunk_id node_id node_ids e.
          targets-merge_allocations allocations h.coordinator.chunk_allocations chunk_id node_id
            node_ids e)
        healthy held)
      (reassemble_chunks-received codec h.chunk_manager fuel path input plain pos small enough)

-- The write and the read together.
write_file-read_file :
    (codec : Codec) (service : NodeService) (h : Holdings) (w : service.World) (path : Text)
    (input : List ℕ) (now offset limit : ℕ) (f : FileEntry) (allocations : Dict (List Text))
    → lookup path h.coordinator.file_entries ≡ some f
    → h.chunk_manager.enable_compression ≡ false
    → 0 < h.chunk_manager.chunk_size
    → length input < 2 ^ 63
    → ((node_id : Text) (node : StorageNode)
        → lookup node_id h.coordinator.nodes ≡ some node
        → node.is_healthy ≡ true)
    → allocate_chunks_to_nodes
        (split_into_chunks codec h.chunk_manager input path).0
        2
        h.coordinator.nodes
      ≡ ok allocations
    → stored_everywhere service h.coordinator.nodes w allocations
        (split_into_chunks codec h.chunk_manager input path).0
      ≡ true
    → let written = write_file codec service h w path input now in
      (written.0 ≡ ok (length input))
      × (read_file codec service written.1 written.2 path offset limit
          ≡ some (window offset limit input))
unfolding split_into_chunks write_chunks
write_file-read_file codec service h w path input now offset limit f allocations there plain pos
      small healthy placed everywhere =
    let same_nodes = (get_file_lock_kept h.coordinator path).0 in
    let cm = resized codec h.chunk_manager (length input) in
    let chunks = split_loop codec (length input) cm path 0 input in
    let locked = record h {
      coordinator = (get_file_lock h.coordinator path).1;
      chunk_manager = cm;
    } in
    let done =
      write_file_found codec service h w path input now f allocations there
        (ap (allocate_chunks_to_nodes chunks 2) same_nodes ∙ placed) in
    (
      ap (λ (r : Result ContentError ℕ × Holdings × service.World). r.0) done,
      ap
            (λ (r : Result ContentError ℕ × Holdings × service.World).
              read_file codec service r.1 r.2 path offset limit)
            done
          ∙ write_chunks-read_file codec service locked w path input now offset limit (length input)
              f allocations plain (resized-positive codec h.chunk_manager (length input) pos) small
              (omega arith)
              (λ node_id node e. healthy node_id node (sym (ap (lookup node_id) same_nodes) ∙ e))
              (allocated-Placed chunks 2 h.coordinator.nodes allocations placed)
              (ap
                  (λ (nodes : Dict StorageNode).
                    stored_everywhere service nodes w allocations chunks)
                  same_nodes
                ∙ everywhere),
    )

-- With compression off and a positive chunk size, a write of less than 2 ^ 63 bytes to a file that is
-- there succeeds, where every node in the coordinator's table is healthy, the chunks are given nodes,
-- and each of these nodes is known and takes its chunks. A read after it then gives the bytes from its
-- offset on: the i-th byte read is the one of the content at the offset plus i, for each i below the
-- read's length, and for each i where the length is 0.
pub read_file-write_file :
    (codec : Codec) (service : NodeService) (h : Holdings) (w : service.World) (path : Text)
    (input : List ℕ) (now offset limit : ℕ) (f : FileEntry) (allocations : Dict (List Text))
    → lookup path h.coordinator.file_entries ≡ some f
    → h.chunk_manager.enable_compression ≡ false
    → 0 < h.chunk_manager.chunk_size
    → length input < 2 ^ 63
    → ((node_id : Text) (node : StorageNode)
        → lookup node_id h.coordinator.nodes ≡ some node
        → node.is_healthy ≡ true)
    → allocate_chunks_to_nodes
        (split_into_chunks codec h.chunk_manager input path).0
        2
        h.coordinator.nodes
      ≡ ok allocations
    → stored_everywhere service h.coordinator.nodes w allocations
        (split_into_chunks codec h.chunk_manager input path).0
      ≡ true
    → let written = write_file codec service h w path input now in
      (written.0 ≡ ok (length input))
      × ((bytes : List ℕ) × (read_file codec service written.1 written.2 path offset limit
            ≡ some bytes)
          × ((i : ℕ)
              → get_elem? bytes i
                ≡ (if (limit == 0) || ltb i limit then get_elem? input (offset + i) else none)))
unfolding split_into_chunks
read_file-write_file codec service h w path input now offset limit f allocations there plain pos
      small healthy placed everywhere =
    let (written, read) =
      write_file-read_file codec service h w path input now offset limit f allocations there plain
        pos small healthy placed everywhere in
    (written, (window offset limit input, read, get_elem?-window offset limit input))
