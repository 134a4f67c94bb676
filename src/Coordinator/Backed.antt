-- ===== src/Coordinator/Backed.antt =====
-- pkg/coordinator/coordinator.go: what StoreFile tracks is stored.
use collective.Prelude.{
  ℕ, ◌^◌, ◌<◌, ◌≡◌, ◌≢◌, refl, ◌⊎◌, false, some, List, [], ◌∷◌, ◌++◌, arith, length, All,
  Bool-cases, Option-cases, inl, inr, Result, ok, err,
}
use collective.Text.{Text, same}
use collective.Dict.{Dict, lookup, lookup-insert_self}
use collective.Storage.{Codec, Chunk, split_into_chunks, split_loop, resized, new_chunk_manager}
use collective.Storage.Whole.{split_loop-Consecutive, resized-positive}
use collective.Storage.Distribution.{
  StorageNode, AllocationError, allocate_chunks, new_distribution_strategy, ensure_member_diversity,
}
use collective.Coordinator.Contents.{NodeService, ChunkLocation, File, healthy_nodes, targets}
use collective.Coordinator.Stored.{Distinct}
use collective.Coordinator.Rejoined.{split_loop-Sound, Consecutive-Distinct}
use collective.Coordinator.Written.{All-content}
use collective.Coordinator.Storing.{
  StoreError, nowhere_to_store, nothing_stored, unallocated, store_on_each, store_each,
  tracked_file, Stored, track, store_chosen, store_file,
}

module _ (service : NodeService) (nodes : Dict StorageNode) where
  -- The node of the location is known and has the chunk, with some content.
  abbrev pub IsBacked : service.World → ChunkLocation → Type 0
  IsBacked w location =
      (node : StorageNode) × (content : List ℕ) × (lookup location.node_id nodes ≡ some node)
      × service.Has w node.address location.chunk_id content

  -- The same for a location of a given chunk.
  abbrev Backs : service.World → Chunk → ChunkLocation → Type 0
  Backs w chunk location =
      (node : StorageNode) × (lookup location.node_id nodes ≡ some node)
      × (location.chunk_id ≡ chunk.id)
      × service.Has w node.address chunk.id chunk.content

  store_on_each-Has :
      (w : service.World) (chunk : Chunk) (node_ids : List Text) (at chunk_id : Text)
      (content : List ℕ)
      → (same chunk.id chunk_id ≡ false) ⊎ (chunk.content ≡ content)
      → service.Has w at chunk_id content
      → service.Has (store_on_each service nodes w chunk node_ids).1 at chunk_id content
  unfolding store_on_each
  store_on_each-Has w chunk [] at chunk_id content other h = h
  store_on_each-Has w chunk (node_id ∷ node_ids) at chunk_id content other h =
      elim (Option-cases (lookup node_id nodes)) [
        | inl e ↦
            rw (e, store_on_each) (store_on_each-Has w chunk node_ids at chunk_id content other h)
        | inr (node, e) ↦
            rw (e, store_on_each)
              (store_on_each-Has (service.store w node.address chunk).1 chunk node_ids at chunk_id
                content other
                (service.Has-store_other w node.address chunk at chunk_id content other h))
      ]

  store_on_each-Backs :
      (w : service.World) (chunk : Chunk) (node_ids : List Text)
      → chunk.content ≢ []
      → All
          (Backs (store_on_each service nodes w chunk node_ids).1 chunk)
          (store_on_each service nodes w chunk node_ids).0
  unfolding store_on_each
  store_on_each-Backs w chunk [] full = tt
  store_on_each-Backs w chunk (node_id ∷ node_ids) full =
      elim (Option-cases (lookup node_id nodes)) [
        | inl e ↦ rw (e, store_on_each) (store_on_each-Backs w chunk node_ids full)
        | inr (node, e) ↦ elim (Bool-cases (service.store w node.address chunk).0) [
          | inr refused ↦
              rw (e, store_on_each, refused)
                (store_on_each-Backs (service.store w node.address chunk).1 chunk node_ids full)
          | inl taken ↦
              rw (e, store_on_each, taken)
                (
                  (
                    node,
                    e,
                    refl,
                    store_on_each-Has (service.store w node.address chunk).1 chunk node_ids
                        node.address chunk.id chunk.content (inr refl)
                        (service.Has-store w node.address chunk taken full),
                  ),
                  store_on_each-Backs (service.store w node.address chunk).1 chunk node_ids full,
                )
        ]
      ]

  store_each-Has :
      (w : service.World) (allocations : Dict (List Text)) (chunks : List Chunk)
      (at chunk_id : Text) (content : List ℕ)
      → All (λ d. same d.id chunk_id ≡ false) chunks
      → service.Has w at chunk_id content
      → service.Has (store_each service nodes w allocations chunks).1 at chunk_id content
  unfolding store_each
  store_each-Has w allocations [] at chunk_id content other h = h
  store_each-Has w allocations (chunk ∷ chunks) at chunk_id content (other, others) h =
      store_each-Has (store_on_each service nodes w chunk (targets allocations chunk.id)).1
        allocations chunks at chunk_id content others
        (store_on_each-Has w chunk (targets allocations chunk.id) at chunk_id content (inl other) h)

  Backs-IsBacked :
      (w : service.World) (chunk : Chunk) (allocations : Dict (List Text)) (chunks : List Chunk)
      (found others : List ChunkLocation)
      → All (λ d. same d.id chunk.id ≡ false) chunks
      → All (Backs w chunk) found
      → All (IsBacked (store_each service nodes w allocations chunks).1) others
      → All (IsBacked (store_each service nodes w allocations chunks).1) (found ++ others)
  Backs-IsBacked w chunk allocations chunks [] others apart h g = g
  Backs-IsBacked w chunk allocations chunks (l ∷ found) others apart ((node, e, f, has), h) g = (
    (
      node,
      chunk.content,
      e,
      rw f (store_each-Has w allocations chunks node.address chunk.id chunk.content apart has),
    ),
    Backs-IsBacked w chunk allocations chunks found others apart h g,
  )

  store_each-IsBacked :
      (w : service.World) (allocations : Dict (List Text)) (chunks : List Chunk)
      → All (λ c. c.content ≢ []) chunks
      → Distinct chunks
      → All
          (IsBacked (store_each service nodes w allocations chunks).1)
          (store_each service nodes w allocations chunks).0
  unfolding store_each Distinct
  store_each-IsBacked w allocations [] full apart = tt
  store_each-IsBacked w allocations (chunk ∷ chunks) (f, full) (other, apart) =
      let stored = store_on_each service nodes w chunk (targets allocations chunk.id) in
      Backs-IsBacked stored.1 chunk allocations chunks stored.0
        (store_each service nodes stored.1 allocations chunks).0 other
        (store_on_each-Backs w chunk (targets allocations chunk.id) f)
        (store_each-IsBacked stored.1 allocations chunks full apart)

-- Where something was stored, the file is tracked with its locations, and every one is backed by a
-- node; elsewhere no file is tracked anew.
abbrev pub IsStored :
    (service : NodeService)
    → Dict StorageNode
    → Text
    → Text
    → ℕ
    → ℕ
    → Text
    → Dict File
    → Stored service
    → Type 0
IsStored service nodes file_id filename size now member_id tracked (answer, tracked', w) =
    ((locations : List ChunkLocation) × (answer ≡ ok locations)
      × (0 < length locations)
      × (lookup file_id tracked'
          ≡ some (tracked_file file_id filename size now member_id locations))
      × All (IsBacked service nodes w) locations)
    ⊎ ((e : StoreError) × (answer ≡ err e) × (tracked' ≡ tracked))

track-IsStored :
    (service : NodeService) (nodes : Dict StorageNode) (w : service.World) (file_id filename : Text)
    (size now : ℕ) (member_id : Text) (tracked : Dict File) (found : List ChunkLocation)
    → All (IsBacked service nodes w) found
    → IsStored service nodes file_id filename size now member_id tracked (
      (track file_id filename size now member_id found tracked).0,
      (track file_id filename size now member_id found tracked).1,
      w,
    )
unfolding track
track-IsStored service nodes w file_id filename size now member_id tracked [] backed =
    inr (nothing_stored, refl, refl)
track-IsStored service nodes w file_id filename size now member_id tracked (l ∷ found) backed =
    inl (
      l ∷ found,
      refl,
      omega arith,
      lookup-insert_self file_id (tracked_file file_id filename size now member_id (l ∷ found))
          tracked,
      backed,
    )

store_chosen-IsStored :
    (codec : Codec) (service : NodeService) (nodes : Dict StorageNode) (w : service.World)
    (file_id filename : Text) (input : List ℕ) (now : ℕ) (member_id : Text) (tracked : Dict File)
    (allocations : Dict (List Text))
    → length input < 2 ^ 63
    → IsStored service nodes file_id filename (length input) now member_id tracked (
        store_chosen codec service nodes w file_id filename
          (length input)
          now
          member_id
          tracked
          (split_into_chunks codec new_chunk_manager input file_id).0
          allocations)
unfolding store_chosen split_into_chunks
store_chosen-IsStored codec service nodes w file_id filename input now member_id tracked allocations
      small =
    let cm = resized codec new_chunk_manager (length input) in
    let chunks = split_loop codec (length input) cm file_id 0 input in
    let sound =
      split_loop-Sound codec cm refl (length input) file_id 0 input
        (resized-positive codec new_chunk_manager (length input) (omega arith)) (omega arith) in
    track-IsStored service nodes (store_each service nodes w allocations chunks).1 file_id filename
      (length input) now member_id tracked (store_each service nodes w allocations chunks).0
      (store_each-IsBacked service nodes w allocations chunks (All-content chunks sound) (
        Consecutive-Distinct 0 chunks sound
          (split_loop-Consecutive codec cm (length input) file_id 0 input)))

-- For less than 2 ^ 63 bytes, StoreFile either answers with locations of which there is at least
-- one, tracks the file with just these and the size of its content, and every location names a known
-- node that has the chunk; or it answers with an error and tracks no file anew.
pub store_file-IsStored :
    (codec : Codec) (service : NodeService) (nodes : Dict StorageNode) (w : service.World)
    (file_id filename : Text) (input : List ℕ) (now : ℕ) (member_id : Text) (tracked : Dict File)
    → length input < 2 ^ 63
    → IsStored service nodes file_id filename
        (length input)
        now
        member_id
        tracked
        (store_file codec service nodes w file_id filename input now member_id tracked)
unfolding store_file
store_file-IsStored codec service nodes w file_id filename input now member_id tracked small =
    at_nodes (healthy_nodes nodes) refl
  where
    at_allocation :
        (node : StorageNode) (others : List StorageNode)
        → healthy_nodes nodes ≡ node ∷ others
        → (chosen : Result AllocationError (Dict (List Text)))
        → allocate_chunks
            (new_distribution_strategy 2)
            (split_into_chunks codec new_chunk_manager input file_id).0
            (node ∷ others)
          ≡ chosen
        → IsStored service nodes file_id filename
            (length input)
            now
            member_id
            tracked
            (store_file codec service nodes w file_id filename input now member_id tracked)
    at_allocation node others e (err x) f = rw (store_file, e, f) (inr (unallocated x, refl, refl))
    at_allocation node others e (ok allocations) f =
        rw (store_file, e, f)
          (store_chosen-IsStored codec service nodes w file_id filename input now member_id tracked
            (ensure_member_diversity (node ∷ others) allocations) small)

    at_nodes :
        (usable : List StorageNode)
        → healthy_nodes nodes ≡ usable
        → IsStored service nodes file_id filename
            (length input)
            now
            member_id
            tracked
            (store_file codec service nodes w file_id filename input now member_id tracked)
    at_nodes [] e = rw (store_file, e) (inr (nowhere_to_store, refl, refl))
    at_nodes (node ∷ others) e = at_allocation node others e _ refl
