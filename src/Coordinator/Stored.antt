-- ===== src/Coordinator/Stored.antt =====
-- pkg/coordinator/coordinator_file.go and coordinator_storage.go: chunks that every node of theirs
-- took are found again.
use collective.Prelude.{
  ℕ, ◌+◌, ◌≤◌, ◌≡◌, ◌≢◌, refl, sym, subst, ◌⊎◌, Bool, true, false, ◌&&◌, some, List, [], ◌∷◌, arith,
  ◌==◌, length, map, All, Bool-cases, Option-cases, inl, inr,
}
use collective.Text.{Text, same}
use collective.Dict.{Dict, lookup, lookup-insert}
use collective.Storage.{Chunk}
use collective.Storage.Distribution.{StorageNode}
use collective.Coordinator.Contents.{NodeService, targets, merge_allocations, received_chunk}
use collective.Coordinator.Transfer.{
  store_on_nodes, store_all, retrieve_one, retrieve_chunks_from_nodes,
}

-- No id stands twice.
unfoldable pub Distinct : List Chunk → Type 0
Distinct [] = Unit
Distinct (chunk ∷ chunks) = All (λ d. same d.id chunk.id ≡ false) chunks × Distinct chunks

-- Every chunk has some node.
abbrev pub Placed : Dict (List Text) → Chunk → Type 0
Placed allocations chunk =
    (node_id : Text) × (node_ids : List Text) × (targets allocations chunk.id ≡ node_id ∷ node_ids)

pub targets-merge_allocations :
    (allocations old : Dict (List Text)) (chunk_id node_id : Text) (node_ids : List Text)
    → targets allocations chunk_id ≡ node_id ∷ node_ids
    → targets (merge_allocations allocations old) chunk_id ≡ node_id ∷ node_ids
unfolding targets merge_allocations lookup
targets-merge_allocations [] old chunk_id node_id node_ids h = absurd (cc)
targets-merge_allocations ((k, v) ∷ allocations) old chunk_id node_id node_ids h =
    elim (Bool-cases (same k chunk_id)) [
      | inl e ↦
          rw (targets, lookup-insert k chunk_id v (merge_allocations allocations old), e)
            (ground (arith, h, e))
      | inr e ↦
          rw (targets, lookup-insert k chunk_id v (merge_allocations allocations old), e)
            (targets-merge_allocations allocations old chunk_id node_id node_ids
              (ground (arith, h, e)))
    ]

module _ (service : NodeService) (nodes : Dict StorageNode) where
  -- Every node that a chunk was allocated to is known and takes it.
  unfoldable pub stored_everywhere : service.World → Dict (List Text) → List Chunk → Bool
  unfolding store_on_nodes targets
  stored_everywhere w allocations [] = true
  stored_everywhere w allocations (chunk ∷ chunks) =
      let (count, w') = store_on_nodes service nodes w chunk (targets allocations chunk.id) in
      (count == length (targets allocations chunk.id)) && stored_everywhere w' allocations chunks

  -- The first node of the chunk is known and has it.
  abbrev pub IsHeld : service.World → Dict (List Text) → Chunk → Type 0
  IsHeld w allocations chunk =
      (node_id : Text) × (node_ids : List Text) × (node : StorageNode) × (targets allocations
          chunk.id
        ≡ node_id ∷ node_ids)
      × (lookup node_id nodes ≡ some node)
      × service.Has w node.address chunk.id chunk.content

  store_on_nodes_le :
      (w : service.World) (chunk : Chunk) (node_ids : List Text)
      → (store_on_nodes service nodes w chunk node_ids).0 ≤ length node_ids
  unfolding store_on_nodes
  store_on_nodes_le w chunk [] = omega arith
  store_on_nodes_le w chunk (node_id ∷ node_ids) = elim (Option-cases (lookup node_id nodes)) [
    | inl e ↦ rw (e, store_on_nodes) (omega (arith, store_on_nodes_le w chunk node_ids))
    | inr (node, e) ↦
        rw (e, store_on_nodes)
          (ground (arith, store_on_nodes_le (service.store w node.address chunk).1 chunk node_ids))
  ]

  store_on_nodes-Has :
      (w : service.World) (chunk : Chunk) (node_ids : List Text) (at chunk_id : Text)
      (content : List ℕ)
      → (same chunk.id chunk_id ≡ false) ⊎ (chunk.content ≡ content)
      → service.Has w at chunk_id content
      → service.Has (store_on_nodes service nodes w chunk node_ids).1 at chunk_id content
  unfolding store_on_nodes
  store_on_nodes-Has w chunk [] at chunk_id content other h = h
  store_on_nodes-Has w chunk (node_id ∷ node_ids) at chunk_id content other h =
      elim (Option-cases (lookup node_id nodes)) [
        | inl e ↦
            rw (e, store_on_nodes) (store_on_nodes-Has w chunk node_ids at chunk_id content other h)
        | inr (node, e) ↦
            rw (e, store_on_nodes)
              (store_on_nodes-Has (service.store w node.address chunk).1 chunk node_ids at chunk_id
                content other
                (service.Has-store_other w node.address chunk at chunk_id content other h))
      ]

  store_on_nodes_first :
      (w : service.World) (chunk : Chunk) (node_id : Text) (node_ids : List Text)
      → chunk.content ≢ []
      → (store_on_nodes service nodes w chunk (node_id ∷ node_ids)).0 ≡ length node_ids + 1
      → (node : StorageNode) × (lookup node_id nodes ≡ some node)
        × service.Has
            (store_on_nodes service nodes w chunk (node_id ∷ node_ids)).1
            node.address
            chunk.id
            chunk.content
  unfolding store_on_nodes
  store_on_nodes_first w chunk node_id node_ids some_content all =
      elim (Option-cases (lookup node_id nodes)) [
        | inl e ↦
            absurd (
              ground
                (arith, all, rw (e, store_on_nodes) at all, store_on_nodes_le w chunk node_ids))
        | inr (node, e) ↦ (
          node,
          e,
          rw (e, store_on_nodes)
              (store_on_nodes-Has (service.store w node.address chunk).1 chunk node_ids node.address
                chunk.id chunk.content (inr refl)
                (service.Has-store w node.address chunk
                  (ground (
                    arith,
                    rw (e, store_on_nodes) at all,
                    store_on_nodes_le (service.store w node.address chunk).1 chunk node_ids,
                  ))
                  some_content)),
        )
      ]

  store_all-Has :
      (w : service.World) (allocations : Dict (List Text)) (chunks : List Chunk)
      (at chunk_id : Text) (content : List ℕ)
      → All (λ d. same d.id chunk_id ≡ false) chunks
      → service.Has w at chunk_id content
      → service.Has (store_all service nodes w allocations chunks).1 at chunk_id content
  unfolding store_all
  store_all-Has w allocations [] at chunk_id content other h = h
  store_all-Has w allocations (chunk ∷ chunks) at chunk_id content (other, others) h =
      store_all-Has (store_on_nodes service nodes w chunk (targets allocations chunk.id)).1
        allocations chunks at chunk_id content others
        (store_on_nodes-Has w chunk (targets allocations chunk.id) at chunk_id content (inl other)
          h)

  pub store_all_everywhere :
      (w : service.World) (allocations : Dict (List Text)) (chunks : List Chunk)
      → stored_everywhere w allocations chunks ≡ true
      → All (λ c. c.content ≢ []) chunks
      → All (Placed allocations) chunks
      → Distinct chunks
      → ((store_all service nodes w allocations chunks).0 ≡ map (λ c. c.id) chunks)
        × All (IsHeld (store_all service nodes w allocations chunks).1 allocations) chunks
  unfolding store_all stored_everywhere Distinct
  store_all_everywhere w allocations [] all full placed apart = (refl, tt)
  store_all_everywhere w allocations (chunk ∷ chunks) all (some_content, full)
        ((node_id, node_ids, e), placed) (other, apart) =
      let stored = store_on_nodes service nodes w chunk (targets allocations chunk.id) in
      let count : stored.0 ≡ length node_ids + 1 = ground (arith, all, e) in
      let (node, found, has) = store_on_nodes_first w chunk node_id node_ids some_content (
        subst
          (λ (ids : List Text). (store_on_nodes service nodes w chunk ids).0 ≡ length node_ids + 1)
          e count) in
      let (ids, held) =
        store_all_everywhere stored.1 allocations chunks (ground (arith, all, e)) full placed
          apart in
      (
        ground (arith, count, ids),
        (
          (
            node_id,
            node_ids,
            node,
            e,
            found,
            store_all-Has stored.1 allocations chunks node.address chunk.id chunk.content other (
                subst
                  (λ (ids : List Text).
                    service.Has (store_on_nodes service nodes w chunk ids).1 node.address chunk.id
                      chunk.content)
                  (sym e) has),
          ),
          held,
        ),
      )

  retrieve_one_held :
      (w : service.World) (chunk_id node_id : Text) (node_ids : List Text) (node : StorageNode)
      (content : List ℕ)
      → lookup node_id nodes ≡ some node
      → node.is_healthy ≡ true
      → service.Has w node.address chunk_id content
      → retrieve_one service nodes w chunk_id (node_id ∷ node_ids)
        ≡ some (received_chunk chunk_id content)
  unfolding retrieve_one
  retrieve_one_held w chunk_id node_id node_ids node content e healthy has =
      rw (retrieve_one, e, healthy, service.retrieve-Has w node.address chunk_id content has) refl

  pub retrieve_chunks_held :
      (w : service.World) (allocations table : Dict (List Text)) (chunks : List Chunk)
      → ((chunk_id node_id : Text) (node_ids : List Text)
          → targets allocations chunk_id ≡ node_id ∷ node_ids
          → targets table chunk_id ≡ node_id ∷ node_ids)
      → ((node_id : Text) (node : StorageNode)
          → lookup node_id nodes ≡ some node
          → node.is_healthy ≡ true)
      → All (IsHeld w allocations) chunks
      → retrieve_chunks_from_nodes service nodes w table (map (λ c. c.id) chunks)
        ≡ some (map (λ c. received_chunk c.id c.content) chunks)
  unfolding retrieve_chunks_from_nodes
  retrieve_chunks_held w allocations table [] keeps healthy held = refl
  retrieve_chunks_held w allocations table (chunk ∷ chunks) keeps healthy
        ((node_id, node_ids, node, e, found, has), held) =
      rw
        (
          retrieve_chunks_from_nodes,
          keeps chunk.id node_id node_ids e,
          retrieve_one_held w chunk.id node_id node_ids node chunk.content found
              (healthy node_id node found) has,
          retrieve_chunks_held w allocations table chunks keeps healthy held,
        )
        refl
