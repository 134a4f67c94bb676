-- ===== src/Coordinator/Service.antt =====
-- pkg/node/node.go behind the requests of pkg/coordinator/coordinator_file.go: nodes that are all
-- reached and whose files are written are a `NodeService`.
use collective.Prelude.{
  ℕ, ◌+◌, ◌≡◌, ◌≢◌, refl, ap, ◌∙◌, ◌⊎◌, Bool, true, false, Option, none, some, List, [], arith, ltb,
  length, Bool-cases, Option-cases, inl, inr, Result, ok, err,
}
use collective.Text.{Text, same, same_iff}
use collective.Dict.{Dict, lookup, insert, lookup-insert, lookup-insert_self}
use collective.Storage.{Codec, Chunk}
use collective.Node.{
  Node, NodeError, StoreRequest, store_chunk, retrieve_chunk, delete_chunk, writes, keep_chunk,
  requested_chunk,
}
use collective.Coordinator.Contents.{NodeService}

-- The request that storeChunkOnNode and WriteFile make of a chunk.
abbrev pub store_request : Chunk → StoreRequest
store_request chunk = record {
  chunk_id = chunk.id;
  file_id = chunk.file_id;
  index = chunk.index;
  content = chunk.content;
}

abbrev succeeds : Result NodeError (Unit {0}) → Bool
succeeds (err e) = false
succeeds (ok done) = true

module _ (codec : Codec) where
  unfoldable pub store_at : Dict Node → Text → Chunk → Bool × Dict Node
  unfolding store_chunk
  store_at w address chunk = elim (lookup address w) [
    | none ↦ (false, w)
    | some n ↦
        let (answer, n') = store_chunk codec writes (store_request chunk) n in
        (succeeds answer, insert address n' w)
  ]

  unfoldable pub retrieve_at : Dict Node → Text → Text → Option (List ℕ)
  unfolding retrieve_chunk
  retrieve_at w address chunk_id = elim (lookup address w) [
    | none ↦ none
    | some n ↦ elim (retrieve_chunk chunk_id n) [ err e ↦ none | ok content ↦ some content ]
  ]

  unfoldable pub delete_at : Dict Node → Text → Text → Dict Node
  unfolding delete_chunk
  delete_at w address chunk_id = elim (lookup address w) [
    | none ↦ w
    | some n ↦ insert address (delete_chunk true chunk_id n).1 w
  ]

  -- The node at the address keeps a chunk of the id with the content in memory.
  abbrev pub IsKept : Dict Node → Text → Text → List ℕ → Type 0
  IsKept w address chunk_id content =
      (n : Node) × (chunk : Chunk) × (lookup address w ≡ some n)
      × (lookup chunk_id n.chunks ≡ some chunk)
      × (chunk.content ≡ content)
      × (same content [] ≡ false)

  pub store_at-IsKept :
      (w : Dict Node) (address : Text) (chunk : Chunk)
      → (store_at w address chunk).0 ≡ true
      → chunk.content ≢ []
      → IsKept (store_at w address chunk).1 address chunk.id chunk.content
  unfolding store_at store_chunk
  store_at-IsKept w address chunk taken some_content = elim (Option-cases (lookup address w)) [
    | inl e ↦ absurd (ground (arith, taken, e))
    | inr (n, e) ↦
        elim (Bool-cases (ltb n.total_capacity (n.used_capacity + length chunk.content))) [
          | inl full ↦ absurd (ground (arith, taken, e, full))
          | inr room ↦ (
            keep_chunk codec (store_request chunk) n,
            requested_chunk codec (store_request chunk),
            rw (store_at, e, room)
                (lookup-insert_self address (keep_chunk codec (store_request chunk) n) w),
            lookup-insert_self chunk.id (requested_chunk codec (store_request chunk)) n.chunks,
            refl,
            ground (arith, same_iff chunk.content [], some_content),
          )
        ]
  ]

  -- A chunk stays when the node at an address does one step that keeps it.
  insert-IsKept :
      (w : Dict Node) (address : Text) (n n' : Node) (at chunk_id : Text) (content : List ℕ)
      → lookup address w ≡ some n
      → ((kept : Chunk)
          → lookup chunk_id n.chunks ≡ some kept
          → kept.content ≡ content
          → (later : Chunk) × (lookup chunk_id n'.chunks ≡ some later) × (later.content ≡ content))
      → IsKept w at chunk_id content
      → IsKept (insert address n' w) at chunk_id content
  insert-IsKept w address n n' at chunk_id content there step
        (m, kept, found, has, same_content, full) =
      elim (Bool-cases (same address at)) [
        | inr e ↦ (
          m,
          kept,
          ground (arith, e, found, lookup-insert address at n' w),
          has,
          same_content,
          full,
        )
        | inl e ↦
            let same_node : n ≡ m =
              ground (arith, there, found, ap (λ k. lookup k w) ((same_iff address at).0 e)) in
            let (later, at_later, g) =
              step kept (ap (λ (x : Node). lookup chunk_id x.chunks) same_node ∙ has)
                same_content in
            (n', later, ground (arith, e, lookup-insert address at n' w), at_later, g, full)
      ]

  keep_chunk_step :
      (n : Node) (chunk : Chunk) (chunk_id : Text) (content : List ℕ)
      → (same chunk.id chunk_id ≡ false) ⊎ (chunk.content ≡ content)
      → (kept : Chunk) → lookup chunk_id n.chunks ≡ some kept
      → kept.content ≡ content
      → (later : Chunk) × (lookup chunk_id (keep_chunk codec (store_request chunk) n).chunks
          ≡ some later)
        × (later.content ≡ content)
  keep_chunk_step n chunk chunk_id content other kept has same_content =
      elim (Bool-cases (same chunk.id chunk_id)) [
        | inr e ↦ (
          kept,
          ground (
            arith,
            e,
            has,
            lookup-insert chunk.id chunk_id (requested_chunk codec (store_request chunk)) n.chunks,
          ),
          same_content,
        )
        | inl e ↦ (
          requested_chunk codec (store_request chunk),
          ground (
            arith,
            e,
            lookup-insert chunk.id chunk_id (requested_chunk codec (store_request chunk)) n.chunks,
          ),
          same_or other e,
        )
      ]
    where
      same_or :
          (same chunk.id chunk_id ≡ false) ⊎ (chunk.content ≡ content)
          → same chunk.id chunk_id ≡ true
          → chunk.content ≡ content
      same_or (inl d) e = absurd (ground (arith, d, e))
      same_or (inr d) e = d

  pub store_at-IsKept_other :
      (w : Dict Node) (address : Text) (chunk : Chunk) (at chunk_id : Text) (content : List ℕ)
      → (same chunk.id chunk_id ≡ false) ⊎ (chunk.content ≡ content)
      → IsKept w at chunk_id content
      → IsKept (store_at w address chunk).1 at chunk_id content
  unfolding store_at store_chunk
  store_at-IsKept_other w address chunk at chunk_id content other kept =
      elim (Option-cases (lookup address w)) [
        | inl e ↦ rw (store_at, e) kept
        | inr (n, e) ↦
            elim (Bool-cases (ltb n.total_capacity (n.used_capacity + length chunk.content))) [
              | inl full ↦
                  rw (store_at, e, full)
                    (insert-IsKept w address n n at chunk_id content e (λ k h g. (k, h, g)) kept)
              | inr room ↦
                  rw (store_at, e, room)
                    (insert-IsKept w address n (keep_chunk codec (store_request chunk) n) at
                      chunk_id content e (keep_chunk_step n chunk chunk_id content other) kept)
            ]
      ]

  pub retrieve_at-IsKept :
      (w : Dict Node) (address chunk_id : Text) (content : List ℕ)
      → IsKept w address chunk_id content
      → retrieve_at w address chunk_id ≡ some content
  unfolding retrieve_at retrieve_chunk
  retrieve_at-IsKept w address chunk_id content (n, chunk, found, has, e, full) =
      rw (retrieve_at, found, retrieve_chunk, has, e, full) refl

  abbrev pub node_service : NodeService
  node_service = record {
    World = Dict Node;
    store = store_at;
    retrieve = retrieve_at;
    delete = delete_at;
    Has = IsKept;
    Has-store = store_at-IsKept;
    Has-store_other = store_at-IsKept_other;
    retrieve-Has = retrieve_at-IsKept;
  }
