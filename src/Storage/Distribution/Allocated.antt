-- ===== src/Storage/Distribution/Allocated.antt =====
-- What `allocate_chunks` promises of the nodes it names.
use collective.Prelude.{
  ℕ, zero, suc, ◌+◌, ◌%◌, ◌≤◌, ◌<◌, ◌≡◌, refl, sym, ap, inl, inr, Bool, true, some, Option-cases,
  Bool-cases, List, [], ◌∷◌, arith, length, get_elem?, keep, All, ok, ok-injective, subst,
}
use collective.Text.{Text, same}
use collective.Dict.{Dict, lookup, insert, is_some, lookup-insert, lookup-insert_self}
use collective.Dict.Keys.{Each, Each-insert, Each-lookup}
use collective.Storage.{Chunk}
use collective.Storage.Distribution.{
  StorageNode, minimum, is_usable, has_room, select_nodes, allocate_all, allocate_chunks,
}

-- The id is that of a healthy node of the list with room for the size.
abbrev pub IsPlace : List StorageNode → ℕ → Text → Type 0
IsPlace nodes size node_id =
    (i : ℕ) × (node : StorageNode) × (get_elem? nodes i ≡ some node)
    × (node.id ≡ node_id)
    × (node.is_healthy ≡ true)
    × (node.used_capacity < node.total_capacity)
    × (node.used_capacity + size ≤ node.total_capacity)

-- The nodes named for a chunk id: from one to the factor many, each a place for a chunk of that id.
abbrev pub IsAllocation : ℕ → List Chunk → List StorageNode → Text → List Text → Type 0
IsAllocation factor chunks nodes chunk_id node_ids =
    (k : ℕ) × (chunk : Chunk) × (get_elem? chunks k ≡ some chunk)
    × (chunk.id ≡ chunk_id)
    × (0 < length node_ids)
    × (length node_ids ≤ factor)
    × All (IsPlace nodes chunk.size) node_ids

get_elem?-keep :
    (p : StorageNode → Bool) (nodes : List StorageNode) (i : ℕ) (node : StorageNode)
    → get_elem? (keep p nodes) i ≡ some node
    → (p node ≡ true) × ((j : ℕ) × (get_elem? nodes j ≡ some node))
get_elem?-keep p [] i node h = absurd cc
get_elem?-keep p (n ∷ nodes) i node h = elim (Bool-cases (p n)) [
  | inl e ↦ at_head e (get_elem?-keep p nodes) i (rw e at h)
  | inr e ↦
      let found = get_elem?-keep p nodes i node (rw e at h) in (found.0, (suc found.1.0, found.1.1))
]
  where
    at_head :
        p n ≡ true
        → ((i : ℕ) (m : StorageNode)
            → get_elem? (keep p nodes) i ≡ some m
            → (p m ≡ true) × ((j : ℕ) × (get_elem? nodes j ≡ some m)))
        → (i : ℕ) → get_elem? (n ∷ keep p nodes) i ≡ some node
        → (p node ≡ true) × ((j : ℕ) × (get_elem? (n ∷ nodes) j ≡ some node))
    at_head e later zero h = (ground arith, (0, h))
    at_head e later (suc i) h = let found = later i node h in (found.0, (suc found.1.0, found.1.1))

length-select_nodes-le :
    (count position size : ℕ) (healthy : List StorageNode)
    → length (select_nodes count position size healthy) ≤ count
unfolding select_nodes
length-select_nodes-le zero position size healthy = omega arith
length-select_nodes-le (suc count) position size healthy =
    elim (Option-cases (get_elem? healthy (position % length healthy))) [
      | inl e ↦ ground (arith, length-select_nodes-le count (position + 1) size healthy)
      | inr (node, e) ↦ ground (arith, length-select_nodes-le count (position + 1) size healthy)
    ]

select_nodes-IsPlace :
    (nodes : List StorageNode) (count position size : ℕ)
    → All (IsPlace nodes size) (select_nodes count position size (keep is_usable nodes))
unfolding select_nodes
select_nodes-IsPlace nodes zero position size = tt
select_nodes-IsPlace nodes (suc count) position size =
    elim (Option-cases
      (get_elem? (keep is_usable nodes) (position % length (keep is_usable nodes)))) [
        | inl e ↦ rw (e, select_nodes) (select_nodes-IsPlace nodes count (position + 1) size)
        | inr (node, e) ↦ elim (Bool-cases (has_room size node)) [
          | inl r ↦
              let found = get_elem?-keep is_usable nodes _ node e in
              rw (e, r, select_nodes)
                (
                  (found.1.0, node, found.1.1, refl, ground arith, ground arith, ground arith),
                  select_nodes-IsPlace nodes count (position + 1) size,
                )
          | inr r ↦ rw (e, r, select_nodes) (select_nodes-IsPlace nodes count (position + 1) size)
        ]
      ]

All-from :
    (P : Chunk → Type 0) (chunks : List Chunk)
    → ((k : ℕ) (c : Chunk) → get_elem? chunks k ≡ some c → P c)
    → All P chunks
All-from P [] h = tt
All-from P (c ∷ cs) h = (h 0 c refl, All-from P cs (λ k d e. h (suc k) d e))

is_some_inserted :
    (key key' : Text) (v : List Text) (m : Dict (List Text))
    → is_some (lookup key m) ≡ true
    → is_some (lookup key (insert key' v m)) ≡ true
is_some_inserted key key' v m h = elim (Bool-cases (same key' key)) [
  | inl e ↦ rw (lookup-insert key' key v m, e) refl
  | inr e ↦ rw (lookup-insert key' key v m, e) h
]

module _ (factor : ℕ) (healthy : List StorageNode) where
  abbrev selected : Chunk → List Text
  selected chunk = select_nodes (minimum factor (length healthy)) chunk.index chunk.size healthy

  allocate_all-cons :
      (chunk : Chunk) (chunks : List Chunk) (acc d : Dict (List Text))
      → allocate_all factor healthy (chunk ∷ chunks) acc ≡ ok d
      → (0 < length (selected chunk))
        × (allocate_all factor healthy chunks (insert chunk.id (selected chunk) acc) ≡ ok d)
  unfolding allocate_all
  allocate_all-cons chunk chunks acc d h = ground arith

  allocate_all-Each :
      (Q : Text → List Text → Type 0) (chunks : List Chunk) (acc d : Dict (List Text))
      → All (λ c. 0 < length (selected c) → Q c.id (selected c)) chunks
      → Each Q acc
      → allocate_all factor healthy chunks acc ≡ ok d
      → Each Q d
  unfolding allocate_all
  allocate_all-Each Q [] acc d h each e = subst (Each Q) (ok-injective e) each
  allocate_all-Each Q (c ∷ cs) acc d (p, h) each e =
      let r = allocate_all-cons c cs acc d e in
      allocate_all-Each Q cs _ d h (Each-insert Q c.id (selected c) acc (p r.0) each) r.1

  -- The loop names places for every chunk, in the dictionary that it ends with.
  allocate_all-lookup :
      (nodes : List StorageNode) (chunks : List Chunk) (d : Dict (List Text))
      → healthy ≡ keep is_usable nodes
      → allocate_all factor healthy chunks [] ≡ ok d
      → Each (IsAllocation factor chunks nodes) d
  allocate_all-lookup nodes chunks d same_nodes e =
      allocate_all-Each (IsAllocation factor chunks nodes) chunks [] d
        (All-from _ chunks (λ k c at_k positive. (
          k,
          c,
          at_k,
          refl,
          positive,
          grind (
            arith,
            length-select_nodes-le (minimum factor (length healthy)) c.index c.size healthy,
          ),
          subst
              (λ (l : List StorageNode).
                All (IsPlace nodes c.size)
                  (select_nodes (minimum factor (length healthy)) c.index c.size l))
              (sym same_nodes)
              (select_nodes-IsPlace nodes (minimum factor (length healthy)) c.index c.size),
        )))
        tt e

  allocate_all-keeps :
      (chunks : List Chunk) (acc d : Dict (List Text)) (chunk_id : Text)
      → is_some (lookup chunk_id acc) ≡ true
      → allocate_all factor healthy chunks acc ≡ ok d
      → is_some (lookup chunk_id d) ≡ true
  unfolding allocate_all
  allocate_all-keeps [] acc d chunk_id h e = rw⁻¹ (ok-injective e) h
  allocate_all-keeps (c ∷ cs) acc d chunk_id h e =
      allocate_all-keeps cs (insert c.id (selected c) acc) d chunk_id
        (is_some_inserted chunk_id c.id (selected c) acc h) (allocate_all-cons c cs acc d e).1

  allocate_all_for_each :
      (chunks : List Chunk) (acc d : Dict (List Text))
      → allocate_all factor healthy chunks acc ≡ ok d
      → All (λ c. is_some (lookup c.id d) ≡ true) chunks
  allocate_all_for_each [] acc d e = tt
  allocate_all_for_each (c ∷ cs) acc d e =
      let later = (allocate_all-cons c cs acc d e).1 in
      (
        allocate_all-keeps cs (insert c.id (selected c) acc) d c.id
            (ap is_some (lookup-insert_self c.id (selected c) acc)) later,
        allocate_all_for_each cs (insert c.id (selected c) acc) d later,
      )

allocate_chunks-allocate_all :
    (factor : ℕ) (chunks : List Chunk) (nodes : List StorageNode) (d : Dict (List Text))
    → allocate_chunks factor chunks nodes ≡ ok d
    → allocate_all factor (keep is_usable nodes) chunks [] ≡ ok d
unfolding allocate_chunks
allocate_chunks-allocate_all factor chunks [] d h = absurd cc
allocate_chunks-allocate_all factor chunks (n ∷ ns) d h = ground arith

-- Where `allocate_chunks` succeeds, every chunk's id has its nodes in the outcome; and whatever the
-- outcome names for an id are between one and the replication factor many nodes, each of them
-- among those given, healthy, not full, and with room for a chunk of that id.
pub allocate_chunks-IsAllocation :
    (factor : ℕ) (chunks : List Chunk) (nodes : List StorageNode) (d : Dict (List Text))
    → allocate_chunks factor chunks nodes ≡ ok d
    → All (λ c. is_some (lookup c.id d) ≡ true) chunks
      × ((chunk_id : Text) (node_ids : List Text)
          → lookup chunk_id d ≡ some node_ids
          → IsAllocation factor chunks nodes chunk_id node_ids)
allocate_chunks-IsAllocation factor chunks nodes d h =
    let all = allocate_chunks-allocate_all factor chunks nodes d h in
    (
      allocate_all_for_each factor (keep is_usable nodes) chunks [] d all,
      λ chunk_id node_ids e.
          Each-lookup (IsAllocation factor chunks nodes) chunk_id node_ids d
            (allocate_all-lookup factor (keep is_usable nodes) nodes chunks d refl all) e,
    )
