-- ===== src/Storage/Distribution.antt =====
-- pkg/storage/storage.go: which nodes keep which chunks. Capacities are natural numbers, and a
-- node that is overfull has no room.
pub mod Allocated
pub mod Diverse
use collective.Prelude.{
  ℕ, zero, suc, ◌+◌, ◌%◌, ◌≡◌, Bool, true, false, not, ◌&&◌, Option, none, some, List, [], ◌∷◌,
  ◌++◌, arith, if◌then◌else◌, ltb, leb, length, get_elem?, keep, any, Result, ok, err,
}
use collective.Text.{Text, same}
use collective.Dict.{Dict, lookup, insert}
use collective.Storage.{Chunk}

-- types.StorageNode
pub record StorageNode : Type 0 where
  pub id : Text
  pub member_id : Text
  pub address : Text
  pub total_capacity : ℕ
  pub used_capacity : ℕ
  pub is_healthy : Bool

pub data AllocationError : Type 0 where
  no_nodes no_healthy_nodes no_capacity : AllocationError

-- NewDistributionStrategy, the strategy being its replication factor
unfoldable pub new_distribution_strategy : ℕ → ℕ
new_distribution_strategy replication_factor =
    if ltb replication_factor 1 then 2 else replication_factor

abbrev pub minimum : ℕ → ℕ → ℕ
minimum a b = if ltb a b then a else b

-- The filter of the healthy nodes.
abbrev pub is_usable : StorageNode → Bool
is_usable node = node.is_healthy && ltb node.used_capacity node.total_capacity

-- TotalCapacity - UsedCapacity >= chunk.Size
abbrev pub has_room : ℕ → StorageNode → Bool
has_room size node = leb (node.used_capacity + size) node.total_capacity

-- The inner loop: `count` nodes in turn from the given position on.
unfoldable pub select_nodes : ℕ → ℕ → ℕ → List StorageNode → List Text
select_nodes zero position size healthy = []
select_nodes (suc count) position size healthy =
    let rest = select_nodes count (position + 1) size healthy in
    elim (get_elem? healthy (position % length healthy)) [
      | none ↦ rest
      | some node ↦ if has_room size node then node.id ∷ rest else rest
    ]

-- The outer loop.
unfoldable pub allocate_all :
    ℕ → List StorageNode → List Chunk → Dict (List Text) → Result AllocationError (Dict (List Text))
unfolding select_nodes
allocate_all factor healthy [] allocations = ok allocations
allocate_all factor healthy (chunk ∷ chunks) allocations =
    let selected = select_nodes (minimum factor (length healthy)) chunk.index chunk.size healthy in
    let rest = allocate_all factor healthy chunks (insert chunk.id selected allocations) in
    elim selected [ [] ↦ err no_capacity | s ∷ ss ↦ rest ]

-- AllocateChunks
unfoldable pub allocate_chunks :
    ℕ → List Chunk → List StorageNode → Result AllocationError (Dict (List Text))
unfolding allocate_all
allocate_chunks factor chunks [] = err no_nodes
allocate_chunks factor chunks (node ∷ nodes) =
    let healthy = keep is_usable (node ∷ nodes) in
    let allocated = allocate_all factor healthy chunks [] in
    elim healthy [ [] ↦ err no_healthy_nodes | h ∷ hs ↦ allocated ]

-- nodeToMember: the last node of an id counts, a missing one has the empty member
unfoldable pub member_of : List StorageNode → Text → Text
member_of [] node_id = []
member_of (node ∷ nodes) node_id =
    let later = member_of nodes node_id in
    if any (λ n. same n.id node_id) nodes
    then later
    else if same node.id node_id
    then node.member_id
    else []

abbrev pub holds : Text → List Text → Bool
holds s ss = any (same s) ss

module _ (nodes : List StorageNode) where
  -- The first pass: one node per member.
  unfoldable pub first_of_members : List Text → List Text → List Text
  unfolding member_of
  first_of_members members [] = []
  first_of_members members (node_id ∷ node_ids) =
      let member = member_of nodes node_id in
      let same_members = first_of_members members node_ids in
      let more_members = first_of_members (member ∷ members) node_ids in
      if holds member members then same_members else node_id ∷ more_members

  -- The second pass: up to `wanted` nodes, none twice.
  unfoldable pub fill_up : ℕ → List Text → List Text → List Text
  fill_up wanted chosen [] = chosen
  fill_up wanted chosen (node_id ∷ node_ids) =
      let skipped = fill_up wanted chosen node_ids in
      let added = fill_up wanted (chosen ++ (node_id ∷ [])) node_ids in
      if leb wanted (length chosen) then chosen else if holds node_id chosen then skipped else added

  unfoldable pub diversify : List Text → List Text
  unfolding first_of_members fill_up
  diversify node_ids = fill_up (length node_ids) (first_of_members [] node_ids) node_ids

  -- EnsureMemberDiversity
  unfoldable pub ensure_member_diversity : Dict (List Text) → Dict (List Text)
  unfolding diversify
  ensure_member_diversity [] = []
  ensure_member_diversity ((chunk_id, node_ids) ∷ allocations) =
      (chunk_id, diversify node_ids) ∷ ensure_member_diversity allocations
