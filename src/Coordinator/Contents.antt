-- ===== src/Coordinator/Contents.antt =====
-- pkg/coordinator/coordinator_file.go and coordinator_storage.go: what WriteFile and ReadFile work on. Connections and the nodes behind them are a
-- `NodeService`. Requests are taken one after the other. Offsets and lengths are not negative.
use collective.Prelude.{
  ℕ, ◌+◌, ◌-◌, ◌*◌, ◌^◌, ◌≡◌, ◌≢◌, ◌⊎◌, Bool, true, false, ◌&&◌, Option, none, some, List, [], ◌∷◌,
  if◌then◌else◌, ltb, leb, ◌==◌, length, take, keep, map,
}
use collective.Text.{Text, same}
use collective.Text.Split.{split}
use collective.Dict.{Dict, lookup, insert}
use collective.Storage.{Chunk, ChunkManager, drop}
use collective.Storage.Distribution.{StorageNode, AllocationError}
use collective.Coordinator.{Coordinator}

-- What the coordinator asks of storage nodes at their addresses. A store that succeeds leaves the
-- chunk's content there, a chunk stays through stores of other ids and of the same content, and a
-- chunk that is there is retrieved.
pub record NodeService : Type 1 where
  pub World : Type 0
  pub store : World → Text → Chunk → Bool × World
  pub retrieve : World → Text → Text → Option (List ℕ)
  pub delete : World → Text → Text → World
  pub Has : World → Text → Text → List ℕ → Type 0
  pub Has-store :
      (w : World) (address : Text) (chunk : Chunk)
      → (store w address chunk).0 ≡ true
      → chunk.content ≢ []
      → Has (store w address chunk).1 address chunk.id chunk.content
  pub Has-store_other :
      (w : World) (address : Text) (chunk : Chunk) (at chunk_id : Text) (content : List ℕ)
      → (same chunk.id chunk_id ≡ false) ⊎ (chunk.content ≡ content)
      → Has w at chunk_id content
      → Has (store w address chunk).1 at chunk_id content
  pub retrieve-Has :
      (w : World) (address chunk_id : Text) (content : List ℕ)
      → Has w address chunk_id content
      → retrieve w address chunk_id ≡ some content

-- types.ChunkLocation and types.File
pub record ChunkLocation : Type 0 where
  pub chunk_id : Text
  pub node_id : Text
  pub index : ℕ
  pub size : ℕ

pub record File : Type 0 where
  pub id : Text
  pub name : Text
  pub size : ℕ
  pub chunks : List ChunkLocation
  pub created_at : ℕ
  pub owner_id : Text

-- The coordinator with its chunk manager and the files that it tracks.
pub record Holdings : Type 0 where
  pub coordinator : Coordinator
  pub chunk_manager : ChunkManager
  pub tracked : Dict File

pub data ContentError : Type 0 where
  no_such_file no_healthy_node : ContentError
  not_allocated : AllocationError → ContentError

-- The healthy nodes, as both loops over the nodes collect them.
unfoldable pub healthy_nodes : Dict StorageNode → List StorageNode
healthy_nodes nodes = keep (λ node. node.is_healthy) (map (λ entry. entry.1) nodes)

-- A missing key has no nodes.
unfoldable pub targets : Dict (List Text) → Text → List Text
targets allocations chunk_id = elim (lookup chunk_id allocations) [
  | none ↦ []
  | some node_ids ↦ node_ids
]

-- `c.chunkAllocations[chunkID] = nodeIDs` for each; the last entry first, as a range may go
unfoldable pub merge_allocations : Dict (List Text) → Dict (List Text) → Dict (List Text)
merge_allocations [] old = old
merge_allocations ((chunk_id, node_ids) ∷ allocations) old =
    insert chunk_id node_ids (merge_allocations allocations old)

-- The locations of the stored chunks; the sizes come from the chunks by position.
unfoldable pub locations : Dict (List Text) → List Chunk → ℕ → List Text → List ChunkLocation
locations allocations chunks i [] = []
locations allocations [] i (chunk_id ∷ chunk_ids) = []
locations allocations (chunk ∷ chunks) i (chunk_id ∷ chunk_ids) =
    let rest = locations allocations chunks (i + 1) chunk_ids in
    elim (targets allocations chunk_id) [
      | [] ↦ rest
      | node_id ∷ node_ids ↦
          record { chunk_id = chunk_id; node_id = node_id; index = i; size = length chunk.content }
          ∷ rest
    ]

-- strconv.Atoi on a part that has no minus: an optional plus and digits, below 2^63
unfoldable pub read_digits : ℕ → Text → Option ℕ
read_digits value [] = some value
read_digits value (c ∷ s) =
    let rest = read_digits (value * 10 + (c - b'0')) s in
    if leb b'0' c && leb c b'9' then rest else none

unfoldable pub in_range : Option ℕ → Option ℕ
in_range none = none
in_range (some value) = if ltb value (2 ^ 63) then some value else none

unfoldable pub atoi : Text → Option ℕ
unfolding read_digits in_range
atoi [] = none
atoi (c ∷ s) =
    if c == b'+'
    then if same s [] then none else in_range (read_digits 0 s)
    else in_range (read_digits 0 (c ∷ s))

-- The last part but one, of three or more.
unfoldable pub index_part : List Text → Option Text
index_part [] = none
index_part (p ∷ []) = none
index_part (p ∷ q ∷ []) = none
index_part (p ∷ q ∷ r ∷ []) = some q
index_part (p ∷ q ∷ r ∷ s ∷ parts) = index_part (q ∷ r ∷ s ∷ parts)

-- The index of a chunk, from its id.
unfoldable pub chunk_index : Text → ℕ
unfolding atoi index_part
chunk_index chunk_id = elim (index_part (split b'-' chunk_id)) [
  | none ↦ 0
  | some part ↦ elim (atoi part) [ none ↦ 0 | some index ↦ index ]
]

abbrev pub received_chunk : Text → List ℕ → Chunk
received_chunk chunk_id content = record {
  id = chunk_id;
  file_id = [];
  index = chunk_index chunk_id;
  size = 0;
  original_size = 0;
  hash = [];
  content = content;
  compressed = false;
}

-- data[offset:], and up to the length, where there is one
abbrev pub up_to : ℕ → List ℕ → List ℕ
up_to limit content =
    if ltb 0 limit && ltb limit (length content) then take limit content else content

unfoldable pub window : ℕ → ℕ → List ℕ → List ℕ
unfolding drop
window offset limit content =
    if ltb 0 offset
    then if leb (length content) offset then [] else up_to limit (drop offset content)
    else up_to limit content
