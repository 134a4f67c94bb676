-- ===== src/Storage.antt =====
-- pkg/storage/storage.go: splitting files into chunks and putting them together. Package crypto's
-- hash and package gzip's coder come in as a `Codec`; sizes are natural numbers, and errors carry
-- no message.
pub mod Assembly
pub mod Pieces
pub mod Slots
pub mod Whole
pub mod Distribution
use collective.Prelude.{
  ℕ, zero, suc, ◌+◌, ◌-◌, ◌*◌, ◌/◌, ◌%◌, ◌<◌, ◌≡◌, Bool, true, false, not, ◌&&◌, ◌||◌, Option, none,
  some, List, [], ◌∷◌, ◌++◌, map, arith, if◌then◌else◌, ltb, leb, ◌==◌, length, take, any, Result,
  ok, err, ◌>>=◌, ◌>>◌, refuse_if,
}
use collective.Text.{Text, bytes, same}

-- What the code takes from crypto/sha256 and compress/gzip. Coding may fail; what was coded is
-- decoded to itself.
pub record Codec : Type 0 where
  pub sha256 : List ℕ → List ℕ
  pub gzip : List ℕ → Option (List ℕ)
  pub gunzip : List ℕ → Option (List ℕ)
  pub gunzip_gzip : (plain coded : List ℕ) → gzip plain ≡ some coded → gunzip coded ≡ some plain

-- types.Chunk
pub record Chunk : Type 0 where
  pub id : Text
  pub file_id : Text
  pub index : ℕ
  pub size : ℕ
  pub original_size : ℕ
  pub hash : Text
  pub content : List ℕ
  pub compressed : Bool

-- The compression level only reaches the coder.
pub record ChunkManager : Type 0 where
  pub chunk_size : ℕ
  pub enable_compression : Bool

pub data ChunkError : Type 0 where
  invalid_index missing_chunk cannot_decompress : ChunkError

abbrev pub small_chunk_size : ℕ
small_chunk_size = 64 * 1024

abbrev pub default_chunk_size : ℕ
default_chunk_size = 1024 * 1024

abbrev pub large_chunk_size : ℕ
large_chunk_size = 4 * 1024 * 1024

abbrev pub small_file_threshold : ℕ
small_file_threshold = 1024 * 1024

abbrev pub large_file_threshold : ℕ
large_file_threshold = 100 * 1024 * 1024

-- NewChunkManager
abbrev pub new_chunk_manager : ChunkManager
new_chunk_manager = record { chunk_size = default_chunk_size; enable_compression = false }

-- NewChunkManagerWithOptions
unfoldable pub new_chunk_manager_with_options : ℕ → Bool → ChunkManager
new_chunk_manager_with_options chunk_size enable_compression = record {
  chunk_size = if chunk_size == 0 then default_chunk_size else chunk_size;
  enable_compression = enable_compression;
}

-- GetOptimalChunkSize
unfoldable pub get_optimal_chunk_size : ℕ → ℕ
get_optimal_chunk_size file_size =
    if ltb file_size small_file_threshold
    then small_chunk_size
    else if ltb large_file_threshold file_size
    then large_chunk_size
    else default_chunk_size

-- fmt's %d, the digits from the last to the first
unfoldable pub digits : ℕ → ℕ → Text → Text
digits zero n out = out
digits (suc fuel) n out =
    let more = digits fuel (n / 10) ((b'0' + n % 10) ∷ out) in
    if ltb n 10 then (b'0' + n) ∷ out else more

unfoldable pub decimal : ℕ → Text
unfolding digits
decimal n = digits (suc n) n []

abbrev hex_digit : ℕ → ℕ
hex_digit d = if ltb d 10 then b'0' + d else b'a' + (d - 10)

-- fmt's %x
unfoldable pub hex : List ℕ → Text
hex [] = []
hex (b ∷ bs) = hex_digit (b / 16) ∷ hex_digit (b % 16) ∷ hex bs

-- strings.ReplaceAll(fileID, "/", "_")
unfoldable pub safe_file_id : Text → Text
safe_file_id file_id = map (λ c. if c == b'/' then b'_' else c) file_id

-- GenerateChunkID
unfoldable pub generate_chunk_id : Text → ℕ → Text
unfolding safe_file_id decimal
generate_chunk_id file_id index = safe_file_id file_id ++ (bytes "-chunk-" ++ decimal index)

unfoldable pub drop : ℕ → List ℕ → List ℕ
drop zero xs = xs
drop (suc n) [] = []
drop (suc n) (x ∷ xs) = drop n xs

-- Everything of the loop's body but the read.
module _ (codec : Codec) where
  -- The compressed piece, where that is smaller.
  unfoldable pub pack : Bool → List ℕ → List ℕ
  pack false piece = piece
  pack true piece = elim (codec.gzip piece) [
    | none ↦ piece
    | some coded ↦ if ltb (length coded) (length piece) then coded else piece
  ]

  unfoldable pub make_chunk : ChunkManager → Text → ℕ → List ℕ → Chunk
  unfolding pack safe_file_id decimal hex
  make_chunk cm file_id index piece =
      let content = pack cm.enable_compression piece in
      let hash = codec.sha256 content in
      record {
        id = safe_file_id file_id ++ (b'-' ∷ (decimal index ++ (b'-' ∷ hex (take 8 hash))));
        file_id = file_id;
        index = index;
        size = length content;
        original_size = length piece;
        hash = hex hash;
        content = content;
        compressed = ltb (length content) (length piece);
      }

  -- The loop of SplitIntoChunks over the unread input, with fuel.
  unfoldable pub split_loop : ℕ → ChunkManager → Text → ℕ → List ℕ → List Chunk
  unfolding drop
  split_loop zero cm file_id index input = []
  split_loop (suc fuel) cm file_id index [] = []
  split_loop (suc fuel) cm file_id index (c ∷ input) =
      make_chunk cm file_id index (take cm.chunk_size (c ∷ input))
      ∷ split_loop fuel cm file_id (index + 1) (drop cm.chunk_size (c ∷ input))

  -- `cm.chunkSize` is overridden while it is the default, and stays so.
  abbrev pub resized : ChunkManager → ℕ → ChunkManager
  resized cm file_size = record cm {
    chunk_size =
        if cm.chunk_size == default_chunk_size
        then get_optimal_chunk_size file_size
        else cm.chunk_size;
  }

  -- SplitIntoChunks; each round reads at least a byte, so the input's length is fuel enough
  unfoldable pub split_into_chunks : ChunkManager → List ℕ → Text → List Chunk × ChunkManager
  unfolding split_loop
  split_into_chunks cm input file_id =
      let cm' = resized cm (length input) in (split_loop (length input) cm' file_id 0 input, cm')

  -- VerifyChunk
  unfoldable pub verify_chunk : Chunk → Bool
  verify_chunk chunk = same chunk.hash (hex (codec.sha256 chunk.content))
