-- ===== src/Storage/Assembly.antt =====
-- pkg/storage/storage.go: ReassembleChunks.
use collective.Prelude.{
  ℕ, zero, suc, false, ◌&&◌, none, some, List, [], ◌∷◌, ◌++◌, if◌then◌else◌, leb, length, any,
  Result, ok, err, ◌>>=◌, ◌>>◌, refuse_if,
}
use collective.Address.{is_empty}
use collective.Storage.{
  Codec, Chunk, ChunkManager, ChunkError, invalid_index, missing_chunk, cannot_decompress,
}

-- The zero value of types.Chunk, which fills a fresh slice.
abbrev pub blank_chunk : Chunk
blank_chunk = record {
  id = [];
  file_id = [];
  index = 0;
  size = 0;
  original_size = 0;
  hash = [];
  content = [];
  compressed = false;
}

-- make([]types.Chunk, n), by the list that gives n
unfoldable pub blanks : List Chunk → List Chunk
blanks [] = []
blanks (c ∷ cs) = blank_chunk ∷ blanks cs

-- `sortedChunks[chunk.Index] = chunk`, within bounds
unfoldable pub put_at : List Chunk → ℕ → Chunk → List Chunk
put_at [] i chunk = []
put_at (slot ∷ slots) zero chunk = chunk ∷ slots
put_at (slot ∷ slots) (suc i) chunk = slot ∷ put_at slots i chunk

-- The first loop; the bound is the number of chunks.
unfoldable pub place_all : ℕ → List Chunk → List Chunk → Result ChunkError (List Chunk)
place_all n [] slots = ok slots
place_all n (chunk ∷ chunks) slots =
    let placed = place_all n chunks (put_at slots chunk.index chunk) in
    if leb n chunk.index then err invalid_index else placed

module _ (codec : Codec) where
  -- One round of the last loop.
  unfoldable pub restore : ChunkManager → Chunk → Result ChunkError (List ℕ)
  restore cm chunk =
      if chunk.compressed && cm.enable_compression
      then elim (codec.gunzip chunk.content) [
        | none ↦ err cannot_decompress
        | some plain ↦ ok plain
      ]
      else ok chunk.content

  unfoldable pub concat_all : ChunkManager → List Chunk → Result ChunkError (List ℕ)
  unfolding restore
  concat_all cm [] = ok []
  concat_all cm (chunk ∷ chunks) = do
    piece ← restore cm chunk
    rest ← concat_all cm chunks
    ok (piece ++ rest)

  -- ReassembleChunks
  unfoldable pub reassemble_chunks : ChunkManager → List Chunk → Result ChunkError (List ℕ)
  unfolding place_all concat_all blanks
  reassemble_chunks cm chunks = do
    slots ← place_all (length chunks) chunks (blanks chunks)
    refuse_if (any (λ chunk. is_empty chunk.id) slots) missing_chunk
    concat_all cm slots
