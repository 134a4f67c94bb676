-- ===== src/Coordinator/Rejoined.antt =====
-- pkg/coordinator/coordinator_storage.go: the chunks that came back are put together.
use collective.Prelude.{
  ℕ, zero, suc, ◌+◌, ◌^◌, ◌≤◌, ◌<◌, ◌≡◌, ◌≢◌, refl, ap, ◌∙◌, false, List, [], ◌∷◌, arith, length,
  take, map, All, ok,
}
use collective.Text.{Text, same, same_iff}
use collective.Address.{is_empty}
use collective.Storage.{Codec, Chunk, ChunkManager, split_loop, make_chunk, pack, drop}
use collective.Storage.Assembly.{restore, concat_all, reassemble_chunks}
use collective.Storage.Pieces.{concat_all-split_loop, id-split_loop, length-drop}
use collective.Storage.Slots.{Consecutive, place_all_in_order, none_empty}
use collective.Storage.Whole.{split_loop-Consecutive, reassemble_chunks_placed}
use collective.Coordinator.Contents.{received_chunk, chunk_index}
use collective.Coordinator.Received.{chunk_index-id}
use collective.Coordinator.Stored.{Distinct}

-- A chunk with its index in its id, and with some content.
abbrev pub Sound : Chunk → Type 0
Sound c = (chunk_index c.id ≡ c.index) × (c.content ≢ [])

abbrev pub received : List Chunk → List Chunk
received chunks = map (λ c. received_chunk c.id c.content) chunks

received-Consecutive :
    (k : ℕ) (chunks : List Chunk)
    → All Sound chunks
    → Consecutive k chunks
    → Consecutive k (received chunks)
unfolding Consecutive
received-Consecutive k [] s h = tt
received-Consecutive k (c ∷ chunks) (s, ss) (e, h) =
    (s.0 ∙ e, received-Consecutive (k + 1) chunks ss h)

take-ne-nil : (n c : ℕ) (input : List ℕ) → 0 < n → take n (c ∷ input) ≢ []
take-ne-nil zero c input pos = absurd (omega arith)
take-ne-nil (suc n) c input pos = λ e. absurd (cc)

module _ (codec : Codec) (cm : ChunkManager) (plain : cm.enable_compression ≡ false) where
  restore_plain : (c : Chunk) → restore codec cm c ≡ ok c.content
  unfolding restore
  restore_plain c = ground (arith, plain)

  concat_all-received :
      (chunks : List Chunk) → concat_all codec cm (received chunks) ≡ concat_all codec cm chunks
  unfolding concat_all
  concat_all-received [] = refl
  concat_all-received (c ∷ chunks) = rw (concat_all-received chunks, restore_plain c) refl

  pub split_loop-Sound :
      (fuel : ℕ) (file_id : Text) (index : ℕ) (input : List ℕ)
      → 0 < cm.chunk_size
      → index + length input < 2 ^ 63
      → All Sound (split_loop codec fuel cm file_id index input)
  unfolding split_loop make_chunk
  split_loop-Sound zero file_id index input pos small = tt
  split_loop-Sound (suc fuel) file_id index [] pos small = tt
  split_loop-Sound (suc fuel) file_id index (c ∷ input) pos small = (
    (
      chunk_index-id codec cm file_id index (take cm.chunk_size (c ∷ input)) (omega arith),
      unfold pack in (rw plain (take-ne-nil cm.chunk_size c input pos)),
    ),
    split_loop-Sound fuel file_id (index + 1) (drop cm.chunk_size (c ∷ input)) pos
        (omega (arith, length-drop cm.chunk_size (c ∷ input))),
  )

later_ids :
    (chunk : Chunk) (k : ℕ) (chunks : List Chunk)
    → chunk_index chunk.id < k
    → All Sound chunks
    → Consecutive k chunks
    → All (λ d. same d.id chunk.id ≡ false) chunks
unfolding Consecutive
later_ids chunk k [] less s h = tt
later_ids chunk k (d ∷ chunks) less (s, ss) (e, h) = (
  ground (arith, s.0, e, same_iff d.id chunk.id, ap chunk_index),
  later_ids chunk (k + 1) chunks (omega arith) ss h,
)

pub Consecutive-Distinct :
    (k : ℕ) (chunks : List Chunk) → All Sound chunks → Consecutive k chunks → Distinct chunks
unfolding Distinct Consecutive
Consecutive-Distinct k [] s h = tt
Consecutive-Distinct k (c ∷ chunks) (s, ss) (e, h) = (
  later_ids c (k + 1) chunks (ground (arith, s.0, e)) ss h,
  Consecutive-Distinct (k + 1) chunks ss h,
)

id-received :
    (chunks : List Chunk)
    → All (λ c. is_empty c.id ≡ false) chunks
    → All (λ c. is_empty c.id ≡ false) (received chunks)
id-received [] h = tt
id-received (c ∷ chunks) (h, hs) = (h, id-received chunks hs)

-- What came back is put together to the file.
pub reassemble_chunks-received :
    (codec : Codec) (cm : ChunkManager) (fuel : ℕ) (file_id : Text) (input : List ℕ)
    → cm.enable_compression ≡ false
    → 0 < cm.chunk_size
    → length input < 2 ^ 63
    → length input ≤ fuel
    → reassemble_chunks codec cm (received (split_loop codec fuel cm file_id 0 input)) ≡ ok input
reassemble_chunks-received codec cm fuel file_id input plain pos small enough =
    let chunks = split_loop codec fuel cm file_id 0 input in
    let consecutive =
      received-Consecutive 0 chunks
        (split_loop-Sound codec cm plain fuel file_id 0 input pos (omega arith))
        (split_loop-Consecutive codec cm fuel file_id 0 input) in
    reassemble_chunks_placed codec cm (received chunks) (received chunks) input
      (place_all_in_order (received chunks) [] (length (received chunks)) consecutive (omega arith))
      (none_empty (received chunks)
        (id-received chunks (id-split_loop codec cm fuel file_id 0 input)))
      (concat_all-received codec cm plain chunks
        ∙ concat_all-split_loop codec cm fuel file_id 0 input pos enough)
