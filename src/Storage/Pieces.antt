-- ===== src/Storage/Pieces.antt =====
-- Splitting cuts the input into pieces, and the chunks give the pieces back.
use collective.Prelude.{
  ℕ, zero, suc, ◌+◌, ◌-◌, ◌≤◌, ◌<◌, ◌≡◌, refl, ap, ◌∙◌, ◌⊎◌, inl, inr, Bool, true, false,
  Bool-cases, Option-cases, some, List, [], ◌∷◌, ◌++◌, arith, ltb, length, take, get_elem?, ok, All,
}
use collective.Text.{Text}
use collective.Address.{is_empty}
use collective.Storage.{
  Codec, Chunk, ChunkManager, pack, make_chunk, split_loop, drop, safe_file_id,
}
use collective.Storage.Assembly.{restore, concat_all}

pub take-append-drop : (n : ℕ) (xs : List ℕ) → take n xs ++ drop n xs ≡ xs
unfolding drop
take-append-drop zero xs = refl
take-append-drop (suc n) [] = refl
take-append-drop (suc n) (x ∷ xs) = ap (λ t. x ∷ t) (take-append-drop n xs)

pub length-drop : (n : ℕ) (xs : List ℕ) → length (drop n xs) ≡ length xs - n
unfolding drop
length-drop zero xs = omega arith
length-drop (suc n) [] = omega arith
length-drop (suc n) (x ∷ xs) = omega (arith, length-drop n xs)

-- A piece is kept as it is, or coded and smaller.
pack_cases :
    (codec : Codec) (enabled : Bool) (piece : List ℕ)
    → (pack codec enabled piece ≡ piece)
      ⊎ ((enabled ≡ true)
          × (codec.gzip piece ≡ some (pack codec enabled piece))
          × (length (pack codec enabled piece) < length piece))
unfolding pack
pack_cases codec false piece = inl refl
pack_cases codec true piece = elim (Option-cases (codec.gzip piece)) [
  | inl e ↦ rw (e, pack) (inl refl)
  | inr (coded, e) ↦
      rw (e, pack)
        (elim (Bool-cases (ltb (length coded) (length piece))) [
          | inl less ↦ rw less (inr (refl, refl, ground arith))
          | inr more ↦ rw more (inl refl)
        ])
]

pub length-pack-le :
    (codec : Codec) (enabled : Bool) (piece : List ℕ)
    → length (pack codec enabled piece) ≤ length piece
length-pack-le codec enabled piece = elim (pack_cases codec enabled piece) [
  | inl e ↦ ground (arith, ap length e)
  | inr (on, e, less) ↦ omega arith
]

is_empty_append : (s : Text) (c : ℕ) (t : Text) → is_empty (s ++ (c ∷ t)) ≡ false
is_empty_append [] c t = refl
is_empty_append (x ∷ s) c t = refl

module _ (codec : Codec) (cm : ChunkManager) where
  -- The test on the sizes tells a coded piece.
  restore_packed :
      (chunk : Chunk) (piece packed : List ℕ)
      → (packed ≡ piece)
        ⊎ ((cm.enable_compression ≡ true)
            × (codec.gzip piece ≡ some packed)
            × (length packed < length piece))
      → chunk.content ≡ packed
      → chunk.compressed ≡ ltb (length packed) (length piece)
      → restore codec cm chunk ≡ ok piece
  unfolding restore
  restore_packed chunk piece packed (inl e) c f = ground (arith, ap length e)
  restore_packed chunk piece packed (inr (on, e, less)) c f =
      ground (arith, codec.gunzip_gzip piece packed e, ap codec.gunzip c)

  -- A chunk gives back the piece that it was made of.
  restore-make_chunk :
      (file_id : Text) (index : ℕ) (piece : List ℕ)
      → restore codec cm (make_chunk codec cm file_id index piece) ≡ ok piece
  unfolding make_chunk
  restore-make_chunk file_id index piece =
      restore_packed (make_chunk codec cm file_id index piece) piece
        (pack codec cm.enable_compression piece) (pack_cases codec cm.enable_compression piece) refl
        refl

  concat_all-cons :
      (chunk : Chunk) (chunks : List Chunk) (piece rest : List ℕ)
      → restore codec cm chunk ≡ ok piece
      → concat_all codec cm chunks ≡ ok rest
      → concat_all codec cm (chunk ∷ chunks) ≡ ok (piece ++ rest)
  unfolding concat_all
  concat_all-cons chunk chunks piece rest h k = ground arith

  -- The pieces in order are the input.
  pub concat_all-split_loop :
      (fuel : ℕ) (file_id : Text) (index : ℕ) (input : List ℕ)
      → 0 < cm.chunk_size
      → length input ≤ fuel
      → concat_all codec cm (split_loop codec fuel cm file_id index input) ≡ ok input
  unfolding split_loop
  concat_all-split_loop zero file_id index [] pos h = unfold concat_all in refl
  concat_all-split_loop zero file_id index (c ∷ input) pos h = absurd (omega arith)
  concat_all-split_loop (suc fuel) file_id index [] pos h = unfold concat_all in refl
  concat_all-split_loop (suc fuel) file_id index (c ∷ input) pos h =
      concat_all-cons _ _ (take cm.chunk_size (c ∷ input)) (drop cm.chunk_size (c ∷ input))
        (restore-make_chunk file_id index (take cm.chunk_size (c ∷ input)))
        (concat_all-split_loop fuel file_id (index + 1) (drop cm.chunk_size (c ∷ input)) pos
          (omega (arith, length-drop cm.chunk_size (c ∷ input))))
      ∙ ap ok (take-append-drop cm.chunk_size (c ∷ input))

  -- Chunks are numbered from the first index on.
  pub index-split_loop :
      (fuel : ℕ) (file_id : Text) (index i : ℕ) (input : List ℕ) (chunk : Chunk)
      → get_elem? (split_loop codec fuel cm file_id index input) i ≡ some chunk
      → chunk.index ≡ index + i
  unfolding split_loop make_chunk
  index-split_loop zero file_id index i input chunk h = absurd (cc)
  index-split_loop (suc fuel) file_id index i [] chunk h = absurd (cc)
  index-split_loop (suc fuel) file_id index zero (c ∷ input) chunk h = ground arith
  index-split_loop (suc fuel) file_id index (suc i) (c ∷ input) chunk h =
      omega (
        arith,
        index-split_loop fuel file_id (index + 1) i (drop cm.chunk_size (c ∷ input)) chunk h,
      )

  -- Every chunk has a name.
  pub id-split_loop :
      (fuel : ℕ) (file_id : Text) (index : ℕ) (input : List ℕ)
      → All (λ chunk. is_empty chunk.id ≡ false) (split_loop codec fuel cm file_id index input)
  unfolding split_loop make_chunk
  id-split_loop zero file_id index input = tt
  id-split_loop (suc fuel) file_id index [] = tt
  id-split_loop (suc fuel) file_id index (c ∷ input) = (
    is_empty_append (safe_file_id file_id) _ _,
    id-split_loop fuel file_id (index + 1) (drop cm.chunk_size (c ∷ input)),
  )
