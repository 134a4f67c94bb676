-- ===== src/Storage/Whole.antt =====
-- A file that was split into chunks is put together from them, in whatever order they come.
use mathlib.Core.List.Permᴰ
use mathlib.Core.List.{Permᴰ}
use collective.Prelude.{
  ◌*◌, ◌-◌, ℕ, zero, suc, ◌+◌, ◌≤◌, ◌<◌, ◌≡◌, refl, sym, ap, ◌∙◌, true, false, List, [], ◌∷◌, arith,
  length, take, any, All, length-take-le, ok,
}
use collective.Text.{Text, same_iff}
use collective.Address.{is_empty}
use collective.Storage.{
  Codec, Chunk, ChunkManager, split_loop, split_into_chunks, verify_chunk, drop, resized,
  small_chunk_size, new_chunk_manager, get_optimal_chunk_size, make_chunk,
}
use collective.Storage.Assembly.{blanks, place_all, concat_all, reassemble_chunks}
use collective.Storage.Pieces.{concat_all-split_loop, id-split_loop, length-pack-le}
use collective.Storage.Slots.{
  Consecutive, Consecutive-Apart, place_all-Perm, place_all_in_order, length-Perm, blanks-Perm,
  none_empty,
}

module _ (codec : Codec) (cm : ChunkManager) where
  pub split_loop-Consecutive :
      (fuel : ℕ) (file_id : Text) (index : ℕ) (input : List ℕ)
      → Consecutive index (split_loop codec fuel cm file_id index input)
  unfolding split_loop Consecutive make_chunk
  split_loop-Consecutive zero file_id index input = tt
  split_loop-Consecutive (suc fuel) file_id index [] = tt
  split_loop-Consecutive (suc fuel) file_id index (c ∷ input) =
      (refl, split_loop-Consecutive fuel file_id (index + 1) (drop cm.chunk_size (c ∷ input)))

  pub reassemble_chunks_placed :
      (chunks slots : List Chunk) (output : List ℕ)
      → place_all (length chunks) chunks (blanks chunks) ≡ ok slots
      → any (λ c. is_empty c.id) slots ≡ false
      → concat_all codec cm slots ≡ ok output
      → reassemble_chunks codec cm chunks ≡ ok output
  unfolding reassemble_chunks
  reassemble_chunks_placed chunks slots output p q r = rw (p, q) r

  reassemble_chunks-split_loop :
      (chunks : List Chunk) (fuel : ℕ) (file_id : Text) (input : List ℕ)
      → 0 < cm.chunk_size
      → length input ≤ fuel
      → Permᴰ chunks (split_loop codec fuel cm file_id 0 input)
      → reassemble_chunks codec cm chunks ≡ ok input
  reassemble_chunks-split_loop chunks fuel file_id input pos enough perm =
      let cs = split_loop codec fuel cm file_id 0 input in
      reassemble_chunks_placed chunks cs input
        (sym (
            place_all-Perm (Permᴰ.symm perm)
              (Consecutive-Apart 0 cs (split_loop-Consecutive fuel file_id 0 input)) (length chunks)
              (blanks chunks))
          ∙ ap (place_all (length chunks) cs) (blanks-Perm perm)
          ∙ place_all_in_order cs [] (length chunks) (split_loop-Consecutive fuel file_id 0 input)
              (length-Perm perm ∙ omega arith))
        (none_empty cs (id-split_loop codec cm fuel file_id 0 input))
        (concat_all-split_loop codec cm fuel file_id 0 input pos enough)

pub resized-positive :
    (codec : Codec) (cm : ChunkManager) (n : ℕ)
    → 0 < cm.chunk_size
    → 0 < (resized codec cm n).chunk_size
resized-positive codec cm n h = unfold get_optimal_chunk_size in ground arith

-- What `split_into_chunks` made of a file is put together to the file by the manager that it left,
-- with the chunks in any order and coded or not, where the chunk size is not 0.
pub reassemble_chunks-split_into_chunks :
    (codec : Codec) (cm : ChunkManager) (input : List ℕ) (file_id : Text) (chunks : List Chunk)
    → 0 < cm.chunk_size
    → Permᴰ chunks (split_into_chunks codec cm input file_id).0
    → reassemble_chunks codec (split_into_chunks codec cm input file_id).1 chunks ≡ ok input
unfolding split_into_chunks
reassemble_chunks-split_into_chunks codec cm input file_id chunks pos perm =
    reassemble_chunks-split_loop codec (resized codec cm (length input)) chunks (length input)
      file_id input (resized-positive codec cm (length input) pos) (omega arith) perm

split_loop-verify_chunk :
    (codec : Codec) (cm : ChunkManager) (fuel : ℕ) (file_id : Text) (index : ℕ) (input : List ℕ)
    → All
        (λ c.
          (verify_chunk codec c ≡ true)
          × (c.original_size ≤ cm.chunk_size)
          × (c.size ≤ c.original_size))
        (split_loop codec fuel cm file_id index input)
unfolding split_loop verify_chunk make_chunk
split_loop-verify_chunk codec cm zero file_id index input = tt
split_loop-verify_chunk codec cm (suc fuel) file_id index [] = tt
split_loop-verify_chunk codec cm (suc fuel) file_id index (c ∷ input) = (
  (
    (same_iff _ _).1 refl,
    length-take-le cm.chunk_size (c ∷ input),
    length-pack-le codec cm.enable_compression (take cm.chunk_size (c ∷ input)),
  ),
  split_loop-verify_chunk codec cm fuel file_id (index + 1) (drop cm.chunk_size (c ∷ input)),
)

-- Every chunk that `split_into_chunks` makes passes `verify_chunk`, holds a piece no longer than the
-- chunk size then in force, and its content is no longer than the piece.
verify_chunk-split_into_chunks :
    (codec : Codec) (cm : ChunkManager) (input : List ℕ) (file_id : Text)
    → let split = split_into_chunks codec cm input file_id in
      All
        (λ c.
          (verify_chunk codec c ≡ true)
          × (c.original_size ≤ split.1.chunk_size)
          × (c.size ≤ c.original_size))
        split.0
unfolding split_into_chunks
verify_chunk-split_into_chunks codec cm input file_id =
    split_loop-verify_chunk codec (resized codec cm (length input)) (length input) file_id 0 input

-- The manager after it has cut these files, one after the other.
unfoldable pub manager_after : Codec → ChunkManager → List (List ℕ × Text) → ChunkManager
unfolding split_into_chunks
manager_after codec cm [] = cm
manager_after codec cm ((input, file_id) ∷ files) =
    manager_after codec (split_into_chunks codec cm input file_id).1 files

-- A size other than the default stays.
manager_after_kept :
    (codec : Codec) (cm : ChunkManager) (files : List (List ℕ × Text))
    → cm.chunk_size ≡ small_chunk_size
    → (manager_after codec cm files).chunk_size ≡ small_chunk_size
unfolding manager_after split_into_chunks
manager_after_kept codec cm [] h = h
manager_after_kept codec cm ((input, file_id) ∷ files) h =
    manager_after_kept codec (split_into_chunks codec cm input file_id).1 files (ground (arith, h))

length-drop : (n : ℕ) (xs : List ℕ) → length xs ≤ n + length (drop n xs)
unfolding drop
length-drop zero xs = omega arith
length-drop (suc n) [] = omega arith
length-drop (suc n) (x ∷ xs) = omega (arith, length-drop n xs)

length-drop-le : (n : ℕ) (xs : List ℕ) → 0 < n → length (drop n xs) ≤ length xs - 1
unfolding drop
length-drop-le zero xs h = absurd (omega arith)
length-drop-le (suc n) [] h = omega arith
length-drop-le (suc zero) (x ∷ xs) h = omega arith
length-drop-le (suc (suc n)) (x ∷ xs) h = omega (arith, length-drop-le (suc n) xs)

-- The chunks are enough for the input.
length-split_loop :
    (codec : Codec) (cm : ChunkManager) (fuel : ℕ) (file_id : Text) (index : ℕ) (input : List ℕ)
    → 0 < cm.chunk_size
    → length input ≤ fuel
    → length input ≤ cm.chunk_size * length (split_loop codec fuel cm file_id index input)
unfolding split_loop
length-split_loop codec cm zero file_id index input pos enough = omega arith
length-split_loop codec cm (suc fuel) file_id index [] pos enough = omega arith
length-split_loop codec cm (suc fuel) file_id index (c ∷ input) pos enough = grind (
  arith,
  length-split_loop codec cm fuel file_id (index + 1) (drop cm.chunk_size (c ∷ input)) pos
      (omega (arith, length-drop-le cm.chunk_size (c ∷ input) pos)),
  length-drop cm.chunk_size (c ∷ input),
)

All-small :
    (codec : Codec) (size : ℕ) (chunks : List Chunk)
    → size ≡ small_chunk_size
    → All
        (λ c. (verify_chunk codec c ≡ true) × (c.original_size ≤ size) × (c.size ≤ c.original_size))
        chunks
    → All (λ c. c.original_size ≤ 65536) chunks
All-small codec size [] e h = tt
All-small codec size (c ∷ chunks) e (h, hs) =
    (omega (arith, h.1, e), All-small codec size chunks e hs)

-- The manager of the default size whose first file has less than 1 MB cuts every later file, whatever
-- files come in between, into pieces of at most 64 KB, at least one for every 64 KB of the file.
pub split_into_chunks_small_first :
    (codec : Codec) (small : List ℕ) (file_id : Text) (between : List (List ℕ × Text))
    (large : List ℕ) (other_id : Text)
    → length small < 1048576
    → let cm = manager_after codec new_chunk_manager ((small, file_id) ∷ between) in
      let chunks = (split_into_chunks codec cm large other_id).0 in
      All (λ c. c.original_size ≤ 65536) chunks × (length large ≤ 65536 * length chunks)
unfolding manager_after split_into_chunks get_optimal_chunk_size
split_into_chunks_small_first codec small file_id between large other_id less =
    let first = resized codec new_chunk_manager (length small) in
    let cm = manager_after codec first between in
    let kept : cm.chunk_size ≡ small_chunk_size =
      manager_after_kept codec first between (ground (arith, less)) in
    let stays : (resized codec cm (length large)).chunk_size ≡ small_chunk_size =
      ground (arith, kept) in
    (
      All-small codec (resized codec cm (length large)).chunk_size
          (split_loop codec (length large) (resized codec cm (length large)) other_id 0 large) stays
          (split_loop-verify_chunk codec (resized codec cm (length large)) (length large) other_id 0
            large),
      grind (
        arith,
        stays,
        length-split_loop codec (resized codec cm (length large)) (length large) other_id 0 large
            (omega (arith, stays)) (omega arith),
      ),
    )
