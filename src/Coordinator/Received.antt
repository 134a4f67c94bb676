-- ===== src/Coordinator/Received.antt =====
-- pkg/coordinator/coordinator_storage.go: the index of a chunk is read back from its id.
use collective.Prelude.{
  ℕ, zero, suc, ◌+◌, ◌/◌, ◌%◌, ◌^◌, ◌≤◌, ◌<◌, ◌≡◌, refl, ap, ◌∙◌, true, some, List, [], ◌∷◌, ◌++◌,
  arith, ltb, leb, ◌==◌, length, take, Bool-cases, inl, inr,
}
use collective.Text.{Text}
use collective.Text.Split.{split, Free, split-Free, split-append}
use collective.Storage.{Codec, ChunkManager, make_chunk, safe_file_id, decimal, digits, hex}
use collective.Coordinator.Contents.{index_part, chunk_index, atoi, read_digits, in_range}

-- The digits of a number are read as the number.
read_digits-digits :
    (fuel n : ℕ) (out : Text) → n < fuel → read_digits 0 (digits fuel n out) ≡ read_digits n out
unfolding digits read_digits
read_digits-digits zero n out h = absurd (omega arith)
read_digits-digits (suc fuel) n out h = elim (Bool-cases (ltb n 10)) [
  | inl e ↦ ground (arith, e)
  | inr e ↦
      let big : leb 10 n ≡ true = ground (arith, e) in
      let smaller : n / 10 < fuel = grind (arith, e, big) in
      rw e (read_digits-digits fuel (n / 10) ((b'0' + n % 10) ∷ out) smaller ∙ ground (arith, e))
]

-- The digits of a number hold no byte below them.
digits-Free :
    (sep fuel n : ℕ) (out : Text) → sep < b'0' → Free sep out → Free sep (digits fuel n out)
unfolding digits
digits-Free sep zero n out low h = h
digits-Free sep (suc fuel) n out low h = elim (Bool-cases (ltb n 10)) [
  | inl e ↦ rw e (ground (arith, e), h)
  | inr e ↦ rw e (digits-Free sep fuel (n / 10) ((b'0' + n % 10) ∷ out) low (ground (arith, e), h))
]

digits_more : (fuel n : ℕ) (out : Text) → length out ≤ length (digits fuel n out)
unfolding digits
digits_more zero n out = omega arith
digits_more (suc fuel) n out = ground (arith, digits_more fuel (n / 10) ((b'0' + n % 10) ∷ out))

length-decimal : (n : ℕ) → 0 < length (decimal n)
unfolding decimal digits
length-decimal n = ground (arith, digits_more n (n / 10) ((b'0' + n % 10) ∷ []))

atoi_unsigned :
    (s : Text) (n : ℕ)
    → 0 < length s
    → Free b'+' s
    → read_digits 0 s ≡ some n
    → n < 2 ^ 63
    → atoi s ≡ some n
unfolding atoi in_range
atoi_unsigned [] n h f e small = absurd (omega arith)
atoi_unsigned (c ∷ s) n h f e small = rw (f.0, e) (ground arith)

atoi-decimal : (n : ℕ) → n < 2 ^ 63 → atoi (decimal n) ≡ some n
unfolding decimal read_digits
atoi-decimal n small =
    atoi_unsigned (decimal n) n (length-decimal n) (digits-Free b'+' (suc n) n [] (omega arith) tt)
      (read_digits-digits (suc n) n [] (omega arith)) small

hex-Free : (bs : List ℕ) → Free b'-' (hex bs)
unfolding hex
hex-Free [] = tt
hex-Free (b ∷ bs) = (ground arith, (ground arith, hex-Free bs))

-- Three parts or more, whose last but one is the given one.
abbrev Ends : Text → List Text → Type 0
Ends part parts =
    (p q r : Text) × (ps : List Text) × (parts ≡ p ∷ q ∷ r ∷ ps)
    × (index_part (p ∷ q ∷ r ∷ ps) ≡ some part)

index_part_head :
    (p p' q r : Text) (ps : List Text) → index_part (p ∷ q ∷ r ∷ ps) ≡ index_part (p' ∷ q ∷ r ∷ ps)
unfolding index_part
index_part_head p p' q r [] = refl
index_part_head p p' q r (s ∷ ps) = refl

split-Ends :
    (s t part last : Text)
    → split b'-' t ≡ part ∷ last ∷ []
    → Ends part (split b'-' (s ++ (b'-' ∷ t)))
unfolding split index_part
split-Ends [] t part last h = ([], part, last, [], ap (λ ps. [] ∷ ps) h, refl)
split-Ends (c ∷ s) t part last h =
    let (p, q, r, ps, e, f) = split-Ends s t part last h in
    elim (Bool-cases (c == b'-')) [
      | inl d ↦ rw (d, e) ([], p, q, r ∷ ps, refl, f)
      | inr d ↦ rw (d, e) (c ∷ p, q, r, ps, refl, index_part_head (c ∷ p) p q r ps ∙ f)
    ]

pub chunk_index-id :
    (codec : Codec) (cm : ChunkManager) (file_id : Text) (index : ℕ) (piece : List ℕ)
    → index < 2 ^ 63
    → chunk_index (make_chunk codec cm file_id index piece).id ≡ index
unfolding make_chunk chunk_index
chunk_index-id codec cm file_id index piece small =
    let hash = hex (take 8 (codec.sha256 (make_chunk codec cm file_id index piece).content)) in
    let (p, q, r, ps, e, f) =
      split-Ends (safe_file_id file_id) (decimal index ++ (b'-' ∷ hash)) (decimal index) hash (
        split-append b'-' (decimal index) hash
          (unfold decimal in digits-Free b'-' (suc index) index [] (omega arith) tt)
        ∙ ap (λ ps. decimal index ∷ ps) (split-Free b'-' hash (hex-Free _))) in
    rw (chunk_index, e, f, atoi-decimal index small) refl
