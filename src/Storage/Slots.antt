-- ===== src/Storage/Slots.antt =====
-- Chunks find their slots in whatever order they come.
use mathlib.Core.List.{Permᴰ}
use collective.Prelude.{
  ℕ, zero, suc, ◌+◌, ◌<◌, ◌≡◌, ◌≢◌, refl, sym, ap, ◌∙◌, subst, false, List, [], ◌∷◌, ◌++◌, arith,
  if◌then◌else◌, leb, length, any, ok, err, All,
}
use collective.Address.{is_empty}
use collective.Storage.{Chunk, invalid_index}
use collective.Storage.Assembly.{blank_chunk, blanks, put_at, place_all}

-- No two chunks have one index.
unfoldable pub Apart : List Chunk → Type 0
Apart [] = Unit
Apart (c ∷ cs) = All (λ d. d.index ≢ c.index) cs × Apart cs

-- The indices count from k on.
unfoldable pub Consecutive : ℕ → List Chunk → Type 0
Consecutive k [] = Unit
Consecutive k (c ∷ cs) = (c.index ≡ k) × Consecutive (k + 1) cs

abbrev Differs : Chunk → Chunk → Type 0
Differs c d = d.index ≢ c.index

pub All-Perm : (P : Chunk → Type 0) {xs ys : List Chunk} → Permᴰ xs ys → All P xs → All P ys
All-Perm P Permᴰ.nil h = h
All-Perm P (Permᴰ.cons e d) (p, h) = (subst P e p, All-Perm P d h)
All-Perm P (Permᴰ.swap e f) (p, (q, h)) = (subst P f q, (subst P e p, h))
All-Perm P (Permᴰ.trans d e) h = All-Perm P e (All-Perm P d h)

Apart-Perm : {xs ys : List Chunk} → Permᴰ xs ys → Apart xs → Apart ys
unfolding Apart
Apart-Perm Permᴰ.nil h = h
Apart-Perm (Permᴰ.cons {a = a} {b = b} {l₁ = l₁} {l₂ = l₂} e d) (p, h) =
    (subst (λ (c : Chunk). All (Differs c) l₂) e (All-Perm (Differs a) d p), Apart-Perm d h)
Apart-Perm (Permᴰ.swap {a = a} {b = b} {a' = a'} {b' = b'} {l = l} e f) ((p, q), (r, h)) = (
  (
    λ (x : b'.index ≡ a'.index).
        p (ap (λ (c : Chunk). c.index) f ∙ sym x ∙ sym (ap (λ (c : Chunk). c.index) e)),
    subst (λ (c : Chunk). All (Differs c) l) f r,
  ),
  (subst (λ (c : Chunk). All (Differs c) l) e q, h),
)
Apart-Perm (Permᴰ.trans d e) h = Apart-Perm e (Apart-Perm d h)

put_at-swapped :
    (slots : List Chunk) (i j : ℕ) (c d : Chunk)
    → i ≢ j
    → put_at (put_at slots i c) j d ≡ put_at (put_at slots j d) i c
unfolding put_at
put_at-swapped [] i j c d h = refl
put_at-swapped (s ∷ slots) zero zero c d h = absurd (h refl)
put_at-swapped (s ∷ slots) zero (suc j) c d h = refl
put_at-swapped (s ∷ slots) (suc i) zero c d h = refl
put_at-swapped (s ∷ slots) (suc i) (suc j) c d h =
    ap (λ t. s ∷ t) (put_at-swapped slots i j c d (λ e. h (ap suc e)))

place_all-cons :
    (n : ℕ) (c : Chunk) (xs ys : List Chunk) (slots : List Chunk)
    → ((s : List Chunk) → place_all n xs s ≡ place_all n ys s)
    → place_all n (c ∷ xs) slots ≡ place_all n (c ∷ ys) slots
unfolding place_all
place_all-cons n c xs ys slots h =
    ap (λ r. if leb n c.index then err invalid_index else r) (h (put_at slots c.index c))

place_all_swapped :
    (n : ℕ) (c d : Chunk) (xs slots : List Chunk)
    → d.index ≢ c.index
    → place_all n (c ∷ d ∷ xs) slots ≡ place_all n (d ∷ c ∷ xs) slots
unfolding place_all
place_all_swapped n c d xs slots h =
    ground (arith, ap (place_all n xs) (put_at-swapped slots d.index c.index d c h))

-- Chunks with different indices fill the slots alike in any order.
pub place_all-Perm :
    {xs ys : List Chunk}
    → Permᴰ xs ys
    → Apart xs
    → (n : ℕ) (slots : List Chunk) → place_all n xs slots ≡ place_all n ys slots
unfolding Apart
place_all-Perm Permᴰ.nil h n slots = refl
place_all-Perm (Permᴰ.cons {a = a} {b = b} {l₁ = l₁} {l₂ = l₂} e d) (p, h) n slots =
    place_all-cons n a l₁ l₂ slots (place_all-Perm d h n) ∙ ap (λ c. place_all n (c ∷ l₂) slots) e
place_all-Perm (Permᴰ.swap {a = a} {b = b} {a' = a'} {b' = b'} {l = l} e f) ((p, q), (r, h)) n
      slots =
    place_all_swapped n a b l slots p
    ∙ ap (λ c. place_all n (c ∷ a ∷ l) slots) f
    ∙ ap (λ c. place_all n (a' ∷ c ∷ l) slots) e
place_all-Perm (Permᴰ.trans d e) h n slots =
    place_all-Perm d h n slots ∙ place_all-Perm e (Apart-Perm d h) n slots

pub length-Perm : {xs ys : List Chunk} → Permᴰ xs ys → length xs ≡ length ys
length-Perm Permᴰ.nil = refl
length-Perm (Permᴰ.cons e d) = ap suc (length-Perm d)
length-Perm (Permᴰ.swap e f) = refl
length-Perm (Permᴰ.trans d e) = length-Perm d ∙ length-Perm e

pub blanks-Perm : {xs ys : List Chunk} → Permᴰ xs ys → blanks xs ≡ blanks ys
unfolding blanks
blanks-Perm Permᴰ.nil = refl
blanks-Perm (Permᴰ.cons e d) = ap (λ t. blank_chunk ∷ t) (blanks-Perm d)
blanks-Perm (Permᴰ.swap e f) = refl
blanks-Perm (Permᴰ.trans d e) = blanks-Perm d ∙ blanks-Perm e

beyond : (k m : ℕ) (cs : List Chunk) → Consecutive k cs → m < k → All (λ d. d.index ≢ m) cs
unfolding Consecutive
beyond k m [] h less = tt
beyond k m (c ∷ cs) (e, h) less = (λ f. omega arith, beyond (k + 1) m cs h (omega arith))

pub Consecutive-Apart : (k : ℕ) (cs : List Chunk) → Consecutive k cs → Apart cs
unfolding Consecutive Apart
Consecutive-Apart k [] h = tt
Consecutive-Apart k (c ∷ cs) (e, h) =
    (beyond (k + 1) c.index cs h (omega arith), Consecutive-Apart (k + 1) cs h)

put_at-append :
    (front : List Chunk) (slot : Chunk) (slots : List Chunk) (c : Chunk)
    → put_at (front ++ (slot ∷ slots)) (length front) c ≡ (front ++ (c ∷ [])) ++ slots
unfolding put_at
put_at-append [] slot slots c = refl
put_at-append (x ∷ front) slot slots c = ap (λ t. x ∷ t) (put_at-append front slot slots c)

append_one :
    (front : List Chunk) (c : Chunk) (cs : List Chunk)
    → (front ++ (c ∷ [])) ++ cs ≡ front ++ (c ∷ cs)
append_one [] c cs = refl
append_one (x ∷ front) c cs = ap (λ t. x ∷ t) (append_one front c cs)

length-append_one : (front : List Chunk) (c : Chunk) → length (front ++ (c ∷ [])) ≡ length front + 1
length-append_one [] c = refl
length-append_one (x ∷ front) c = ground (arith, length-append_one front c)

place_all_into :
    (n : ℕ) (c : Chunk) (cs slots filled out : List Chunk)
    → c.index < n
    → put_at slots c.index c ≡ filled
    → place_all n cs filled ≡ ok out
    → place_all n (c ∷ cs) slots ≡ ok out
unfolding place_all
place_all_into n c cs slots filled out h e f = ground (arith, ap (place_all n cs) e)

-- Consecutive chunks fill the slots after those that are filled.
pub place_all_in_order :
    (cs front : List Chunk) (n : ℕ)
    → Consecutive (length front) cs
    → n ≡ length front + length cs
    → place_all n cs (front ++ blanks cs) ≡ ok (front ++ cs)
unfolding Consecutive
place_all_in_order [] front n h e = unfold place_all in (unfold blanks in refl)
place_all_in_order (c ∷ cs) front n (i, h) e =
    place_all_into n c cs (front ++ blanks (c ∷ cs)) ((front ++ (c ∷ [])) ++ blanks cs)
      (front ++ (c ∷ cs)) (omega arith)
      (ap (λ k. put_at (front ++ blanks (c ∷ cs)) k c) i
        ∙ unfold blanks in put_at-append front blank_chunk (blanks cs) c)
      (place_all_in_order cs (front ++ (c ∷ [])) n
          (subst (λ (k : ℕ). Consecutive k cs) (sym (length-append_one front c)) h)
          (omega (arith, length-append_one front c))
        ∙ ap ok (append_one front c cs))

pub none_empty :
    (cs : List Chunk) → All (λ c. is_empty c.id ≡ false) cs → any (λ c. is_empty c.id) cs ≡ false
none_empty [] h = refl
none_empty (c ∷ cs) (p, h) = ground (arith, p, none_empty cs h)
