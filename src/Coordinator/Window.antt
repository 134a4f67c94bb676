-- ===== src/Coordinator/Window.antt =====
-- pkg/coordinator/coordinator_file.go: the bytes that a read of a part of a file gives.
use collective.Prelude.{
  ℕ, zero, suc, ◌+◌, ◌≤◌, ◌≡◌, refl, sym, ap, ◌∙◌, Bool-cases, inl, inr, ◌&&◌, ◌||◌, none, List, [],
  ◌∷◌, arith, length, ltb, leb, ◌==◌, take, get_elem?, if◌then◌else◌,
}
use collective.Storage.{drop}
use collective.Coordinator.Contents.{window, up_to}

get_elem?_beyond : (xs : List ℕ) (i : ℕ) → length xs ≤ i → get_elem? xs i ≡ none
get_elem?_beyond [] i h = refl
get_elem?_beyond (x ∷ xs) zero h = absurd (omega arith)
get_elem?_beyond (x ∷ xs) (suc i) h = get_elem?_beyond xs i (omega arith)

get_elem?-take :
    (n : ℕ) (xs : List ℕ) (i : ℕ)
    → get_elem? (take n xs) i ≡ (if ltb i n then get_elem? xs i else none)
get_elem?-take zero xs i = ground arith
get_elem?-take (suc n) [] i = ground arith
get_elem?-take (suc n) (x ∷ xs) zero = ground arith
get_elem?-take (suc n) (x ∷ xs) (suc i) = ground (arith, get_elem?-take n xs i)

get_elem?-drop : (n : ℕ) (xs : List ℕ) (i : ℕ) → get_elem? (drop n xs) i ≡ get_elem? xs (n + i)
unfolding drop
get_elem?-drop zero xs i = ap (get_elem? xs) (omega arith)
get_elem?-drop (suc n) [] i = refl
get_elem?-drop (suc n) (x ∷ xs) i =
    let e : suc n + i ≡ suc (n + i) = omega arith in
    get_elem?-drop n xs i ∙ sym (ap (get_elem? (x ∷ xs)) e)

get_elem?-up_to :
    (limit : ℕ) (xs : List ℕ) (i : ℕ)
    → get_elem? (up_to limit xs) i ≡ (if (limit == 0) || ltb i limit then get_elem? xs i else none)
get_elem?-up_to limit xs i = elim (Bool-cases (ltb 0 limit && ltb limit (length xs))) [
  | inl e ↦ rw e (ground (arith, get_elem?-take limit xs i))
  | inr e ↦ rw e (ground (arith, get_elem?_beyond xs i))
]

-- The i-th byte of what a read gives.
pub get_elem?-window :
    (offset limit : ℕ) (content : List ℕ) (i : ℕ)
    → get_elem? (window offset limit content) i
      ≡ (if (limit == 0) || ltb i limit then get_elem? content (offset + i) else none)
unfolding window
get_elem?-window offset limit content i = elim (Bool-cases (ltb 0 offset)) [
  | inr e ↦
      let z : 0 + i ≡ offset + i = ground (arith, e) in
      rw (window, e) (ground (arith, get_elem?-up_to limit content i, ap (get_elem? content) z))
  | inl e ↦ elim (Bool-cases (leb (length content) offset)) [
    | inl f ↦ rw (window, e, f) (ground (arith, get_elem?_beyond content (offset + i)))
    | inr f ↦
        rw (window, e, f)
          (ground
            (arith, get_elem?-up_to limit (drop offset content) i, get_elem?-drop offset content i))
  ]
]
