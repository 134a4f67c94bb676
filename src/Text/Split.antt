-- ===== src/Text/Split.antt =====
-- strings.Split at a separator of one byte, and its inverse.
use collective.Prelude.{
  ℕ, ◌≡◌, ◌≢◌, refl, false, List, [], ◌∷◌, ◌++◌, arith, ◌==◌, if◌then◌else◌, All,
}

-- The separator does not stand in the text.
abbrev pub Free : ℕ → List ℕ → Type 0
Free sep [] = Unit
Free sep (c ∷ s) = ((c == sep) ≡ false) × Free sep s

abbrev push_head : ℕ → List (List ℕ) → List (List ℕ)
push_head c [] = (c ∷ []) ∷ []
push_head c (p ∷ ps) = (c ∷ p) ∷ ps

unfoldable pub split : ℕ → List ℕ → List (List ℕ)
split sep [] = [] ∷ []
split sep (c ∷ s) = let rest = split sep s in if c == sep then [] ∷ rest else push_head c rest

unfoldable pub join : ℕ → List (List ℕ) → List ℕ
join sep [] = []
join sep (p ∷ []) = p
join sep (p ∷ q ∷ ps) = p ++ (sep ∷ join sep (q ∷ ps))

pub split-Free : (sep : ℕ) (s : List ℕ) → Free sep s → split sep s ≡ s ∷ []
unfolding split
split-Free sep [] h = refl
split-Free sep (c ∷ s) h = ground (arith, split-Free sep s h.1)

pub split-append :
    (sep : ℕ) (s t : List ℕ) → Free sep s → split sep (s ++ (sep ∷ t)) ≡ s ∷ split sep t
unfolding split
split-append sep [] t h = ground arith
split-append sep (c ∷ s) t h = ground (arith, split-append sep s t h.1)

-- No part holds the separator.
pub split-All-Free : (sep : ℕ) (s : List ℕ) → All (Free sep) (split sep s)
unfolding split
split-All-Free sep [] = (tt, tt)
split-All-Free sep (c ∷ s) = ground (arith, split-All-Free sep s)

join-push_head : (sep c : ℕ) (ps : List (List ℕ)) → join sep (push_head c ps) ≡ c ∷ join sep ps
unfolding join
join-push_head sep c [] = refl
join-push_head sep c (p ∷ []) = refl
join-push_head sep c (p ∷ q ∷ ps) = refl

push_head-ne-nil : (c : ℕ) (ps : List (List ℕ)) → push_head c ps ≢ []
push_head-ne-nil c [] e = cc
push_head-ne-nil c (p ∷ ps) e = cc

split-ne-nil : (sep : ℕ) (s : List ℕ) → split sep s ≢ []
unfolding split
split-ne-nil sep [] e = cc
split-ne-nil sep (c ∷ s) e = ground (arith, push_head-ne-nil c (split sep s))

join-nil_head : (sep : ℕ) (ps : List (List ℕ)) → ps ≢ [] → join sep ([] ∷ ps) ≡ sep ∷ join sep ps
unfolding join
join-nil_head sep [] h = absurd (h refl)
join-nil_head sep (p ∷ ps) h = refl

pub join-split : (sep : ℕ) (s : List ℕ) → join sep (split sep s) ≡ s
unfolding split
join-split sep [] = unfold join in refl
join-split sep (c ∷ s) = ground (
  arith,
  join-split sep s,
  join-push_head sep c (split sep s),
  join-nil_head sep (split sep s),
  split-ne-nil sep s,
)
