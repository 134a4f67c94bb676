-- ===== src/FilePath/Normal.antt =====
-- Cleaned paths: which stacks of parts Clean leaves, that it changes nothing on them, and that Dir
-- takes the last part away.
use mathlib.Core.List.{reverse, foldl-append, reverse-cons}
use collective.Prelude.{
  ◌≡◌, ◌≢◌, refl, Bool, true, false, Bool-cases, inl, inr, List, [], ◌∷◌, arith, All,
}
use collective.Text.{Text, same, same_iff}
use collective.Text.Split.{split, Free, split-All-Free}
use collective.FilePath.{slash, dot, dotdot, is_abs, back_up, clean_step, clean_parts, stack_of}

-- A part that Clean keeps: not empty, not a dot, no slash in it.
pub record IsPart (p : Text) : Type 0 where
  pub nonempty : p ≢ []
  pub no_dot : same p dot ≡ false
  pub free : Free slash p

-- `..` stands only at the front of a path that is not rooted, that is at the bottom of the stack.
abbrev pub Dotdots : List Text → Type 0
Dotdots [] = Unit
Dotdots (p ∷ st) = (same p dotdot ≡ true) × Dotdots st

abbrev pub IsNormal : Bool → List Text → Type 0
IsNormal rooted [] = Unit
IsNormal rooted (p ∷ st) =
    IsPart p × ((same p dotdot ≡ true) → (rooted ≡ false) × Dotdots st) × IsNormal rooted st

Dotdots-IsNormal :
    (rooted : Bool) (p : Text) (st : List Text)
    → IsNormal rooted (p ∷ st)
    → same p dotdot ≡ true
    → Dotdots (p ∷ st)
Dotdots-IsNormal rooted p st n e = (e, (n.1 e).1)

dotdot-IsPart : IsPart dotdot
unfolding same
dotdot-IsPart = record { nonempty = λ e. cc; no_dot = refl; free = (refl, (refl, tt)) }

back_up-IsNormal :
    (rooted : Bool) (st : List Text) → IsNormal rooted st → IsNormal rooted (back_up rooted st)
unfolding back_up
back_up-IsNormal true [] n = tt
back_up-IsNormal false [] n = (dotdot-IsPart, (λ e. (refl, tt)), tt)
back_up-IsNormal true (p ∷ st) n = elim (Bool-cases (same p dotdot)) [
  | inl e ↦ cc ((n.1 e).0)
  | inr e ↦ rw e (n.2)
]
back_up-IsNormal false (p ∷ st) n = elim (Bool-cases (same p dotdot)) [
  | inl e ↦ rw e (dotdot-IsPart, (λ d. (refl, Dotdots-IsNormal false p st n e)), n)
  | inr e ↦ rw e (n.2)
]

clean_step-IsNormal :
    (rooted : Bool) (st : List Text) (p : Text)
    → Free slash p
    → IsNormal rooted st
    → IsNormal rooted (clean_step rooted st p)
unfolding clean_step
clean_step-IsNormal rooted st [] f n = n
clean_step-IsNormal rooted st (c ∷ p) f n = elim (Bool-cases (same (c ∷ p) dot)) [
  | inl e ↦ rw e n
  | inr e ↦ rw e (elim (Bool-cases (same (c ∷ p) dotdot)) [
    | inl d ↦ rw d (back_up-IsNormal rooted st n)
    | inr d ↦ rw d (record { nonempty = λ q. cc; no_dot = e; free = f }, (λ q. absurd (cc)), n)
  ])
]

-- Clean's stack is normal.
clean_parts-IsNormal :
    (rooted : Bool) (st parts : List Text)
    → All (Free slash) parts
    → IsNormal rooted st
    → IsNormal rooted (clean_parts rooted st parts)
unfolding clean_parts
clean_parts-IsNormal rooted st [] f n = n
clean_parts-IsNormal rooted st (p ∷ parts) f n =
    clean_parts-IsNormal rooted (clean_step rooted st p) parts f.1
      (clean_step-IsNormal rooted st p f.0 n)

back_up_push :
    (rooted : Bool) (p : Text) (st : List Text)
    → IsNormal rooted (p ∷ st)
    → same p dotdot ≡ true
    → back_up rooted st ≡ p ∷ st
unfolding back_up
back_up_push rooted p [] n e = ground (arith, same_iff p dotdot, (n.1 e).0)
back_up_push rooted p (q ∷ st) n e = ground (arith, same_iff p dotdot, (n.1 e).0, (n.1 e).1.0)

-- A part that is kept goes on top.
clean_step_push :
    (rooted : Bool) (p : Text) (st : List Text)
    → IsNormal rooted (p ∷ st)
    → clean_step rooted st p ≡ p ∷ st
unfolding clean_step
clean_step_push rooted [] st n = absurd (n.0.nonempty refl)
clean_step_push rooted (c ∷ p) st n = elim (Bool-cases (same (c ∷ p) dotdot)) [
  | inl e ↦ rw (n.0.no_dot, e) (back_up_push rooted (c ∷ p) st n e)
  | inr e ↦ rw (n.0.no_dot, e)
]

-- Cleaning the parts of a normal stack rebuilds it.
pub clean_parts-reverse :
    (rooted : Bool) (st : List Text) → IsNormal rooted st → clean_parts rooted [] (reverse st) ≡ st
unfolding clean_parts
clean_parts-reverse rooted [] n = refl
clean_parts-reverse rooted (p ∷ st) n =
    rw (reverse-cons p st, foldl-append (clean_step rooted) [] (reverse st) (p ∷ []))
      (rw (clean_parts-reverse rooted st n.2) (clean_step_push rooted p st n))

pub stack_of-IsNormal : (p : Text) → IsNormal (is_abs p) (stack_of p)
unfolding stack_of
stack_of-IsNormal p = clean_parts-IsNormal (is_abs p) [] (split slash p) (split-All-Free slash p) tt
