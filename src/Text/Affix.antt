-- ===== src/Text/Affix.antt =====
-- Prefixes and suffixes: the tests find the rest of the text.
use mathlib.Core.List.{reverse, reverse-append, reverse-reverse}
use collective.Prelude.{◌≡◌, refl, sym, ap, ◌∙◌, true, [], ◌∷◌, ◌++◌, arith, ==_iff}
use collective.Text.{Text, has_prefix, has_suffix}

pub has_prefix-append : (t rest : Text) → has_prefix (t ++ rest) t ≡ true
unfolding has_prefix
has_prefix-append [] rest = refl
has_prefix-append (c ∷ t) rest = ground (arith, has_prefix-append t rest)

pub has_prefix-eq-append : (s t : Text) → has_prefix s t ≡ true → (rest : Text) × (s ≡ t ++ rest)
unfolding has_prefix
has_prefix-eq-append s [] h = (s, refl)
has_prefix-eq-append [] (p ∷ t) h = absurd (cc)
has_prefix-eq-append (c ∷ s) (p ∷ t) h =
    let (rest, e) = has_prefix-eq-append s t (ground arith) in (rest, ground (arith, ==_iff c p, e))

pub has_suffix-append : (pre t : Text) → has_suffix (pre ++ t) t ≡ true
unfolding has_suffix
has_suffix-append pre t = rw (reverse-append pre t) (has_prefix-append (reverse t) (reverse pre))

pub has_suffix-eq-append : (s t : Text) → has_suffix s t ≡ true → (pre : Text) × (s ≡ pre ++ t)
unfolding has_suffix
has_suffix-eq-append s t h =
    let (rest, e) = has_prefix-eq-append (reverse s) (reverse t) h in
    (
      reverse rest,
      sym (reverse-reverse s)
          ∙ ap reverse e
          ∙ reverse-append (reverse t) rest
          ∙ ap (λ u. reverse rest ++ u) (reverse-reverse t),
    )
