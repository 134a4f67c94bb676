-- ===== src/FilePath/Parent.antt =====
-- The text of a normal stack reads back as that stack, so Clean is idempotent, and Dir of a cleaned
-- path is the text of the stack without its top.
use mathlib.Core.List.{reverse, foldl-append, reverse-cons, append_assoc, append-nil}
use collective.Prelude.{
  ◌≡◌, ◌≢◌, refl, sym, ap, ◌∙◌, Bool, true, false, List, [], ◌∷◌, ◌++◌, arith, All,
}
use collective.Text.{Text, same, has_prefix, contains}
use collective.Text.Split.{split, join, Free, split-append, split-Free}
use collective.FilePath.{
  slash, is_abs, clean_step, clean_parts, render, stack_of, clean, up_to_slash, dir,
}
use collective.FilePath.Normal.{IsPart, IsNormal, clean_parts-reverse, stack_of-IsNormal}

-- One more part at the end.
join-snoc :
    (q : Text) (qs : List Text) (p : Text)
    → join slash ((q ∷ qs) ++ (p ∷ [])) ≡ join slash (q ∷ qs) ++ (slash ∷ p)
unfolding join
join-snoc q [] p = refl
join-snoc q (r ∷ qs) p =
    rw (append_assoc q (slash ∷ join slash (r ∷ qs)) (slash ∷ p))
      (ap (λ t. q ++ (slash ∷ t)) (join-snoc r qs p))

-- Splitting what was joined.
split-join-append :
    (q : Text) (qs : List Text) (t : Text)
    → All (Free slash) (q ∷ qs)
    → split slash (join slash (q ∷ qs) ++ (slash ∷ t)) ≡ (q ∷ qs) ++ split slash t
unfolding join
split-join-append q [] t f = split-append slash q t f.0
split-join-append q (r ∷ qs) t f = rw (append_assoc q (slash ∷ join slash (r ∷ qs)) (slash ∷ t)) (
    split-append slash q (join slash (r ∷ qs) ++ (slash ∷ t)) f.0
    ∙ ap (λ ps. q ∷ ps) (split-join-append r qs t f.1))

split-join :
    (q : Text) (qs : List Text)
    → All (Free slash) (q ∷ qs)
    → split slash (join slash (q ∷ qs)) ≡ q ∷ qs
unfolding join
split-join q [] f = split-Free slash q f.0
split-join q (r ∷ qs) f =
    split-append slash q (join slash (r ∷ qs)) f.0 ∙ ap (λ ps. q ∷ ps) (split-join r qs f.1)

All-append : (P : Text → Type 0) (ps qs : List Text) → All P ps → All P qs → All P (ps ++ qs)
All-append P [] qs h k = k
All-append P (p ∷ ps) qs h k = (h.0, All-append P ps qs h.1 k)

pub IsNormal-All-reverse :
    (rooted : Bool) (st : List Text) → IsNormal rooted st → All IsPart (reverse st)
IsNormal-All-reverse rooted [] n = tt
IsNormal-All-reverse rooted (p ∷ st) n =
    rw (reverse-cons p st)
      (All-append IsPart (reverse st) (p ∷ []) (IsNormal-All-reverse rooted st n.2) (n.0, tt))

All-IsPart-Free : (ps : List Text) → All IsPart ps → All (Free slash) ps
All-IsPart-Free [] h = tt
All-IsPart-Free (p ∷ ps) h = (h.0.free, All-IsPart-Free ps h.1)

-- Joined parts never begin with a slash.
is_abs-join :
    (ps : List Text) (t : Text) → All IsPart ps → ps ≢ [] → is_abs (join slash ps ++ t) ≡ false
unfolding join has_prefix
is_abs-join [] t h n = absurd (n refl)
is_abs-join ([] ∷ ps) t h n = absurd (h.0.nonempty refl)
is_abs-join ((c ∷ p) ∷ []) t h n = ground (arith, h.0.free)
is_abs-join ((c ∷ p) ∷ q ∷ ps) t h n = ground (arith, h.0.free)

-- An empty part at the end changes nothing.
clean_parts-snoc_nil :
    (rooted : Bool) (parts : List Text)
    → clean_parts rooted [] (parts ++ ([] ∷ [])) ≡ clean_parts rooted [] parts
unfolding clean_parts clean_step
clean_parts-snoc_nil rooted parts = foldl-append (clean_step rooted) [] parts ([] ∷ [])

-- The parts behind a root, with a slash at the end or not.
rooted_parts :
    (parts : List Text)
    → All IsPart parts
    → (stack_of (slash ∷ join slash parts) ≡ clean_parts true [] parts)
      × (stack_of ((slash ∷ join slash parts) ++ (slash ∷ [])) ≡ clean_parts true [] parts)
unfolding stack_of split has_prefix clean_step
rooted_parts [] h = unfold join in (refl, refl)
rooted_parts (q ∷ qs) h = (
  ap (clean_parts true []) (split-join q qs (All-IsPart-Free (q ∷ qs) h)),
  ap (clean_parts true []) (split-join-append q qs [] (All-IsPart-Free (q ∷ qs) h))
      ∙ clean_parts-snoc_nil true (q ∷ qs),
)

-- The same with no root.
relative_parts :
    (q : Text) (qs : List Text)
    → All IsPart (q ∷ qs)
    → (stack_of (join slash (q ∷ qs)) ≡ clean_parts false [] (q ∷ qs))
      × (stack_of (join slash (q ∷ qs) ++ (slash ∷ [])) ≡ clean_parts false [] (q ∷ qs))
unfolding stack_of split
relative_parts q qs h = (
  rw (← append-nil (join slash (q ∷ qs)), is_abs-join (q ∷ qs) [] h (λ e. cc), append-nil)
      (ap (clean_parts false []) (split-join q qs (All-IsPart-Free (q ∷ qs) h))),
  rw (is_abs-join (q ∷ qs) (slash ∷ []) h (λ e. cc)) (
      ap (clean_parts false []) (split-join-append q qs [] (All-IsPart-Free (q ∷ qs) h))
      ∙ clean_parts-snoc_nil false (q ∷ qs)),
)

contains-Free : (p : Text) → Free slash p → contains p slash ≡ false
unfolding contains
contains-Free [] f = refl
contains-Free (c ∷ p) f = ground (arith, contains-Free p f.1)

contains-append : (s p : Text) → contains (s ++ (slash ∷ p)) slash ≡ true
unfolding contains
contains-append [] p = refl
contains-append (c ∷ s) p = ground (arith, contains-append s p)

up_to_slash-Free : (p : Text) → Free slash p → up_to_slash p ≡ []
unfolding up_to_slash
up_to_slash-Free [] f = refl
up_to_slash-Free (c ∷ p) f = ground (arith, contains-Free p f.1)

-- What stands behind the last slash goes.
up_to_slash-append :
    (s p : Text) → Free slash p → up_to_slash (s ++ (slash ∷ p)) ≡ s ++ (slash ∷ [])
unfolding up_to_slash
up_to_slash-append [] p f = ground (arith, contains-Free p f)
up_to_slash-append (c ∷ s) p f = ground (arith, contains-append s p, up_to_slash-append s p f)

pub clean_from :
    (p : Text) (rooted : Bool) (st : List Text)
    → is_abs p ≡ rooted
    → stack_of p ≡ st
    → clean p ≡ render rooted st
unfolding clean
clean_from p rooted st a e = cc

dir_from : (p s : Text) → up_to_slash p ≡ s → dir p ≡ clean s
unfolding dir
dir_from p s e = ap clean e

dir_rooted :
    (ps : List Text) (p : Text)
    → All IsPart ps
    → Free slash p
    → dir (slash ∷ join slash (ps ++ (p ∷ []))) ≡ render true (clean_parts true [] ps)
unfolding join clean_parts has_prefix
dir_rooted [] p h f =
    dir_from (slash ∷ p) (slash ∷ []) (up_to_slash-append [] p f)
    ∙ clean_from (slash ∷ []) true [] refl ((rooted_parts [] h).0)
dir_rooted (q ∷ qs) p h f =
    dir_from _ ((slash ∷ join slash (q ∷ qs)) ++ (slash ∷ [])) (
      ap (λ t. up_to_slash (slash ∷ t)) (join-snoc q qs p)
      ∙ up_to_slash-append (slash ∷ join slash (q ∷ qs)) p f)
    ∙ clean_from _ true _ (unfold has_prefix in refl) ((rooted_parts (q ∷ qs) h).1)

dir_relative :
    (ps : List Text) (p : Text)
    → All IsPart ps
    → Free slash p
    → dir (join slash (ps ++ (p ∷ []))) ≡ render false (clean_parts false [] ps)
unfolding clean_parts join
dir_relative [] p h f =
    dir_from p [] (up_to_slash-Free p f)
    ∙ clean_from [] false [] (unfold has_prefix in refl) (unfold stack_of split clean_step in refl)
dir_relative (q ∷ qs) p h f =
    dir_from _ (join slash (q ∷ qs) ++ (slash ∷ []))
      (ap up_to_slash (join-snoc q qs p) ∙ up_to_slash-append (join slash (q ∷ qs)) p f)
    ∙ clean_from _ false _ (is_abs-join (q ∷ qs) (slash ∷ []) h (λ e. cc))
        ((relative_parts q qs h).1)

render_rooted :
    (st : List Text)
    → IsNormal true st
    → (is_abs (render true st) ≡ true) × (stack_of (render true st) ≡ st)
unfolding render has_prefix
render_rooted st n = (
  refl,
  (rooted_parts (reverse st) (IsNormal-All-reverse true st n)).0 ∙ clean_parts-reverse true st n,
)

relative_facts :
    (ps : List Text)
    → All IsPart ps
    → ps ≢ []
    → (is_abs (join slash ps) ≡ false) × (stack_of (join slash ps) ≡ clean_parts false [] ps)
relative_facts [] h n = absurd (n refl)
relative_facts (q ∷ qs) h n = (
  rw (← append-nil (join slash (q ∷ qs))) (is_abs-join (q ∷ qs) [] h n),
  (relative_parts q qs h).0,
)

snoc-ne-nil : (ps : List Text) (p : Text) → ps ++ (p ∷ []) ≢ []
snoc-ne-nil [] p e = cc
snoc-ne-nil (q ∷ ps) p e = cc

render_relative :
    (st : List Text)
    → IsNormal false st
    → (is_abs (render false st) ≡ false) × (stack_of (render false st) ≡ st)
unfolding render
render_relative [] n = unfold has_prefix stack_of split clean_step same in (refl, refl)
render_relative (p ∷ st) n =
    let facts =
      relative_facts (reverse (p ∷ st)) (IsNormal-All-reverse false (p ∷ st) n)
        (rw (reverse-cons p st) (snoc-ne-nil (reverse st) p)) in
    (facts.0, facts.1 ∙ clean_parts-reverse false (p ∷ st) n)

-- The text of a normal stack is rooted as it was, and reads back as the stack.
pub render_facts :
    (rooted : Bool) (st : List Text)
    → IsNormal rooted st
    → (is_abs (render rooted st) ≡ rooted) × (stack_of (render rooted st) ≡ st)
render_facts true st n = render_rooted st n
render_facts false st n = render_relative st n

pub clean-render :
    (rooted : Bool) (st : List Text)
    → IsNormal rooted st
    → clean (render rooted st) ≡ render rooted st
clean-render rooted st n =
    let facts = render_facts rooted st n in clean_from _ rooted st facts.0 facts.1

-- Cleaning a cleaned path changes nothing.
pub clean-clean : (p : Text) → clean (clean p) ≡ clean p
clean-clean p =
    ap clean (clean_from p _ _ refl refl)
    ∙ clean-render (is_abs p) (stack_of p) (stack_of-IsNormal p)
    ∙ sym (clean_from p _ _ refl refl)

-- Dir takes the last part of a cleaned path away.
pub dir-render :
    (rooted : Bool) (p : Text) (st : List Text)
    → IsNormal rooted (p ∷ st)
    → dir (render rooted (p ∷ st)) ≡ render rooted st
unfolding render
dir-render true p st n = rw (reverse-cons p st) (
    dir_rooted (reverse st) p (IsNormal-All-reverse true st n.2) n.0.free
    ∙ ap (render true) (clean_parts-reverse true st n.2))
dir-render false p st n = rw (reverse-cons p st) (
    dir_relative (reverse st) p (IsNormal-All-reverse false st n.2) n.0.free
    ∙ ap (render false) (clean_parts-reverse false st n.2))
