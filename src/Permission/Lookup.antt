-- ===== src/Permission/Lookup.antt =====
-- Which data store answers for a path: the nearest registered ancestor of the cleaned path.
use mathlib.Core.List.{reverse, reverse-cons}
use collective.Prelude.{
  ℕ, zero, suc, ◌≤◌, ◌≡◌, refl, sym, ap, ◌∙◌, Bool, true, false, Bool-cases, inl, inr, Option, none,
  some, List, [], ◌∷◌, arith, length, length-append, All,
}
use collective.Text.{Text, bytes, same, same_iff, has_prefix}
use collective.Text.Split.{join, split}
use collective.Dict.{Dict, lookup}
use collective.FilePath.{slash, is_abs, clean, clean_step, dir, render, stack_of}
use collective.FilePath.Normal.{IsPart, IsNormal, stack_of-IsNormal}
use collective.FilePath.Parent.{IsNormal-All-reverse, render_facts, dir-render}
use collective.DataStore.{DataStore}
use collective.Permission.{is_top, climb, find_data_store}

-- The specification: the path itself, or else the same question for the stack without its top, and
-- in the end the root of the path.
abbrev pub nearest : Dict DataStore → Bool → List Text → Option DataStore
nearest stores rooted [] = lookup (render rooted []) stores
nearest stores rooted (p ∷ st) = elim (lookup (render rooted (p ∷ st)) stores) [
  | some ds ↦ some ds
  | none ↦ nearest stores rooted st
]

-- A relative path falls back to the root store.
abbrev pub nearest_or_root : Dict DataStore → Text → Option DataStore
nearest_or_root stores path = elim (nearest stores (is_abs path) (stack_of path)) [
  | some ds ↦ some ds
  | none ↦ lookup (bytes "/") stores
]

is_top_nil : (rooted : Bool) → is_top (render rooted []) ≡ true
unfolding render same join
is_top_nil true = refl
is_top_nil false = refl

stack_of-top : (t : Text) → is_top t ≡ true → stack_of t ≡ []
unfolding stack_of split clean_step same has_prefix
stack_of-top t h = elim (Bool-cases (same t (bytes "/"))) [
  | inl e ↦ rw ((same_iff t (bytes "/")).0 e) refl
  | inr e ↦ rw ((same_iff t (bytes ".")).0 (ground arith)) refl
]

is_top_cons :
    (rooted : Bool) (p : Text) (st : List Text)
    → IsNormal rooted (p ∷ st)
    → is_top (render rooted (p ∷ st)) ≡ false
is_top_cons rooted p st n = elim (Bool-cases (is_top (render rooted (p ∷ st)))) [
  | inl e ↦ absurd (cc (stack_of-top _ e, (render_facts rooted (p ∷ st) n).1))
  | inr e ↦ e
]

length-join-le : (ps : List Text) → All IsPart ps → length ps ≤ length (join slash ps)
unfolding join
length-join-le [] h = omega arith
length-join-le ([] ∷ ps) h = absurd (h.0.nonempty refl)
length-join-le ((c ∷ p) ∷ []) h = omega arith
length-join-le ((c ∷ p) ∷ q ∷ ps) h =
    omega (arith, length-append p (slash ∷ join slash (q ∷ ps)), length-join-le (q ∷ ps) h.1)

length-reverse : (ps : List Text) → length (reverse ps) ≡ length ps
length-reverse [] = refl
length-reverse (p ∷ ps) =
    omega
      (arith, ap length (reverse-cons p ps), length-append (reverse ps) (p ∷ []), length-reverse ps)

-- A path has at least as many bytes as parts.
depth-le-length :
    (rooted : Bool) (st : List Text) → IsNormal rooted st → length st ≤ length (render rooted st)
unfolding render
depth-le-length true st n =
    omega (arith, length-reverse st, length-join-le (reverse st) (IsNormal-All-reverse true st n))
depth-le-length false [] n = omega arith
depth-le-length false (p ∷ st) n = omega (
  arith,
  length-reverse (p ∷ st),
  length-join-le (reverse (p ∷ st)) (IsNormal-All-reverse false (p ∷ st) n),
)

-- The ancestors above a path, the specification of the loop.
abbrev above : Dict DataStore → Bool → List Text → Option DataStore
above stores rooted [] = none
above stores rooted (p ∷ st) = nearest stores rooted st

abbrev or_else : Option DataStore → Option DataStore → Option DataStore
or_else (some ds) rest = some ds
or_else none rest = rest

nearest-eq-above :
    (stores : Dict DataStore) (rooted : Bool) (st : List Text)
    → nearest stores rooted st ≡ or_else (lookup (render rooted st) stores) (above stores rooted st)
nearest-eq-above stores rooted [] = ground arith
nearest-eq-above stores rooted (p ∷ st) = ground arith

climb_step :
    (fuel : ℕ) (p q : Text) (stores : Dict DataStore)
    → is_top p ≡ false
    → dir p ≡ q
    → climb (suc fuel) p stores ≡ or_else (lookup q stores) (climb fuel q stores)
unfolding climb
climb_step fuel p q stores h e =
    rw (h, climb) (ground arith) ∙ ap (λ r. or_else (lookup r stores) (climb fuel r stores)) e

climb-eq-above :
    (fuel : ℕ) (stores : Dict DataStore) (rooted : Bool) (st : List Text)
    → IsNormal rooted st
    → length st ≤ fuel
    → climb fuel (render rooted st) stores ≡ above stores rooted st
unfolding climb
climb-eq-above zero stores rooted [] n h = refl
climb-eq-above zero stores rooted (p ∷ st) n h = absurd (omega arith)
climb-eq-above (suc fuel) stores rooted [] n h = rw (is_top_nil rooted, climb)
climb-eq-above (suc fuel) stores rooted (p ∷ st) n h =
    climb_step fuel _ _ stores (is_top_cons rooted p st n) (dir-render rooted p st n)
    ∙ ap (or_else (lookup (render rooted st) stores))
        (climb-eq-above fuel stores rooted st n.2 (omega arith))
    ∙ sym (nearest-eq-above stores rooted st)

find_data_store-render :
    (stores : Dict DataStore) (rooted : Bool) (st : List Text)
    → IsNormal rooted st
    → find_data_store stores (render rooted st)
      ≡ elim (nearest stores rooted st) [ some ds ↦ some ds | none ↦ lookup (bytes "/") stores ]
unfolding find_data_store
find_data_store-render stores rooted st n = ground (
  arith,
  nearest-eq-above stores rooted st,
  climb-eq-above (length (render rooted st)) stores rooted st n (depth-le-length rooted st n),
)

-- For every path, cleaned as CheckPermission cleans it, findDataStore ends and returns the store of
-- the path itself or of its nearest registered ancestor, and else the root's.
pub find_data_store-clean :
    (stores : Dict DataStore) (path : Text)
    → find_data_store stores (clean path) ≡ nearest_or_root stores path
unfolding clean
find_data_store-clean stores path =
    find_data_store-render stores (is_abs path) (stack_of path) (stack_of-IsNormal path)
