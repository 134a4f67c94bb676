-- ===== src/Address/Format.antt =====
-- What an address text says, and that printing and parsing are inverse to one another.
use collective.Prelude.{
  ℕ, ◌≡◌, ◌≢◌, ◌↔◌, ◌∙◌, refl, true, false, some, List, [], ◌∷◌, ◌++◌, arith, ok, All,
}
use collective.Text.{Text, bytes, contains, has_prefix}
use collective.Text.Split.{split, join, Free, join-split, split-append, split-Free, split-All-Free}
use collective.Address.{
  FederatedAddress, from_parts, parse_parts, parse_address, to_text, validate, is_empty,
}

from_parts-to_text :
    (l d : Text) (a : FederatedAddress) → from_parts l d ≡ ok a → to_text (some a) ≡ l ++ (b'@' ∷ d)
unfolding from_parts to_text has_prefix
from_parts-to_text [] d a h = ground arith
from_parts-to_text (c ∷ l) d a h = ground arith

from_parts-validate :
    (l d : Text) (a : FederatedAddress)
    → is_empty d ≡ false
    → contains d b'.' ≡ true
    → from_parts l d ≡ ok a
    → validate (some a) ≡ ok tt
unfolding from_parts validate has_prefix
from_parts-validate [] d a e c h = ground arith
from_parts-validate (x ∷ l) d a e c h = ground arith

parse_parts-to_text :
    (ps : List Text) (a : FederatedAddress)
    → parse_parts ps ≡ ok a
    → to_text (some a) ≡ join b'@' ps
unfolding parse_parts join
parse_parts-to_text (l ∷ d ∷ []) a h = ground (arith, from_parts-to_text l d a)
parse_parts-to_text [] a h = cc
parse_parts-to_text (l ∷ []) a h = cc
parse_parts-to_text (l ∷ d ∷ x ∷ ps) a h = cc

parse_parts-validate :
    (ps : List Text) (a : FederatedAddress) → parse_parts ps ≡ ok a → validate (some a) ≡ ok tt
unfolding parse_parts
parse_parts-validate (l ∷ d ∷ []) a h = ground (arith, from_parts-validate l d a)
parse_parts-validate [] a h = cc
parse_parts-validate (l ∷ []) a h = cc
parse_parts-validate (l ∷ d ∷ x ∷ ps) a h = cc

-- Printing an address that was parsed gives back the text that it was parsed from.
pub to_text-parse_address :
    (s : Text) (a : FederatedAddress) → parse_address s ≡ ok a → to_text (some a) ≡ s
unfolding parse_address
to_text-parse_address s a h =
    ground (arith, parse_parts-to_text (split b'@' s) a, join-split b'@' s)

-- Every address that ParseAddress accepts passes Validate.
validate-parse_address :
    (s : Text) (a : FederatedAddress) → parse_address s ≡ ok a → validate (some a) ≡ ok tt
unfolding parse_address
validate-parse_address s a h = ground (arith, parse_parts-validate (split b'@' s) a)

-- What Validate does not ask: no `@` inside the parts, no local part that reads as a resource, and
-- a resource that is more than its slash.
pub record IsCanonical (a : FederatedAddress) : Type 0 where
  pub valid : validate (some a) ≡ ok tt
  pub local_free : Free b'@' a.local_part
  pub resource_free : Free b'@' a.resource
  pub domain_free : Free b'@' a.domain
  pub local_plain : has_prefix a.local_part (bytes "/") ≡ false
  pub resource_long : a.resource ≢ bytes "/"

from_parts-IsCanonical :
    (l d : Text) (a : FederatedAddress)
    → is_empty d ≡ false
    → contains d b'.' ≡ true
    → Free b'@' l
    → Free b'@' d
    → from_parts l d ≡ ok a
    → IsCanonical a
unfolding from_parts validate has_prefix
from_parts-IsCanonical [] d a e c fl fd h = ground arith
from_parts-IsCanonical (x ∷ l) d a e c fl fd h = ground arith

parse_parts-IsCanonical :
    (ps : List Text) (a : FederatedAddress)
    → All (Free b'@') ps
    → parse_parts ps ≡ ok a
    → IsCanonical a
unfolding parse_parts
parse_parts-IsCanonical (l ∷ d ∷ []) a f h = ground (arith, from_parts-IsCanonical l d a)
parse_parts-IsCanonical [] a f h = cc
parse_parts-IsCanonical (l ∷ []) a f h = cc
parse_parts-IsCanonical (l ∷ d ∷ x ∷ ps) a f h = cc

parse_address-IsCanonical :
    (s : Text) (a : FederatedAddress) → parse_address s ≡ ok a → IsCanonical a
unfolding parse_address
parse_address-IsCanonical s a h =
    ground (arith, parse_parts-IsCanonical (split b'@' s) a (split-All-Free b'@' s))

parse_address-append :
    (l d : Text)
    → Free b'@' l
    → Free b'@' d
    → parse_address (l ++ (b'@' ∷ d)) ≡ parse_parts (l ∷ d ∷ [])
unfolding parse_address
parse_address-append [] d fl fd = rw (split-append b'@' [] d fl, split-Free b'@' d fd) refl
parse_address-append (c ∷ l) d fl fd =
    rw (split-append b'@' (c ∷ l) d fl, split-Free b'@' d fd) refl

parts_of : (l d r : Text) → FederatedAddress
parts_of l d r = record { local_part = l; domain = d; resource = r }

parse_parts_resource :
    (l d : Text) (x : ℕ) (r : Text)
    → validate (some (parts_of l d (x ∷ r))) ≡ ok tt
    → x ∷ r ≢ bytes "/"
    → parse_parts ((x ∷ r) ∷ d ∷ []) ≡ ok (parts_of l d (x ∷ r))
unfolding parts_of validate from_parts parse_parts has_prefix
parse_parts_resource [] d x [] h n = ground arith
parse_parts_resource [] d x (y ∷ r) h n = ground arith
parse_parts_resource (c ∷ l) d x r h n = ground arith

parse_parts_local :
    (l d : Text)
    → validate (some (parts_of l d [])) ≡ ok tt
    → has_prefix l (bytes "/") ≡ false
    → parse_parts (l ∷ d ∷ []) ≡ ok (parts_of l d [])
unfolding parts_of validate from_parts parse_parts has_prefix
parse_parts_local [] d h n = ground arith
parse_parts_local (c ∷ l) d h n = ground arith

-- The cases of a canonical address: a resource, or a local part.
IsCanonical-parse_address :
    (l d r : Text)
    → IsCanonical (parts_of l d r)
    → parse_address (to_text (some (parts_of l d r))) ≡ ok (parts_of l d r)
unfolding parts_of to_text
IsCanonical-parse_address l d (x ∷ r) v =
    parse_address-append (x ∷ r) d v.resource_free v.domain_free
    ∙ parse_parts_resource l d x r v.valid v.resource_long
IsCanonical-parse_address l d [] v =
    parse_address-append l d v.local_free v.domain_free
    ∙ parse_parts_local l d v.valid v.local_plain

-- An address parses back from its text exactly when it is canonical.
pub parse_address-to_text :
    (a : FederatedAddress) → (parse_address (to_text (some a)) ≡ ok a) ↔ IsCanonical a
unfolding parts_of
parse_address-to_text a = (
  parse_address-IsCanonical (to_text (some a)) a,
  IsCanonical-parse_address a.local_part a.domain a.resource,
)
