-- ===== src/Address.antt =====
-- pkg/federation/address.go. A pointer to an address is an `Option`: `none` is nil.
pub mod Format
use collective.Prelude.{
  ℕ, ◌≡◌, refl, ◌↔◌, Bool, true, false, not, ◌&&◌, ◌||◌, Option, none, some, List, [], ◌∷◌, ◌++◌,
  arith, if◌then◌else◌, length, ◌==◌, Result, ok, err, ◌>>=◌, ◌>>◌, refuse_if,
}
use collective.Text.{Text, bytes, same, same_iff, contains, has_prefix}
use collective.Text.Split.{split}

pub record FederatedAddress : Type 0 where
  pub local_part : Text
  pub domain : Text
  pub resource : Text

pub data AddressError : Type 0 where
  empty_address not_one_at empty_domain domain_without_dot bare_slash empty_local_part :
      AddressError
  nil_address no_identifier two_identifiers resource_without_slash : AddressError

-- `s == ""`
abbrev pub is_empty : Text → Bool
is_empty [] = true
is_empty (c ∷ s) = false

-- The fields that follow the domain's checks.
from_parts : Text → Text → Result AddressError FederatedAddress
from_parts local_or_resource domain =
    if has_prefix local_or_resource (bytes "/")
    then (do
      refuse_if (length local_or_resource == 1) bare_slash
      ok (record { local_part = []; domain = domain; resource = local_or_resource }))
    else (do
      refuse_if (is_empty local_or_resource) empty_local_part
      ok (record { local_part = local_or_resource; domain = domain; resource = [] }))

parse_parts : List Text → Result AddressError FederatedAddress
unfolding from_parts
parse_parts (local_or_resource ∷ domain ∷ []) = do
  refuse_if (is_empty domain) empty_domain
  refuse_if (not (contains domain b'.')) domain_without_dot
  from_parts local_or_resource domain
parse_parts _ = err not_one_at

-- ParseAddress
unfoldable pub parse_address : Text → Result AddressError FederatedAddress
unfolding parse_parts
parse_address addr = do refuse_if (is_empty addr) empty_address; parse_parts (split b'@' addr)

-- String
unfoldable pub to_text : Option FederatedAddress → Text
to_text none = []
to_text (some a) =
    if not (is_empty a.resource)
    then a.resource ++ (b'@' ∷ a.domain)
    else a.local_part ++ (b'@' ∷ a.domain)

-- IsLocal
unfoldable pub is_local : Option FederatedAddress → Text → Bool
is_local none my_domain = false
is_local (some a) my_domain = same a.domain my_domain

-- IsResource
unfoldable pub is_resource : Option FederatedAddress → Bool
is_resource none = false
is_resource (some a) = not (is_empty a.resource)

-- GetIdentifier
unfoldable pub get_identifier : Option FederatedAddress → Text
get_identifier none = []
get_identifier (some a) = if not (is_empty a.resource) then a.resource else a.local_part

-- Validate
unfoldable pub validate : Option FederatedAddress → Result AddressError (Unit {0})
validate none = err nil_address
validate (some a) = do
  refuse_if (is_empty a.domain) empty_domain
  refuse_if (not (contains a.domain b'.')) domain_without_dot
  refuse_if (is_empty a.local_part && is_empty a.resource) no_identifier
  refuse_if (not (is_empty a.local_part) && not (is_empty a.resource)) two_identifiers
  refuse_if (not (is_empty a.resource) && not (has_prefix a.resource (bytes "/")))
      resource_without_slash

-- Equal
unfoldable pub equal : Option FederatedAddress → Option FederatedAddress → Bool
equal none none = true
equal none (some b) = false
equal (some a) none = false
equal (some a) (some b) =
    same a.local_part b.local_part && same a.domain b.domain && same a.resource b.resource

-- Equal between two addresses that are not nil.
abbrev pub same_address : FederatedAddress → FederatedAddress → Bool
same_address a b = equal (some a) (some b)

-- `Equal` is equality of the pointed-to addresses, with nil equal to nil alone.
pub equal_iff : (a b : Option FederatedAddress) → (equal a b ≡ true) ↔ (a ≡ b)
unfolding equal
equal_iff none none = ground arith
equal_iff none (some b) = ground arith
equal_iff (some a) none = ground arith
equal_iff (some a) (some b) = ground (
  arith,
  same_iff a.local_part b.local_part,
  same_iff a.domain b.domain,
  same_iff a.resource b.resource,
)

pub same_address_iff : (a b : FederatedAddress) → (same_address a b ≡ true) ↔ (a ≡ b)
unfolding equal
same_address_iff a b = ground (
  arith,
  same_iff a.local_part b.local_part,
  same_iff a.domain b.domain,
  same_iff a.resource b.resource,
)
