-- ===== src/Tests/Addresses.antt =====
-- Addresses.
use collective.Prelude.{◌≡◌, ◌↔◌, refl, ok, err, some, []}
use collective.Text.{bytes, contains, has_prefix}
use collective.Text.Split.{split}
use collective.Address.{FederatedAddress, not_one_at, bare_slash, parse_address, to_text, validate}
use collective.Address.Format.{IsCanonical, to_text-parse_address, parse_address-to_text}

abbrev node : FederatedAddress
node = record { local_part = bytes "node-01"; domain = bytes "alice.local"; resource = [] }

abbrev movies : FederatedAddress
movies = record { local_part = []; domain = bytes "carol.local"; resource = bytes "/media/movies" }

node_parses : parse_address (bytes "node-01@alice.local") ≡ ok node
unfolding parse_address split has_prefix contains
node_parses = refl

movies_parses : parse_address (bytes "/media/movies@carol.local") ≡ ok movies
unfolding parse_address split has_prefix contains
movies_parses = refl

two_ats : parse_address (bytes "a@b@c.d") ≡ err not_one_at
unfolding parse_address split
two_ats = refl

only_slash : parse_address (bytes "/@c.d") ≡ err bare_slash
unfolding parse_address split has_prefix contains
only_slash = refl

to_text-parse_address_example : to_text (some node) ≡ bytes "node-01@alice.local"
to_text-parse_address_example = to_text-parse_address (bytes "node-01@alice.local") node node_parses

parse_address-to_text_example :
    (parse_address (to_text (some movies)) ≡ ok movies) ↔ IsCanonical movies
parse_address-to_text_example = parse_address-to_text movies

-- Validate accepts the resource `/`, and its text does not parse.
abbrev root : FederatedAddress
root = record { local_part = []; domain = bytes "c.d"; resource = bytes "/" }

root_valid : validate (some root) ≡ ok tt
unfolding validate has_prefix contains
root_valid = refl

root_does_not_parse : parse_address (to_text (some root)) ≡ err bare_slash
unfolding parse_address to_text split has_prefix contains
root_does_not_parse = refl
