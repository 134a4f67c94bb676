-- ===== src/DataStore.antt =====
-- pkg/federation/datastore.go: data stores, their permissions and placement strategies. A right is
-- a string in the source, so it is a text here; times are nanoseconds.
use collective.Prelude.{ℕ, List, Option}
use collective.Text.{Text, bytes}
use collective.Dict.{Dict}
use collective.Address.{FederatedAddress}

abbrev pub Right : Type 0
Right = Text

abbrev pub right_read : Right
right_read = bytes "READ"

abbrev pub right_write : Right
right_write = bytes "WRITE"

abbrev pub right_delete : Right
right_delete = bytes "DELETE"

abbrev pub right_share : Right
right_share = bytes "SHARE"

pub data PlacementStrategy : Type 0 where
  placement_unknown placement_media placement_backup placement_hybrid : PlacementStrategy

pub record Permission : Type 0 where
  pub subject : FederatedAddress
  pub rights : List Right
  pub valid_until : Option ℕ

pub record DataStore : Type 0 where
  pub path : Text
  pub owner : FederatedAddress
  pub permissions : List Permission
  pub replicas : ℕ
  pub strategy : PlacementStrategy
  pub metadata : Dict Text
