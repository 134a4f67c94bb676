-- ===== src/Permission/Ownership.antt =====
-- pkg/federation/permissions.go: ownership, bulk import and export, and the plain readers.
use collective.Prelude.{
  ℕ, Bool, false, not, Option, none, some, List, [], ◌∷◌, ◌++◌, if◌then◌else◌, Result, ok, ◌>>=◌,
  ◌>>◌, refuse_if, map,
}
use collective.Text.{Text}
use collective.Dict.{Dict, lookup, insert}
use collective.FilePath.{clean}
use collective.Address.{FederatedAddress, same_address}
use collective.DataStore.{Permission, DataStore}
use collective.Permission.{
  PermissionManager, PermissionError, not_owner, all_rights, clear_cache, store_back, find_or_fail,
}
use mathlib.Core.Option

-- The loop of TransferOwnership: the first entry of the new owner gets all rights, and its term
-- stays.
unfoldable pub give_all_rights : FederatedAddress → List Permission → Option (List Permission)
give_all_rights subject [] = none
give_all_rights subject (p ∷ ps) =
    let rest = Option.map (λ qs. p ∷ qs) (give_all_rights subject ps) in
    if same_address p.subject subject then some (record p { rights = all_rights } ∷ ps) else rest

-- The permissions after a transfer.
unfoldable pub transferred_permissions : FederatedAddress → List Permission → List Permission
unfolding give_all_rights
transferred_permissions new_owner ps = elim (give_all_rights new_owner ps) [
  | some qs ↦ qs
  | none ↦ ps ++ (record { subject = new_owner; rights = all_rights; valid_until = none } ∷ [])
]

-- TransferOwnership
unfoldable pub transfer_ownership :
    PermissionManager
    → Text
    → FederatedAddress
    → FederatedAddress
    → Result PermissionError PermissionManager
transfer_ownership pm path current_owner new_owner = do
  ds ← find_or_fail pm (clean path)
  refuse_if (not (same_address ds.owner current_owner)) not_owner
  ok (
      store_back pm (clean path) (record ds {
        owner = new_owner;
        permissions = transferred_permissions new_owner ds.permissions;
      }))

-- GetDataStore
unfoldable pub get_data_store : PermissionManager → Text → Result PermissionError DataStore
get_data_store pm path = find_or_fail pm (clean path)

-- GetPermissions
unfoldable pub get_permissions : PermissionManager → Text → Result PermissionError (List Permission)
get_permissions pm path = do ds ← find_or_fail pm (clean path); ok ds.permissions

-- IsOwner
unfoldable pub is_owner : PermissionManager → Text → FederatedAddress → Bool
is_owner pm path subject = elim (lookup (clean path) pm.data_stores) [
  | none ↦ false
  | some ds ↦ same_address ds.owner subject
]

-- ListDataStores and ExportDataStores
unfoldable pub list_data_stores : PermissionManager → List DataStore
list_data_stores pm = map (λ e. e.1) pm.data_stores

-- SetCacheTTL
unfoldable pub set_cache_ttl : PermissionManager → ℕ → PermissionManager
set_cache_ttl pm ttl = clear_cache (record pm { cache_ttl = ttl })

-- The loop of ImportDataStores; `none` is a nil pointer.
unfoldable pub import_all : List (Option DataStore) → Dict DataStore → Dict DataStore
import_all [] stores = stores
import_all (none ∷ rest) stores = import_all rest stores
import_all (some ds ∷ rest) stores = import_all rest (insert (clean ds.path) ds stores)

-- ImportDataStores
unfoldable pub import_data_stores : PermissionManager → List (Option DataStore) → PermissionManager
unfolding import_all
import_data_stores pm stores =
    clear_cache (record pm { data_stores = import_all stores pm.data_stores })
