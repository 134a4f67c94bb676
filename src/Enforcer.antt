-- ===== src/Enforcer.antt =====
-- pkg/coordinator/permissions_enforcer.go: requests against the permission manager on behalf of a
-- caller. A context is the addresses in its metadata, or none where it has no metadata; each method
-- returns its status and the enforcer after it, as checks fill the cache.
pub mod Guard
use collective.Prelude.{
  ℕ, ◌≡◌, Bool, true, false, not, ◌&&◌, ◌||◌, Option, none, some, List, [], ◌∷◌, ◌++◌, arith,
  if◌then◌else◌, Result, ok, err,
}
use collective.Text.{Text, bytes, same}
use collective.FilePath.{dir}
use collective.Address.{FederatedAddress, AddressError, parse_address}
use collective.DataStore.{
  Right, Permission, PlacementStrategy, right_read, right_write, right_delete, right_share,
  placement_media, placement_backup, placement_hybrid,
}
use collective.Permission.{
  PermissionManager, PermissionError, new_permission_manager, create_data_store, grant_permission,
  revoke_permission, check_permission, is_top,
}
use collective.Permission.Ownership.{is_owner, get_permissions}

-- The codes of the status errors.
pub data StatusCode : Type 0 where
  unauthenticated permission_denied invalid_argument internal store_not_found : StatusCode

-- PermissionEnforcer, with what it reads of its coordinator
pub record PermissionEnforcer : Type 0 where
  pub member_id : Text
  pub federation_domain : Text
  pub permission_manager : PermissionManager

-- NewPermissionEnforcer
abbrev pub new_permission_enforcer : Text → Text → PermissionEnforcer
new_permission_enforcer member_id federation_domain = record {
  member_id = member_id;
  federation_domain = federation_domain;
  permission_manager = new_permission_manager;
}

abbrev pub local_text : PermissionEnforcer → Text
local_text pe = bytes "coord@" ++ (pe.member_id ++ (b'.' ∷ pe.federation_domain))

abbrev to_option : Result AddressError FederatedAddress → Option FederatedAddress
to_option (err e) = none
to_option (ok address) = some address

-- extractCallerIdentity, whose callers tell its errors not apart
unfoldable pub extract_caller_identity :
    PermissionEnforcer → Option (List Text) → Option FederatedAddress
extract_caller_identity pe none = none
extract_caller_identity pe (some []) = to_option (parse_address (local_text pe))
extract_caller_identity pe (some (address ∷ addresses)) = to_option (parse_address address)

abbrev pub Outcome : Type 0
Outcome = Result StatusCode (Unit {0}) × PermissionEnforcer

-- `if err := ...; err != nil { return err }`
abbrev pub after : Outcome → (PermissionEnforcer → Outcome) → Outcome
after (err e, pe) next = (err e, pe)
after (ok done, pe) next = next pe

-- The verdict of CheckPermission for a caller.
unfoldable pub check_caller : PermissionEnforcer → FederatedAddress → Text → Right → ℕ → Outcome
check_caller pe caller path right now =
    let (allowed, pm) = check_permission pe.permission_manager path caller right now in
    (if allowed then ok tt else err permission_denied, record pe { permission_manager = pm })

-- checkPermission
unfoldable pub enforce : PermissionEnforcer → Option (List Text) → Text → Right → ℕ → Outcome
unfolding check_caller extract_caller_identity
enforce pe context path right now = elim (extract_caller_identity pe context) [
  | none ↦ (err unauthenticated, pe)
  | some caller ↦ check_caller pe caller path right now
]

module _ (pe : PermissionEnforcer) (context : Option (List Text)) (path : Text) (now : ℕ) where
  -- EnforceStoreFile, EnforceRetrieveFile and EnforceListDirectory, EnforceDeleteFile,
  -- EnforceCreateDirectory
  abbrev pub enforce_store_file : Outcome
  enforce_store_file = enforce pe context path right_write now

  abbrev pub enforce_retrieve_file : Outcome
  enforce_retrieve_file = enforce pe context path right_read now

  abbrev pub enforce_list_directory : Outcome
  enforce_list_directory = enforce pe context path right_read now

  abbrev pub enforce_delete_file : Outcome
  enforce_delete_file = enforce pe context path right_delete now

  abbrev pub enforce_create_directory : Outcome
  enforce_create_directory = enforce pe context (dir path) right_write now

-- A change of the permission manager, or an internal error.
unfoldable pub commit : PermissionEnforcer → Result PermissionError PermissionManager → Outcome
commit pe (err e) = (err internal, pe)
commit pe (ok pm) = (ok tt, record pe { permission_manager = pm })

-- CreateDataStore
unfoldable pub enforce_create_data_store :
    PermissionEnforcer → Option (List Text) → Text → PlacementStrategy → ℕ → Outcome
unfolding enforce commit extract_caller_identity
enforce_create_data_store pe context path strategy now = elim (extract_caller_identity pe context) [
  | none ↦ (err unauthenticated, pe)
  | some caller ↦
      after
        (if is_top (dir path) then (ok tt, pe) else enforce pe context (dir path) right_write now)
        (λ pe. commit pe (create_data_store pe.permission_manager path caller strategy))
]

-- GrantPermission, from the subject on
unfoldable pub grant_to :
    PermissionEnforcer → Text → List Right → Result AddressError FederatedAddress → Outcome
unfolding commit
grant_to pe path rights (err e) = (err invalid_argument, pe)
grant_to pe path rights (ok subject) =
    commit pe (grant_permission pe.permission_manager path subject rights none)

-- GrantPermission
unfoldable pub enforce_grant_permission :
    PermissionEnforcer → Option (List Text) → Text → Text → List Right → ℕ → Outcome
unfolding enforce grant_to
enforce_grant_permission pe context path subject rights now =
    after (enforce pe context path right_share now)
      (λ pe. grant_to pe path rights (parse_address subject))

-- RevokePermission, from the subject on
unfoldable pub revoke_from :
    PermissionEnforcer → Text → Result AddressError FederatedAddress → Outcome
unfolding commit
revoke_from pe path (err e) = (err invalid_argument, pe)
revoke_from pe path (ok subject) = commit pe (revoke_permission pe.permission_manager path subject)

-- RevokePermission
unfoldable pub enforce_revoke_permission :
    PermissionEnforcer → Option (List Text) → Text → Text → ℕ → Outcome
unfolding enforce revoke_from extract_caller_identity
enforce_revoke_permission pe context path subject now = elim (extract_caller_identity pe context) [
  | none ↦ (err unauthenticated, pe)
  | some caller ↦
      after
        (if is_owner pe.permission_manager path caller
          then (ok tt, pe)
          else enforce pe context path right_share now)
        (λ pe. revoke_from pe path (parse_address subject))
]

-- What GetPermissions answers behind its check.
unfoldable pub read_permissions : PermissionEnforcer → Text → Result StatusCode (List Permission)
read_permissions pe path = elim (get_permissions pe.permission_manager path) [
  | err e ↦ err store_not_found
  | ok permissions ↦ ok permissions
]

-- GetPermissions
unfoldable pub enforce_get_permissions :
    PermissionEnforcer
    → Option (List Text)
    → Text
    → ℕ
    → Result StatusCode (List Permission) × PermissionEnforcer
unfolding enforce read_permissions
enforce_get_permissions pe context path now =
    let (checked, pe') = enforce pe context path right_read now in
    (elim checked [ err e ↦ err e | ok done ↦ read_permissions pe' path ], pe')
