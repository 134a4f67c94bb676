-- ===== src/Tests/Enforcers.antt =====
-- The permission enforcer.
use collective.Prelude.{◌≡◌, refl, some, none, [], ◌∷◌, err}
use collective.Text.{bytes}
use collective.DataStore.{right_read, right_share, placement_media}
use collective.Enforcer.{
  PermissionEnforcer, new_permission_enforcer, enforce_create_data_store, enforce_grant_permission,
  unauthenticated,
}
use collective.Enforcer.Guard.{Guarded, IsAuthorized, enforce_grant_permission-Guarded}

abbrev fresh : PermissionEnforcer
fresh = new_permission_enforcer (bytes "alice") (bytes "home.local")

-- Alice has made /media.
abbrev stocked : PermissionEnforcer
stocked =
    (enforce_create_data_store fresh (some (bytes "coord@alice.home.local" ∷ [])) (bytes "/media")
      placement_media 1).1

no_metadata_refused :
    (enforce_create_data_store fresh none (bytes "/media") placement_media 1).0
    ≡ err unauthenticated
unfolding enforce_create_data_store
no_metadata_refused = refl

enforce_grant_permission-Guarded_example :
    Guarded stocked (IsAuthorized stocked (some []) (bytes "/media") right_share 2) (
      enforce_grant_permission stocked
        (some [])
        (bytes "/media")
        (bytes "bob@garage.local")
        (right_read ∷ [])
        2)
enforce_grant_permission-Guarded_example =
    enforce_grant_permission-Guarded stocked (some []) (bytes "/media") (bytes "bob@garage.local")
      (right_read ∷ []) 2
