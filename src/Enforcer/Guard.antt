-- ===== src/Enforcer/Guard.antt =====
-- Only entitled callers change the data stores.
use collective.Prelude.{
  ℕ, ◌≡◌, refl, ◌∙◌, ◌⊎◌, inl, inr, true, Bool-cases, Option-cases, Option, none, some, List, arith,
  Result, ok, err,
}
use collective.Text.{Text}
use collective.FilePath.{dir}
use collective.Dict.{Dict}
use collective.Address.{FederatedAddress, AddressError, parse_address}
use collective.DataStore.{Right, DataStore, PlacementStrategy, right_write, right_share}
use collective.Permission.{
  PermissionManager, PermissionError, create_data_store, grant_permission, revoke_permission,
  check_permission, is_top,
}
use collective.Permission.Ownership.{is_owner}
use collective.Permission.Invariant.{data_stores-check_permission}
use collective.Enforcer.{
  PermissionEnforcer, Outcome, StatusCode, after, check_caller, enforce, commit,
  extract_caller_identity, enforce_create_data_store, grant_to, enforce_grant_permission,
  revoke_from, enforce_revoke_permission, unauthenticated, internal, invalid_argument,
}

abbrev pub data_stores_of : PermissionEnforcer → Dict DataStore
data_stores_of pe = pe.permission_manager.data_stores

-- The context names a caller whom a check of the permission manager allows the right.
abbrev pub IsAuthorized : PermissionEnforcer → Option (List Text) → Text → Right → ℕ → Type 0
IsAuthorized pe context path right now =
    (caller : FederatedAddress) × (extract_caller_identity pe context ≡ some caller)
    × ((check_permission pe.permission_manager path caller right now).0 ≡ true)

-- A check that is passed was passed by an authorized caller, and no check changes the data stores.
pub enforce-IsAuthorized :
    (pe : PermissionEnforcer) (context : Option (List Text)) (path : Text) (right : Right) (now : ℕ)
    → (data_stores_of (enforce pe context path right now).1 ≡ data_stores_of pe)
      × ((enforce pe context path right now).0 ≡ ok tt → IsAuthorized pe context path right now)
unfolding enforce check_caller
enforce-IsAuthorized pe context path right now =
    elim (Option-cases (extract_caller_identity pe context)) [
      | inl e ↦ (ground (arith, e), λ h. ground (arith, e))
      | inr (caller, e) ↦ (
        ground (arith, e, data_stores-check_permission pe.permission_manager path caller right now),
        λ h. (caller, e, ground (arith, e)),
      )
    ]

-- An outcome is an error that leaves the data stores as they were, or a success with the
-- entitlement.
abbrev pub Guarded : PermissionEnforcer → Type 0 → Outcome → Type 0
Guarded pe Entitled outcome =
    ((e : StatusCode) × (outcome.0 ≡ err e) × (data_stores_of outcome.1 ≡ data_stores_of pe))
    ⊎ ((outcome.0 ≡ ok tt) × Entitled)

commit-Guarded :
    (pe : PermissionEnforcer) (r : Result PermissionError PermissionManager)
    → Guarded pe (Unit {0}) (commit pe r)
unfolding commit
commit-Guarded pe (err x) = inl (internal, refl, refl)
commit-Guarded pe (ok pm) = inr (refl, tt)

grant_to-Guarded :
    (pe : PermissionEnforcer) (path : Text) (rights : List Right)
    (r : Result AddressError FederatedAddress)
    → Guarded pe (Unit {0}) (grant_to pe path rights r)
unfolding grant_to
grant_to-Guarded pe path rights (err x) = inl (invalid_argument, refl, refl)
grant_to-Guarded pe path rights (ok subject) =
    commit-Guarded pe (grant_permission pe.permission_manager path subject rights none)

revoke_from-Guarded :
    (pe : PermissionEnforcer) (path : Text) (r : Result AddressError FederatedAddress)
    → Guarded pe (Unit {0}) (revoke_from pe path r)
unfolding revoke_from
revoke_from-Guarded pe path (err x) = inl (invalid_argument, refl, refl)
revoke_from-Guarded pe path (ok subject) =
    commit-Guarded pe (revoke_permission pe.permission_manager path subject)

after-Guarded :
    (pe : PermissionEnforcer) (Entitled : Type 0) (first : Outcome)
    (next : PermissionEnforcer → Outcome)
    → data_stores_of first.1 ≡ data_stores_of pe
    → (first.0 ≡ ok tt → Entitled)
    → ((pe' : PermissionEnforcer) → Guarded pe' (Unit {0}) (next pe'))
    → Guarded pe Entitled (after first next)
after-Guarded pe Entitled (err x, pe') next kept entitled then_kept = inl (x, refl, kept)
after-Guarded pe Entitled (ok done, pe') next kept entitled then_kept = elim (then_kept pe') [
  | inl (e, p, q) ↦ inl (e, p, q ∙ kept)
  | inr (p, u) ↦ inr (p, entitled refl)
]

-- A grant that fails changes no data store, and one that succeeds was asked by a caller whom a
-- check allowed to share the path.
pub enforce_grant_permission-Guarded :
    (pe : PermissionEnforcer) (context : Option (List Text)) (path subject : Text)
    (rights : List Right) (now : ℕ)
    → Guarded pe
        (IsAuthorized pe context path right_share now)
        (enforce_grant_permission pe context path subject rights now)
unfolding enforce_grant_permission
enforce_grant_permission-Guarded pe context path subject rights now =
    let check = enforce-IsAuthorized pe context path right_share now in
    after-Guarded pe _ (enforce pe context path right_share now) _ check.0 check.1
      (λ pe'. grant_to-Guarded pe' path rights (parse_address subject))

revoke_when :
    (pe : PermissionEnforcer) (context : Option (List Text)) (path subject : Text) (now : ℕ)
    (Entitled : Type 0)
    → ((caller : FederatedAddress)
        → extract_caller_identity pe context ≡ some caller
        → is_owner pe.permission_manager path caller ≡ true
        → Entitled)
    → (IsAuthorized pe context path right_share now → Entitled)
    → Guarded pe Entitled (enforce_revoke_permission pe context path subject now)
unfolding enforce_revoke_permission
revoke_when pe context path subject now Entitled owns shares =
    let check = enforce-IsAuthorized pe context path right_share now in
    let checked : (enforce pe context path right_share now).0 ≡ ok tt → Entitled =
      λ h. shares (check.1 h) in
    elim (Option-cases (extract_caller_identity pe context)) [
      | inl e ↦ rw (e, enforce_revoke_permission) (inl (unauthenticated, refl, refl))
      | inr (caller, e) ↦ elim (Bool-cases (is_owner pe.permission_manager path caller)) [
        | inl o ↦
            let entitled = owns caller e o in
            rw (e, o, enforce_revoke_permission)
              (after-Guarded pe Entitled (ok tt, pe)
                (λ pe'. revoke_from pe' path (parse_address subject)) refl (λ h. entitled)
                (λ pe'. revoke_from-Guarded pe' path (parse_address subject)))
        | inr o ↦
            rw (e, o, enforce_revoke_permission)
              (after-Guarded pe Entitled (enforce pe context path right_share now) _ check.0 checked
                (λ pe'. revoke_from-Guarded pe' path (parse_address subject)))
      ]
    ]

-- A revocation that fails changes no data store, and one that succeeds was asked by the owner or by
-- a caller whom a check allowed to share the path.
enforce_revoke_permission-Guarded :
    (pe : PermissionEnforcer) (context : Option (List Text)) (path subject : Text) (now : ℕ)
    → Guarded pe
        (((caller : FederatedAddress) × (extract_caller_identity pe context ≡ some caller)
            × (is_owner pe.permission_manager path caller ≡ true))
          ⊎ IsAuthorized pe context path right_share now)
        (enforce_revoke_permission pe context path subject now)
enforce_revoke_permission-Guarded pe context path subject now =
    revoke_when pe context path subject now _ (λ caller e o. inl (caller, e, o)) (λ h. inr h)

create_when :
    (pe : PermissionEnforcer) (context : Option (List Text)) (path : Text)
    (strategy : PlacementStrategy) (now : ℕ) (Entitled : Type 0)
    → (is_top (dir path) ≡ true → Entitled)
    → (IsAuthorized pe context (dir path) right_write now → Entitled)
    → Guarded pe Entitled (enforce_create_data_store pe context path strategy now)
unfolding enforce_create_data_store
create_when pe context path strategy now Entitled at_top writes =
    let check = enforce-IsAuthorized pe context (dir path) right_write now in
    let checked : (enforce pe context (dir path) right_write now).0 ≡ ok tt → Entitled =
      λ h. writes (check.1 h) in
    elim (Option-cases (extract_caller_identity pe context)) [
      | inl e ↦ rw (e, enforce_create_data_store) (inl (unauthenticated, refl, refl))
      | inr (caller, e) ↦ elim (Bool-cases (is_top (dir path))) [
        | inl o ↦
            let entitled = at_top o in
            rw (e, o, enforce_create_data_store)
              (after-Guarded pe Entitled (ok tt, pe)
                (λ pe'. commit pe' (create_data_store pe'.permission_manager path caller strategy))
                refl (λ h. entitled)
                (λ pe'.
                  commit-Guarded pe'
                    (create_data_store pe'.permission_manager path caller strategy)))
        | inr o ↦
            rw (e, o, enforce_create_data_store)
              (after-Guarded pe Entitled (enforce pe context (dir path) right_write now) _ check.0
                checked
                (λ pe'.
                  commit-Guarded pe'
                    (create_data_store pe'.permission_manager path caller strategy)))
      ]
    ]

-- A creation that fails changes no data store, and one that succeeds is at the top level or was asked
-- by a caller whom a check allowed to write to the parent.
enforce_create_data_store-Guarded :
    (pe : PermissionEnforcer) (context : Option (List Text)) (path : Text)
    (strategy : PlacementStrategy) (now : ℕ)
    → Guarded pe
        ((is_top (dir path) ≡ true) ⊎ IsAuthorized pe context (dir path) right_write now)
        (enforce_create_data_store pe context path strategy now)
enforce_create_data_store-Guarded pe context path strategy now =
    create_when pe context path strategy now _ (λ h. inl h) (λ h. inr h)
