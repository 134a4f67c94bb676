-- ===== src/Permission/Invariant.antt =====
-- The manager after any history of calls: each data store stands at the cleaned form of its path,
-- and none of them lists a subject twice.
use collective.Prelude.{
  ℕ, ◌≡◌, refl, Option, none, some, List, [], ◌∷◌, arith, All, Result, ok, err,
}
use collective.Text.{Text}
use collective.Dict.{Dict, insert}
use collective.Dict.Keys.{Distinct, Each, insert-Distinct, Each-insert, Each-lookup}
use collective.FilePath.{clean}
use collective.FilePath.Parent.{clean-clean}
use collective.Address.{FederatedAddress}
use collective.DataStore.{Right, PlacementStrategy, DataStore}
use collective.Permission.{
  PermissionManager, PermissionError, create_data_store, grant_permission, revoke_permission,
  check_permission, new_permission_manager, store_back, new_data_store,
}
use collective.Permission.Entries.{
  Unique, granted_permissions-Unique, without_subject-Unique, transferred_permissions-Unique,
}
use collective.Permission.Ownership.{
  transfer_ownership, import_all, import_data_stores, set_cache_ttl,
}
use collective.Permission.Changes.{
  grant_permission-eq-ok, revoke_permission-eq-ok, transfer_ownership-eq-ok,
}

pub data Call : Type 0 where
  creates : Text → FederatedAddress → PlacementStrategy → Call
  grants : Text → FederatedAddress → List Right → Option ℕ → Call
  revokes : Text → FederatedAddress → Call
  transfers : Text → FederatedAddress → FederatedAddress → Call
  imports : List (Option DataStore) → Call
  sets_ttl : ℕ → Call
  checks : Text → FederatedAddress → Right → ℕ → Call

-- A call that fails leaves the manager as it was.
abbrev after : PermissionManager → Result PermissionError PermissionManager → PermissionManager
after pm (ok pm') = pm'
after pm (err e) = pm

unfoldable pub step : PermissionManager → Call → PermissionManager
step pm (creates path owner strategy) = after pm (create_data_store pm path owner strategy)
step pm (grants path s rs v) = after pm (grant_permission pm path s rs v)
step pm (revokes path s) = after pm (revoke_permission pm path s)
step pm (transfers path old new) = after pm (transfer_ownership pm path old new)
step pm (imports stores) = import_data_stores pm stores
step pm (sets_ttl ttl) = set_cache_ttl pm ttl
step pm (checks path s right now) = (check_permission pm path s right now).1

unfoldable pub run : PermissionManager → List Call → PermissionManager
unfolding step
run pm [] = pm
run pm (c ∷ cs) = run (step pm c) cs

-- The data store stands at its own path, and lists no subject twice.
abbrev pub Fits : Text → DataStore → Type 0
Fits key ds = (clean ds.path ≡ key) × Unique ds.permissions

abbrev pub IsWellFormed : PermissionManager → Type 0
IsWellFormed pm = Distinct pm.data_stores × Each Fits pm.data_stores

-- An import brings in data stores that list no subject twice.
abbrev pub IsProper : Call → Type 0
IsProper (imports stores) =
    All (λ o. elim o [ none ↦ Unit {0} | some ds ↦ Unique ds.permissions ]) stores
IsProper (creates path owner strategy) = Unit
IsProper (grants path s rs v) = Unit
IsProper (revokes path s) = Unit
IsProper (transfers path old new) = Unit
IsProper (sets_ttl ttl) = Unit
IsProper (checks path s right now) = Unit

store_back-IsWellFormed :
    (pm : PermissionManager) (key : Text) (ds : DataStore)
    → IsWellFormed pm
    → Fits key ds
    → IsWellFormed (store_back pm key ds)
store_back-IsWellFormed pm key ds w f =
    (insert-Distinct key ds pm.data_stores w.0, Each-insert Fits key ds pm.data_stores f w.1)

after-IsWellFormed :
    (pm : PermissionManager) (r : Result PermissionError PermissionManager)
    → IsWellFormed pm
    → ((pm' : PermissionManager) → r ≡ ok pm' → IsWellFormed pm')
    → IsWellFormed (after pm r)
after-IsWellFormed pm (ok pm') w h = h pm' refl
after-IsWellFormed pm (err e) w h = w

import_all-IsWellFormed :
    (stores : List (Option DataStore)) (m : Dict DataStore)
    → All (λ o. elim o [ none ↦ Unit {0} | some ds ↦ Unique ds.permissions ]) stores
    → Distinct m × Each Fits m
    → Distinct (import_all stores m) × Each Fits (import_all stores m)
unfolding import_all
import_all-IsWellFormed [] m u w = w
import_all-IsWellFormed (none ∷ rest) m u w = import_all-IsWellFormed rest m u.1 w
import_all-IsWellFormed (some ds ∷ rest) m u w =
    import_all-IsWellFormed rest (insert (clean ds.path) ds m) u.1 (
      insert-Distinct (clean ds.path) ds m w.0,
      Each-insert Fits (clean ds.path) ds m (refl, u.0) w.1,
    )

create_data_store-eq-ok :
    (pm pm' : PermissionManager) (path : Text) (owner : FederatedAddress)
    (strategy : PlacementStrategy)
    → create_data_store pm path owner strategy ≡ ok pm'
    → store_back pm (clean path) (new_data_store (clean path) owner strategy) ≡ pm'
unfolding create_data_store
create_data_store-eq-ok pm pm' path owner strategy h = ground arith

-- A check leaves the data stores alone.
pub data_stores-check_permission :
    (pm : PermissionManager) (path : Text) (s : FederatedAddress) (right : Right) (now : ℕ)
    → (check_permission pm path s right now).1.data_stores ≡ pm.data_stores
unfolding check_permission
data_stores-check_permission pm path s right now = ground arith

-- Every call keeps the manager well formed.
step-IsWellFormed :
    (pm : PermissionManager) (c : Call) → IsProper c → IsWellFormed pm → IsWellFormed (step pm c)
unfolding step
step-IsWellFormed pm (creates path owner strategy) p w =
    after-IsWellFormed pm (create_data_store pm path owner strategy) w λ pm' h.
      rw (← create_data_store-eq-ok pm pm' path owner strategy h) (
        store_back-IsWellFormed pm (clean path) (new_data_store (clean path) owner strategy) w
          (clean-clean path, (tt, tt)))
step-IsWellFormed pm (grants path s rs v) p w = after-IsWellFormed pm _ w λ pm' h.
    let (ds, e, f) = grant_permission-eq-ok pm pm' path s rs v h in
    let (k, u) = Each-lookup Fits (clean path) ds pm.data_stores w.1 e in
    rw (← f) (
      store_back-IsWellFormed pm (clean path) _ w
        (k, granted_permissions-Unique s rs v ds.permissions u))
step-IsWellFormed pm (revokes path s) p w = after-IsWellFormed pm _ w λ pm' h.
    let (ds, e, f) = revoke_permission-eq-ok pm pm' path s h in
    let (k, u) = Each-lookup Fits (clean path) ds pm.data_stores w.1 e in
    rw (← f)
      (store_back-IsWellFormed pm (clean path) _ w (k, without_subject-Unique s ds.permissions u))
step-IsWellFormed pm (transfers path old new) p w = after-IsWellFormed pm _ w λ pm' h.
    let (ds, e, o, f) = transfer_ownership-eq-ok pm pm' path old new h in
    let (k, u) = Each-lookup Fits (clean path) ds pm.data_stores w.1 e in
    rw (← f) (
      store_back-IsWellFormed pm (clean path) _ w
        (k, transferred_permissions-Unique new ds.permissions u))
step-IsWellFormed pm (imports stores) p w =
    unfold import_data_stores in import_all-IsWellFormed stores pm.data_stores p w
step-IsWellFormed pm (sets_ttl ttl) p w = unfold set_cache_ttl in w
step-IsWellFormed pm (checks path s right now) p w =
    rw (data_stores-check_permission pm path s right now) w

run_from-IsWellFormed :
    (pm : PermissionManager) (cs : List Call)
    → All IsProper cs
    → IsWellFormed pm
    → IsWellFormed (run pm cs)
unfolding run
run_from-IsWellFormed pm [] p w = w
run_from-IsWellFormed pm (c ∷ cs) p w =
    run_from-IsWellFormed (step pm c) cs p.1 (step-IsWellFormed pm c p.0 w)

-- After any history of calls from the empty manager, each data store stands at the cleaned form of
-- its own path, no key stands twice and no data store lists a subject twice, provided that the
-- imported data stores list none twice.
pub run-IsWellFormed :
    (cs : List Call) → All IsProper cs → IsWellFormed (run new_permission_manager cs)
run-IsWellFormed cs p = run_from-IsWellFormed new_permission_manager cs p (tt, tt)
