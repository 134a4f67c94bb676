-- ===== src/Permission/Changes.antt =====
-- What each change of a data store does to the verdicts that follow it.
use collective.Prelude.{
  ℕ, ◌≡◌, ◌≢◌, ◌↔◌, refl, sym, ap, ◌∙◌, ◌⊎◌, inl, inr, Bool, true, Option-cases, Option, none, some,
  List, [], ◌∷◌, arith, ok, err, bind-eq-ok, ok-injective, iff_trans,
}
use collective.Text.{Text}
use collective.Dict.{Dict, lookup, lookup-insert_self}
use collective.FilePath.{clean, is_abs, stack_of, render}
use collective.FilePath.Parent.{clean_from}
use collective.Address.{FederatedAddress, same_address_iff}
use collective.DataStore.{Right, PlacementStrategy, DataStore}
use collective.Permission.{
  PermissionManager, already_exists, all_rights, create_data_store, grant_permission,
  granted_permissions, revoke_permission, without_subject, decide_permission, check_permission,
  new_data_store, find_or_fail, cached, store_back,
}
use collective.Permission.Lookup.{nearest, nearest_or_root}
use collective.Permission.Granted.{Any, IsLive, Allows, decide_permission-IsGranted}
use collective.Permission.Entries.{granted_permissions-Allows, without_subject-Any}
use collective.Permission.Ownership.{transfer_ownership, transferred_permissions, get_data_store}

nearest_self :
    (stores : Dict DataStore) (rooted : Bool) (st : List Text) (ds : DataStore)
    → lookup (render rooted st) stores ≡ some ds
    → nearest stores rooted st ≡ some ds
nearest_self stores rooted [] ds h = h
nearest_self stores rooted (p ∷ st) ds h = ground arith

-- A store at the path itself answers for it.
nearest_or_root_self :
    (stores : Dict DataStore) (path : Text) (ds : DataStore)
    → lookup (clean path) stores ≡ some ds
    → nearest_or_root stores path ≡ some ds
nearest_or_root_self stores path ds h = ground (
  arith,
  nearest_self stores (is_abs path) (stack_of path) ds
      (ap (λ p. lookup p stores) (sym (clean_from path _ _ refl refl)) ∙ h),
)

-- Verdicts over a store that stands at the path, in terms of its permissions.
decide_at :
    (pm : PermissionManager) (path : Text) (ds : DataStore) (s : FederatedAddress) (right : Right)
    (now : ℕ)
    → lookup (clean path) pm.data_stores ≡ some ds
    → ((decide_permission pm path s right now).0 ≡ true) ↔ Any (Allows s right now) ds.permissions
decide_at pm path ds s right now h =
    rw (nearest_or_root_self pm.data_stores path ds h) at
      (decide_permission-IsGranted pm path s right now)

pub check_fresh :
    (pm : PermissionManager) (path : Text) (s : FederatedAddress) (right : Right) (now : ℕ)
    → pm.cache ≡ []
    → (check_permission pm path s right now).0 ≡ (decide_permission pm path s right now).0
unfolding check_permission cached lookup
check_fresh pm path s right now h = ground arith

-- The manager after a change that was written back.
stored_cache :
    (pm : PermissionManager) (path : Text) (ds : DataStore) → (store_back pm path ds).cache ≡ []
stored_cache pm path ds = refl

pub stored_at :
    (pm : PermissionManager) (path : Text) (ds : DataStore)
    → lookup path (store_back pm path ds).data_stores ≡ some ds
stored_at pm path ds = lookup-insert_self path ds pm.data_stores

pub check_stored :
    (pm : PermissionManager) (path : Text) (ds : DataStore) (s : FederatedAddress) (right : Right)
    (now : ℕ)
    → ((check_permission (store_back pm (clean path) ds) path s right now).0 ≡ true)
      ↔ Any (Allows s right now) ds.permissions
check_stored pm path ds s right now =
    rw (check_fresh (store_back pm (clean path) ds) path s right now refl)
      (decide_at (store_back pm (clean path) ds) path ds s right now (stored_at pm (clean path) ds))

pub find_or_fail-eq-ok :
    (pm : PermissionManager) (path : Text) (ds : DataStore)
    → find_or_fail pm path ≡ ok ds
    → lookup path pm.data_stores ≡ some ds
find_or_fail-eq-ok pm path ds h = ground arith

pub grant_permission-eq-ok :
    (pm pm' : PermissionManager) (path : Text) (s : FederatedAddress) (rs : List Right)
    (v : Option ℕ)
    → grant_permission pm path s rs v ≡ ok pm'
    → (ds : DataStore) × (lookup (clean path) pm.data_stores ≡ some ds)
      × (store_back pm
            (clean path)
            (record ds { permissions = granted_permissions s rs v ds.permissions })
          ≡ pm')
unfolding grant_permission
grant_permission-eq-ok pm pm' path s rs v g =
    let (ds, e, f) = bind-eq-ok (find_or_fail pm (clean path)) _ g in
    (ds, find_or_fail-eq-ok pm (clean path) ds e, ok-injective f)

-- A grant takes effect at once: the next check of the subject at the path, for a right that was
-- granted and before the term ends, is allowed.
pub check_permission-grant_permission :
    (pm pm' : PermissionManager) (path : Text) (s : FederatedAddress) (rs : List Right)
    (v : Option ℕ) (right : Right) (now : ℕ)
    → grant_permission pm path s rs v ≡ ok pm'
    → Any (λ r. r ≡ right) rs
    → IsLive v now
    → (check_permission pm' path s right now).0 ≡ true
check_permission-grant_permission pm pm' path s rs v right now g h live =
    let (ds, e, f) = grant_permission-eq-ok pm pm' path s rs v g in
    rw (← f) (
      (check_stored pm path _ s right now).1
        (granted_permissions-Allows s rs v ds.permissions right now h live))

pub revoke_permission-eq-ok :
    (pm pm' : PermissionManager) (path : Text) (s : FederatedAddress)
    → revoke_permission pm path s ≡ ok pm'
    → (ds : DataStore) × (lookup (clean path) pm.data_stores ≡ some ds)
      × (store_back pm (clean path) (record ds { permissions = without_subject s ds.permissions })
          ≡ pm')
unfolding revoke_permission
revoke_permission-eq-ok pm pm' path s g =
    let (ds, e, f) = bind-eq-ok (find_or_fail pm (clean path)) _ g in
    (ds, find_or_fail-eq-ok pm (clean path) ds e, ok-injective f)

-- After a revocation the check at the path allows a caller exactly what the entries of other
-- subjects allowed before: nothing of the revoked subject's own entry is left, and no other entry
-- is lost.
pub check_permission-revoke_permission :
    (pm pm' : PermissionManager) (path : Text) (s caller : FederatedAddress) (ds : DataStore)
    (right : Right) (now : ℕ)
    → get_data_store pm path ≡ ok ds
    → revoke_permission pm path s ≡ ok pm'
    → ((check_permission pm' path caller right now).0 ≡ true)
      ↔ Any (λ p. (p.subject ≢ s) × Allows caller right now p) ds.permissions
unfolding get_data_store
check_permission-revoke_permission pm pm' path s caller ds right now d g =
    let (ds', e, f) = revoke_permission-eq-ok pm pm' path s g in
    let q : ds' ≡ ds = cc (e, find_or_fail-eq-ok pm (clean path) ds d) in
    rw (← f, q)
      (iff_trans (check_stored pm path _ caller right now)
        (without_subject-Any s (Allows caller right now) ds.permissions))

-- A data store can be created exactly at a path that has none, and its owner then has every right
-- there at any time.
check_permission-create_data_store :
    (pm : PermissionManager) (path : Text) (owner : FederatedAddress) (strategy : PlacementStrategy)
    (right : Right) (now : ℕ)
    → Any (λ r. r ≡ right) all_rights
    → ((lookup (clean path) pm.data_stores ≢ none)
        × (create_data_store pm path owner strategy ≡ err already_exists))
      ⊎ ((lookup (clean path) pm.data_stores ≡ none)
          × ((pm' : PermissionManager) × (create_data_store pm path owner strategy ≡ ok pm')
              × ((check_permission pm' path owner right now).0 ≡ true)))
unfolding create_data_store
check_permission-create_data_store pm path owner strategy right now h =
    elim (Option-cases (lookup (clean path) pm.data_stores)) [
      | inl e ↦ inr (
        e,
        (
          store_back pm (clean path) (new_data_store (clean path) owner strategy),
          rw e refl,
          (check_stored pm path (new_data_store (clean path) owner strategy) owner right now).1
              (inl (tt, (inl refl, h))),
        ),
      )
      | inr (ds, e) ↦ inl ((λ q. cc (q, e)), rw e refl)
    ]

pub transfer_ownership-eq-ok :
    (pm pm' : PermissionManager) (path : Text) (old new : FederatedAddress)
    → transfer_ownership pm path old new ≡ ok pm'
    → (ds : DataStore) × (lookup (clean path) pm.data_stores ≡ some ds)
      × (ds.owner ≡ old)
      × (store_back pm
            (clean path)
            (record ds { owner = new; permissions = transferred_permissions new ds.permissions })
          ≡ pm')
unfolding transfer_ownership
transfer_ownership-eq-ok pm pm' path old new g =
    let (ds, e, f) = bind-eq-ok (find_or_fail pm (clean path)) _ g in
    (
      ds,
      find_or_fail-eq-ok pm (clean path) ds e,
      (same_address_iff ds.owner old).0 (ground arith),
      ground arith,
    )
