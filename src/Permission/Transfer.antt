-- ===== src/Permission/Transfer.antt =====
-- Who may do what after a transfer of ownership.
use collective.Prelude.{ℕ, ◌≡◌, ◌≢◌, ap, ◌∙◌, true, arith, All, ok}
use collective.Text.{Text}
use collective.FilePath.{clean}
use collective.Address.{FederatedAddress, same_address_iff}
use collective.DataStore.{Right, DataStore}
use collective.Permission.{PermissionManager, all_rights, check_permission, store_back}
use collective.Permission.Granted.{Any, IsLive}
use collective.Permission.Entries.{
  Dead, transferred_permissions-Allows, transferred_permissions-Dead,
}
use collective.Permission.Ownership.{
  transfer_ownership, transferred_permissions, is_owner, get_data_store,
}
use collective.Permission.Changes.{
  transfer_ownership-eq-ok, check_stored, stored_at, find_or_fail-eq-ok,
}

is_owner_stored :
    (pm : PermissionManager) (path : Text) (ds : DataStore)
    → is_owner (store_back pm (clean path) ds) path ds.owner ≡ true
unfolding is_owner
is_owner_stored pm path ds =
    ground (arith, stored_at pm (clean path) ds, same_address_iff ds.owner ds.owner)

module _ (pm pm' : PermissionManager) (path : Text) (old new : FederatedAddress) (ds : DataStore)
    (found : get_data_store pm path ≡ ok ds)
    (moved : transfer_ownership pm path old new ≡ ok pm') where
  moved_to :
      store_back pm
        (clean path)
        (record ds { owner = new; permissions = transferred_permissions new ds.permissions })
      ≡ pm'
  unfolding get_data_store
  moved_to =
      let (ds', e, o, f) = transfer_ownership-eq-ok pm pm' path old new moved in
      let q : ds ≡ ds' = cc (e, find_or_fail-eq-ok pm (clean path) ds found) in rw q f

  -- A transfer that succeeds was asked for by the owner. If the new owner has no entry that has
  -- expired, it owns the store and has every right at its path.
  transfer_ownership-rights :
      (right : Right) (now : ℕ)
      → Any (λ r. r ≡ right) all_rights
      → All (λ p. (p.subject ≡ new) → IsLive p.valid_until now) ds.permissions
      → (ds.owner ≡ old)
        × (is_owner pm' path new ≡ true)
        × ((check_permission pm' path new right now).0 ≡ true)
  unfolding get_data_store
  transfer_ownership-rights right now h live = (
    (let (ds', e, o, f) = transfer_ownership-eq-ok pm pm' path old new moved in
        let q : ds ≡ ds' = cc (e, find_or_fail-eq-ok pm (clean path) ds found) in
        ap (λ d. d.owner) q ∙ o),
    rw (← moved_to) (is_owner_stored pm path _),
    rw (← moved_to) (
        (check_stored pm path _ new right now).1
          (transferred_permissions-Allows new ds.permissions right now h live)),
  )

  -- If the new owner has an entry, and every entry that applies to it has expired, it owns the store
  -- after the transfer and is still refused every right there: the transfer gives the rights and
  -- leaves the old term.
  pub transfer_ownership-expired :
      (right : Right) (now : ℕ)
      → Any (λ p. p.subject ≡ new) ds.permissions
      → All (Dead new now) ds.permissions
      → (is_owner pm' path new ≡ true) × ((check_permission pm' path new right now).0 ≢ true)
  transfer_ownership-expired right now m dead = (
    rw (← moved_to) (is_owner_stored pm path _),
    rw (← moved_to) (λ a.
        transferred_permissions-Dead new ds.permissions right now m dead
          ((check_stored pm path _ new right now).0 a)),
  )
