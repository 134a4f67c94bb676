-- ===== src/Tests/Permissions.antt =====
-- Data stores, permissions and the verdict cache.
use collective.Prelude.{
  ◌≡◌, ◌≢◌, ◌↔◌, inl, inr, refl, ok, some, none, true, false, List, [], ◌∷◌, arith, All,
}
use collective.Text.{Text, bytes, same, has_prefix, contains}
use collective.Text.Split.{split, join}
use collective.Dict.{lookup, insert}
use collective.FilePath.{clean, clean_step, dir}
use collective.Address.{FederatedAddress, equal, to_text}
use collective.DataStore.{
  right_read, right_write, right_share, right_delete, placement_media, DataStore,
}
use collective.Permission.{
  PermissionManager, new_permission_manager, new_data_store, grant_permission, granted_permissions,
  revoke_permission, without_subject, check_permission, decide_permission, store_verdict,
  find_data_store, check_permissions, subject_matches, cached, cache_key, store_back,
}
use collective.Permission.Lookup.{nearest_or_root, find_data_store-clean}
use collective.Permission.Granted.{IsGranted, Any, Allows, Matches, decide_permission-IsGranted}
use collective.Permission.Cache.{IsSound, check_permission-IsSound, at_domain}
use collective.Permission.Changes.{
  check_permission-grant_permission, check_permission-revoke_permission,
}
use collective.Permission.Ownership.{
  transfer_ownership, transferred_permissions, give_all_rights, is_owner, get_data_store,
}
use collective.Permission.Transfer.{transfer_ownership-expired}
use collective.Permission.Entries.{Dead}
use collective.Permission.Invariant.{
  IsWellFormed, Call, creates, grants, transfers, checks, run, run-IsWellFormed,
}

abbrev alice : FederatedAddress
alice = at_domain (bytes "alice") (bytes "home.local")

abbrev bob : FederatedAddress
bob = at_domain (bytes "bob") (bytes "garage.local")

abbrev media : Text
media = bytes "/media"

-- Bob may read until time 50.
abbrev shelf : DataStore
shelf = record (new_data_store media alice placement_media) {
  permissions =
      record { subject = alice; rights = right_read ∷ right_share ∷ []; valid_until = none }
      ∷ record { subject = bob; rights = right_read ∷ []; valid_until = some 50 }
      ∷ [];
}

abbrev pm : PermissionManager
pm = record { data_stores = (media, shelf) ∷ []; cache = []; cache_ttl = 60 }

bob_reads :
    ((check_permission pm (bytes "/media/./films/a.mkv") bob right_read 50).0 ≡ true)
    × ((check_permission pm (bytes "/media/films") bob right_read 51).0 ≡ false)
    × ((check_permission pm (bytes "/backup/../media") bob right_write 1).0 ≡ false)
    × ((check_permission pm (bytes "/other") alice right_read 1).0 ≡ false)
unfolding check_permission decide_permission store_verdict find_data_store check_permissions
    subject_matches cached cache_key lookup insert clean clean_step dir same has_prefix contains
    split join equal to_text
bob_reads = (refl, refl, refl, refl)

shelf_found : get_data_store pm media ≡ ok shelf
unfolding get_data_store lookup clean clean_step same has_prefix split join
shelf_found = refl

decide_permission-IsGranted_example :
    ((decide_permission pm (bytes "/media/films") bob right_read 7).0 ≡ true)
    ↔ IsGranted (nearest_or_root pm.data_stores (bytes "/media/films")) bob right_read 7
decide_permission-IsGranted_example =
    decide_permission-IsGranted pm (bytes "/media/films") bob right_read 7

find_data_store-clean_example :
    find_data_store pm.data_stores (clean (bytes "/media/films"))
    ≡ nearest_or_root pm.data_stores (bytes "/media/films")
find_data_store-clean_example = find_data_store-clean pm.data_stores (bytes "/media/films")

check_permission-IsSound_example : IsSound (check_permission pm media bob right_read 7).1 7
check_permission-IsSound_example = (check_permission-IsSound pm media bob right_read 7 tt).0

abbrev bob_writes : PermissionManager
bob_writes = store_back pm media (record shelf {
  permissions =
      record { subject = alice; rights = right_read ∷ right_share ∷ []; valid_until = none }
      ∷ record { subject = bob; rights = right_write ∷ []; valid_until = none }
      ∷ [];
})

bob_granted : grant_permission pm media bob (right_write ∷ []) none ≡ ok bob_writes
unfolding grant_permission granted_permissions lookup insert clean clean_step same has_prefix split
    join equal
bob_granted = refl

check_permission-grant_permission_example :
    (check_permission bob_writes media bob right_write 900).0 ≡ true
check_permission-grant_permission_example =
    check_permission-grant_permission pm bob_writes media bob (right_write ∷ []) none right_write
      900 bob_granted (inl refl) tt

abbrev bob_out : PermissionManager
bob_out = store_back pm media (record shelf {
  permissions =
      record { subject = alice; rights = right_read ∷ right_share ∷ []; valid_until = none } ∷ [];
})

bob_revoked : revoke_permission pm media bob ≡ ok bob_out
unfolding revoke_permission without_subject lookup insert clean clean_step same has_prefix split
    join equal
bob_revoked = refl

check_permission-revoke_permission_example :
    ((check_permission bob_out media bob right_read 7).0 ≡ true)
    ↔ Any (λ p. (p.subject ≢ bob) × Allows bob right_read 7 p) shelf.permissions
check_permission-revoke_permission_example =
    check_permission-revoke_permission pm bob_out media bob bob shelf right_read 7 shelf_found
      bob_revoked

abbrev bob_owns : PermissionManager
bob_owns = store_back pm media (record shelf {
  owner = bob;
  permissions =
      record { subject = alice; rights = right_read ∷ right_share ∷ []; valid_until = none }
      ∷ record {
        subject = bob;
        rights = right_read ∷ right_write ∷ right_delete ∷ right_share ∷ [];
        valid_until = some 50;
      }
      ∷ [];
})

bob_takes_over : transfer_ownership pm media alice bob ≡ ok bob_owns
unfolding transfer_ownership transferred_permissions give_all_rights lookup insert clean clean_step
    same has_prefix split join equal
bob_takes_over = refl

-- At time 60 it has expired, and the new owner is refused.
alice_is_not_bob : ¬ Matches alice bob
alice_is_not_bob (inl e) = cc
alice_is_not_bob (inr m) = absurd (cc (m.0))

no_live_entry : All (Dead bob 60) shelf.permissions
no_live_entry = ((λ m. absurd (alice_is_not_bob m)), ((λ m h. omega arith), tt))

transfer_ownership-expired_example :
    (is_owner bob_owns media bob ≡ true)
    × ((check_permission bob_owns media bob right_write 60).0 ≢ true)
transfer_ownership-expired_example =
    transfer_ownership-expired pm bob_owns media alice bob shelf shelf_found bob_takes_over
      right_write 60 (inr (inl refl)) no_live_entry

abbrev history : List Call
history =
    creates media alice placement_media
    ∷ grants media bob (right_read ∷ []) (some 50)
    ∷ transfers media alice bob
    ∷ checks media bob right_read 60
    ∷ []

run-IsWellFormed_example : IsWellFormed (run new_permission_manager history)
run-IsWellFormed_example = run-IsWellFormed history (tt, (tt, (tt, (tt, tt))))
