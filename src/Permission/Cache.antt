-- ===== src/Permission/Cache.antt =====
-- The verdict cache: where a cached verdict comes from, and which requests share one.
use native.Mathlib.Nat.{le_refl}
use collective.Prelude.{
  ℕ, ◌+◌, ◌≤◌, ◌<◌, ◌≡◌, refl, ap, ◌⊎◌, Bool, Option-cases, inl, inr, none, some, List, [], ◌∷◌,
  arith,
}
use collective.Text.{Text}
use collective.Dict.{Dict, lookup, lookup-insert_self}
use collective.Dict.Keys.{Each, Each-insert, Each-lookup}
use collective.Address.{FederatedAddress}
use collective.DataStore.{Right}
use collective.Permission.{
  PermissionManager, CacheEntry, cache_key, cached, check_permission, decide_permission,
  update_cache,
}

-- The present permissions gave this verdict to a request with this key, at a time before now.
abbrev pub Explained : PermissionManager → Text → Bool → ℕ → ℕ → Type 0
Explained pm key verdict expires now =
    (path : Text) × (s : FederatedAddress) × (right : Right) × (at : ℕ) × (key
      ≡ cache_key path s right)
    × (verdict ≡ (decide_permission pm path s right at).0)
    × (at ≤ now)
    × (expires ≡ at + pm.cache_ttl)

abbrev pub IsSound : PermissionManager → ℕ → Type 0
IsSound pm now = Each (λ key e. Explained pm key e.allowed e.expires_at now) pm.cache

module _ (pm : PermissionManager) (path : Text) (s : FederatedAddress) (right : Right)
    (now : ℕ) where
  check_miss :
      cached pm (cache_key path s right) now ≡ none
      → check_permission pm path s right now ≡ (
        (decide_permission pm path s right now).0,
        update_cache pm
            (cache_key path s right)
            (decide_permission pm path s right now).0
            (decide_permission pm path s right now).1
            now,
      )
  unfolding check_permission
  check_miss h = rw (h, check_permission) refl

  check_hit :
      (v : Bool)
      → cached pm (cache_key path s right) now ≡ some v
      → check_permission pm path s right now ≡ (v, pm)
  unfolding check_permission
  check_hit v h = rw (h, check_permission) refl

cached-update_cache :
    (pm : PermissionManager) (key : Text) (v : Bool) (rs : List Right) (now later : ℕ)
    → later < now + pm.cache_ttl
    → cached (update_cache pm key v rs now) key later ≡ some v
unfolding cached
cached-update_cache pm key v rs now later h = ground (
  arith,
  lookup-insert_self key (record { allowed = v; rights = rs; expires_at = now + pm.cache_ttl })
      pm.cache,
)

-- A verdict that was just computed is the answer to every request with the same key until the time
-- to live is over, whatever the permissions say of that request.
pub check_permission_shared_key :
    (pm : PermissionManager) (path path' : Text) (s s' : FederatedAddress) (right right' : Right)
    (now later : ℕ)
    → cached pm (cache_key path s right) now ≡ none
    → cache_key path' s' right' ≡ cache_key path s right
    → later < now + pm.cache_ttl
    → (check_permission (check_permission pm path s right now).1 path' s' right' later).0
      ≡ (decide_permission pm path s right now).0
check_permission_shared_key pm path path' s s' right right' now later miss k h =
    rw (check_miss pm path s right now miss) (
      ap (λ r. r.0)
        (check_hit _ path' s' right' later _
          (rw k (cached-update_cache pm (cache_key path s right) _ _ now later h))))

abbrev pub at_domain : Text → Text → FederatedAddress
at_domain l d = record { local_part = l; domain = d; resource = [] }

Explained-later :
    (pm : PermissionManager) (key : Text) (v : Bool) (e now later : ℕ)
    → now ≤ later
    → Explained pm key v e now
    → Explained pm key v e later
Explained-later pm key v e now later h (path, s, right, at, k, q, t, x) =
    (path, s, right, at, k, q, omega arith, x)

IsSound-later :
    (pm : PermissionManager) (m : Dict CacheEntry) (now later : ℕ)
    → now ≤ later
    → Each (λ key e. Explained pm key e.allowed e.expires_at now) m
    → Each (λ key e. Explained pm key e.allowed e.expires_at later) m
IsSound-later pm [] now later h c = tt
IsSound-later pm ((k, e) ∷ m) now later h c = (
  Explained-later pm k e.allowed e.expires_at now later h c.0,
  IsSound-later pm m now later h c.1,
)

cached-Explained :
    (pm : PermissionManager) (key : Text) (v : Bool) (now : ℕ)
    → IsSound pm now
    → cached pm key now ≡ some v
    → (expires : ℕ) × Explained pm key v expires now × (now < expires)
unfolding cached
cached-Explained pm key v now sound h = elim (Option-cases (lookup key pm.cache)) [
  | inl e ↦ absurd (ground arith)
  | inr (entry, e) ↦
      let x =
        Each-lookup (λ key e. Explained pm key e.allowed e.expires_at now) key entry pm.cache sound
          e in
      let q : entry.allowed ≡ v = ground arith in (entry.expires_at, rw q at x, ground arith)
]

fresh_entry :
    (pm : PermissionManager) (path : Text) (s : FederatedAddress) (right : Right) (now : ℕ)
    → IsSound pm now
    → IsSound
        (update_cache pm
          (cache_key path s right)
          (decide_permission pm path s right now).0
          (decide_permission pm path s right now).1
          now)
        now
unfolding decide_permission
fresh_entry pm path s right now sound =
    Each-insert (λ key e. Explained pm key e.allowed e.expires_at now) (cache_key path s right)
      (record {
        allowed = (decide_permission pm path s right now).0;
        rights = (decide_permission pm path s right now).1;
        expires_at = now + pm.cache_ttl;
      })
      pm.cache (path, s, right, now, refl, refl, le_refl now, refl) sound

-- Every check keeps the cache sound, and its own answer is one that the present permissions gave to
-- a request with the same key, now or less than the time to live ago.
pub check_permission-IsSound :
    (pm : PermissionManager) (path : Text) (s : FederatedAddress) (right : Right) (now : ℕ)
    → IsSound pm now
    → IsSound (check_permission pm path s right now).1 now
      × ((expires : ℕ) × Explained pm
            (cache_key path s right)
            (check_permission pm path s right now).0
            expires
            now
          × ((now < expires) ⊎ (expires ≡ now + pm.cache_ttl)))
check_permission-IsSound pm path s right now sound =
    elim (Option-cases (cached pm (cache_key path s right) now)) [
      | inl e ↦ rw (check_miss pm path s right now e) (
        fresh_entry pm path s right now sound,
        (now + pm.cache_ttl, (path, s, right, now, refl, refl, le_refl now, refl), inr refl),
      )
      | inr (v, e) ↦
          let (t, x, l) = cached-Explained pm (cache_key path s right) v now sound e in
          rw (check_hit pm path s right now v e) (sound, (t, x, inl l))
    ]
