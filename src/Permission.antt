-- ===== src/Permission.antt =====
-- pkg/federation/permissions.go: the PermissionManager. A method that may fail returns the new
-- manager or an error, and has changed nothing where it fails. The clock is read once in a call,
-- and its reading is an argument. Subjects and owners are addresses that are not nil.
pub mod Lookup
pub mod Granted
pub mod Changes
pub mod Cache
pub mod Entries
pub mod Transfer
pub mod Invariant
pub mod Ownership
use mathlib.Core.List.{tail}
use mathlib.Core.Option
use collective.Prelude.{
  ℕ, zero, suc, ◌+◌, Bool, true, false, not, ◌&&◌, ◌||◌, Option, none, some, List, [], ◌∷◌, ◌++◌,
  map, if◌then◌else◌, ltb, length, any, keep, Result, ok, err, ◌>>=◌, ◌>>◌, refuse_if,
}
use collective.Text.{Text, bytes, same, has_prefix, has_suffix}
use collective.Dict.{Dict, lookup, insert, is_some}
use collective.FilePath.{clean, dir}
use collective.Address.{FederatedAddress, same_address, to_text}
use collective.DataStore.{
  Right, right_read, right_write, right_delete, right_share, PlacementStrategy, Permission,
  DataStore,
}

-- permissionCacheEntry
pub record CacheEntry : Type 0 where
  pub allowed : Bool
  pub rights : List Right
  pub expires_at : ℕ

pub record PermissionManager : Type 0 where
  pub data_stores : Dict DataStore
  pub cache : Dict CacheEntry
  pub cache_ttl : ℕ

pub data PermissionError : Type 0 where
  already_exists not_found not_owner : PermissionError

-- NewPermissionManager; the time to live is a minute
abbrev pub new_permission_manager : PermissionManager
new_permission_manager = record { data_stores = []; cache = []; cache_ttl = 60000000000 }

abbrev pub all_rights : List Right
all_rights = right_read ∷ right_write ∷ right_delete ∷ right_share ∷ []

-- clearCache
abbrev clear_cache : PermissionManager → PermissionManager
clear_cache pm = record pm { cache = [] }

-- updateCache
abbrev update_cache : PermissionManager → Text → Bool → List Right → ℕ → PermissionManager
update_cache pm key allowed rights now = record pm {
  cache =
      insert key (record { allowed = allowed; rights = rights; expires_at = now + pm.cache_ttl })
        pm.cache;
}

-- Writes back a data store that was found at the path, and clears the cache.
abbrev pub store_back : PermissionManager → Text → DataStore → PermissionManager
store_back pm path ds = clear_cache (record pm { data_stores = insert path ds pm.data_stores })

abbrev find_or_fail : PermissionManager → Text → Result PermissionError DataStore
find_or_fail pm path = elim (lookup path pm.data_stores) [ none ↦ err not_found | some ds ↦ ok ds ]

-- The data store that CreateDataStore makes: two replicas, and every right for its owner.
abbrev pub new_data_store : Text → FederatedAddress → PlacementStrategy → DataStore
new_data_store path owner strategy = record {
  path = path;
  owner = owner;
  permissions = record { subject = owner; rights = all_rights; valid_until = none } ∷ [];
  replicas = 2;
  strategy = strategy;
  metadata = [];
}

-- CreateDataStore
unfoldable pub create_data_store :
    PermissionManager
    → Text
    → FederatedAddress
    → PlacementStrategy
    → Result PermissionError PermissionManager
create_data_store pm path owner strategy = do
  refuse_if (is_some (lookup (clean path) pm.data_stores)) already_exists
  ok (store_back pm (clean path) (new_data_store (clean path) owner strategy))

-- The loop of GrantPermission: the first entry of the subject gets the rights and the term.
unfoldable pub regrant :
    FederatedAddress → List Right → Option ℕ → List Permission → Option (List Permission)
regrant subject rights valid_until [] = none
regrant subject rights valid_until (p ∷ ps) =
    let rest = Option.map (λ qs. p ∷ qs) (regrant subject rights valid_until ps) in
    if same_address p.subject subject
    then some (record p { rights = rights; valid_until = valid_until } ∷ ps)
    else rest

-- The permissions after a grant: an entry updated, or a new one at the end.
unfoldable pub granted_permissions :
    FederatedAddress → List Right → Option ℕ → List Permission → List Permission
unfolding regrant
granted_permissions subject rights valid_until ps = elim (regrant subject rights valid_until ps) [
  | some qs ↦ qs
  | none ↦ ps ++ (record { subject = subject; rights = rights; valid_until = valid_until } ∷ [])
]

-- GrantPermission
unfoldable pub grant_permission :
    PermissionManager
    → Text
    → FederatedAddress
    → List Right
    → Option ℕ
    → Result PermissionError PermissionManager
grant_permission pm path subject rights valid_until = do
  ds ← find_or_fail pm (clean path)
  ok (
      store_back pm (clean path)
        (record ds { permissions = granted_permissions subject rights valid_until ds.permissions }))

-- The loop of RevokePermission.
unfoldable pub without_subject : FederatedAddress → List Permission → List Permission
without_subject subject ps = keep (λ p. not (same_address p.subject subject)) ps

-- RevokePermission
unfoldable pub revoke_permission :
    PermissionManager → Text → FederatedAddress → Result PermissionError PermissionManager
revoke_permission pm path subject = do
  ds ← find_or_fail pm (clean path)
  ok (
      store_back pm (clean path)
        (record ds { permissions = without_subject subject ds.permissions }))

-- subjectMatches
unfoldable pub subject_matches : FederatedAddress → FederatedAddress → Bool
unfolding has_prefix has_suffix
subject_matches perm subject =
    same_address perm subject
    || same perm.local_part (bytes "*")
      && (same perm.domain subject.domain
          || has_prefix perm.domain (bytes "*.") && has_suffix subject.domain (tail perm.domain))

-- `perm.ValidUntil != nil && now.After(*perm.ValidUntil)`
abbrev pub has_expired : Option ℕ → ℕ → Bool
has_expired none now = false
has_expired (some until) now = ltb until now

abbrev pub holds_right : Permission → Right → Bool
holds_right p right = any (λ r. same r right) p.rights

-- checkDataStorePermission, over the list of permissions
unfoldable pub check_permissions :
    List Permission → FederatedAddress → Right → ℕ → Bool × List Right
check_permissions [] subject right now = (false, [])
check_permissions (p ∷ ps) subject right now =
    let rest = check_permissions ps subject right now in
    if has_expired p.valid_until now
    then rest
    else if subject_matches p.subject subject && holds_right p right
    then (true, p.rights)
    else rest

-- `parent != "/" && parent != "."` fails
abbrev pub is_top : Text → Bool
is_top p = same p (bytes "/") || same p (bytes ".")

-- The loop of findDataStore, with fuel.
unfoldable pub climb : ℕ → Text → Dict DataStore → Option DataStore
climb zero parent stores = none
climb (suc fuel) parent stores = elim (is_top parent) [
  | true ↦ none
  | false ↦ elim (lookup (dir parent) stores) [
    | some ds ↦ some ds
    | none ↦ climb fuel (dir parent) stores
  ]
]

-- findDataStore; a path has no more parts than bytes, so its length is fuel enough
unfoldable pub find_data_store : Dict DataStore → Text → Option DataStore
unfolding climb
find_data_store stores path = elim (lookup path stores) [
  | some ds ↦ some ds
  | none ↦ elim (climb (length path) path stores) [
    | some ds ↦ some ds
    | none ↦ lookup (bytes "/") stores
  ]
]

-- fmt.Sprintf("%s:%s:%s", path, subject.String(), right)
unfoldable pub cache_key : Text → FederatedAddress → Right → Text
cache_key path subject right = path ++ (b':' ∷ (to_text (some subject) ++ (b':' ∷ right)))

-- No data store found: deny. Otherwise its permissions decide.
unfoldable pub store_verdict : Option DataStore → FederatedAddress → Right → ℕ → Bool × List Right
store_verdict none subject right now = (false, [])
store_verdict (some ds) subject right now = check_permissions ds.permissions subject right now

-- The check behind the cache: the verdict and the rights.
unfoldable pub decide_permission :
    PermissionManager → Text → FederatedAddress → Right → ℕ → Bool × List Right
decide_permission pm path subject right now =
    store_verdict (find_data_store pm.data_stores (clean path)) subject right now

-- A cached verdict that has not expired.
unfoldable pub cached : PermissionManager → Text → ℕ → Option Bool
cached pm key now = elim (lookup key pm.cache) [
  | none ↦ none
  | some entry ↦ if ltb now entry.expires_at then some entry.allowed else none
]

-- CheckPermission; it never returns an error
unfoldable pub check_permission :
    PermissionManager → Text → FederatedAddress → Right → ℕ → Bool × PermissionManager
check_permission pm path subject right now =
    let key = cache_key path subject right in
    elim (cached pm key now) [
      | some allowed ↦ (allowed, pm)
      | none ↦
          let (allowed, rights) = decide_permission pm path subject right now in
          (allowed, update_cache pm key allowed rights now)
    ]
