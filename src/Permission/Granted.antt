-- ===== src/Permission/Granted.antt =====
-- What a verdict means: `decide_permission` against an independent reading of the permissions.
use mathlib.Core.List.{tail}
use collective.Prelude.{
  ℕ, ◌≤◌, ◌≡◌, ◌↔◌, refl, ap, ◌∙◌, ◌⊎◌, Bool, true, not, and_iff, or_iff, ◌&&◌, ◌||◌, Option, none,
  some, List, [], ◌∷◌, ◌++◌, arith, any,
}
use collective.Text.{Text, bytes, same, same_iff, has_prefix, has_suffix}
use collective.Text.Affix.{
  has_prefix-append, has_prefix-eq-append, has_suffix-append, has_suffix-eq-append,
}
use collective.Address.{FederatedAddress, same_address_iff}
use collective.DataStore.{Right, Permission, DataStore}
use collective.Permission.{
  PermissionManager, has_expired, holds_right, subject_matches, check_permissions, store_verdict,
  decide_permission,
}
use collective.Permission.Lookup.{nearest_or_root, find_data_store-clean}

-- Some entry satisfies the predicate.
abbrev pub Any {ℓ} : {A : Type ℓ} → (A → Type 0) → List A → Type 0
Any P [] = ⊥
Any P (x ∷ xs) = P x ⊎ Any P xs

-- A domain with a pattern `*.d` covers every domain that ends in `.d`.
abbrev pub Covers : Text → Text → Type 0
Covers pattern domain =
    (d : Text) × (pre : Text) × (pattern ≡ bytes "*." ++ d) × (domain ≡ pre ++ (b'.' ∷ d))

-- The subject of a permission is the caller, or a wildcard for the caller's domain.
abbrev pub Matches : FederatedAddress → FederatedAddress → Type 0
Matches perm subject =
    (perm ≡ subject)
    ⊎ ((perm.local_part ≡ bytes "*")
        × ((perm.domain ≡ subject.domain) ⊎ Covers perm.domain subject.domain))

abbrev pub IsLive : Option ℕ → ℕ → Type 0
IsLive none now = Unit
IsLive (some until) now = now ≤ until

abbrev pub Allows : FederatedAddress → Right → ℕ → Permission → Type 0
Allows subject right now p =
    IsLive p.valid_until now × (Matches p.subject subject × Any (λ r. r ≡ right) p.rights)

-- A data store answers for the path, and one of its permissions allows the request.
abbrev pub IsGranted : Option DataStore → FederatedAddress → Right → ℕ → Type 0
IsGranted none subject right now = ⊥
IsGranted (some ds) subject right now = Any (Allows subject right now) ds.permissions

not_expired_iff : (o : Option ℕ) (now : ℕ) → (not (has_expired o now) ≡ true) ↔ IsLive o now
not_expired_iff none now = ground arith
not_expired_iff (some t) now = ground arith

right_iff :
    (rs : List Right) (right : Right)
    → (any (λ r. same r right) rs ≡ true) ↔ Any (λ r. r ≡ right) rs
right_iff [] right = ground arith
right_iff (r ∷ rs) right = or_iff _ _ (same_iff r right) (right_iff rs right)

pattern_iff :
    (pattern domain : Text)
    → ((has_prefix pattern (bytes "*.") && has_suffix domain (tail pattern)) ≡ true)
      ↔ Covers pattern domain
pattern_iff pattern domain = (
  λ h.
      let (a, b) =
        (and_iff (has_prefix pattern (bytes "*.")) _ (λ x. x, λ x. x) (λ x. x, λ x. x)).0 h in
      let (d, e) = has_prefix-eq-append pattern (bytes "*.") a in
      let (pre, f) = has_suffix-eq-append domain (tail pattern) b in
      (d, pre, e, f ∙ ap (λ t. pre ++ tail t) e),
  λ (d, pre, e, f).
      rw (e, f, has_prefix-append (bytes "*.") d, has_suffix-append pre (b'.' ∷ d)) refl,
)

subject_matches_iff :
    (perm subject : FederatedAddress) → (subject_matches perm subject ≡ true) ↔ Matches perm subject
unfolding subject_matches
subject_matches_iff perm subject = or_iff _ _ (same_address_iff perm subject) (
    and_iff _ _ (same_iff perm.local_part (bytes "*"))
      (or_iff _ _ (same_iff perm.domain subject.domain) (pattern_iff perm.domain subject.domain)))

-- One entry of the loop, as one test.
abbrev entry_test : FederatedAddress → Right → ℕ → Permission → Bool
entry_test subject right now p =
    not (has_expired p.valid_until now)
    && (subject_matches p.subject subject && holds_right p right)

entry_iff :
    (subject : FederatedAddress) (right : Right) (now : ℕ) (p : Permission)
    → (entry_test subject right now p ≡ true) ↔ Allows subject right now p
entry_iff subject right now p =
    and_iff _ _ (not_expired_iff p.valid_until now)
      (and_iff _ _ (subject_matches_iff p.subject subject) (right_iff p.rights right))

check_permissions_cons :
    (p : Permission) (ps : List Permission) (subject : FederatedAddress) (right : Right) (now : ℕ)
    → (check_permissions (p ∷ ps) subject right now).0
      ≡ (entry_test subject right now p || (check_permissions ps subject right now).0)
unfolding check_permissions
check_permissions_cons p ps subject right now = ground arith

check_permissions_iff :
    (ps : List Permission) (subject : FederatedAddress) (right : Right) (now : ℕ)
    → ((check_permissions ps subject right now).0 ≡ true) ↔ Any (Allows subject right now) ps
check_permissions_iff [] subject right now = unfold check_permissions in ground arith
check_permissions_iff (p ∷ ps) subject right now =
    rw (check_permissions_cons p ps subject right now)
      (or_iff _ _ (entry_iff subject right now p) (check_permissions_iff ps subject right now))

store_verdict_iff :
    (o : Option DataStore) (subject : FederatedAddress) (right : Right) (now : ℕ)
    → ((store_verdict o subject right now).0 ≡ true) ↔ IsGranted o subject right now
unfolding store_verdict
store_verdict_iff none subject right now = ground arith
store_verdict_iff (some ds) subject right now =
    check_permissions_iff ds.permissions subject right now

decide_permission-eq-store_verdict :
    (pm : PermissionManager) (path : Text) (subject : FederatedAddress) (right : Right) (now : ℕ)
    → decide_permission pm path subject right now
      ≡ store_verdict (nearest_or_root pm.data_stores path) subject right now
unfolding decide_permission
decide_permission-eq-store_verdict pm path subject right now =
    ap (λ o. store_verdict o subject right now) (find_data_store-clean pm.data_stores path)

-- A request that is decided behind the cache is allowed exactly when the nearest data store above
-- its path has a live permission for the caller, or for a wildcard of the caller's domain, with the
-- right that is asked for.
pub decide_permission-IsGranted :
    (pm : PermissionManager) (path : Text) (subject : FederatedAddress) (right : Right) (now : ℕ)
    → ((decide_permission pm path subject right now).0 ≡ true)
      ↔ IsGranted (nearest_or_root pm.data_stores path) subject right now
decide_permission-IsGranted pm path subject right now =
    rw (decide_permission-eq-store_verdict pm path subject right now)
      (store_verdict_iff (nearest_or_root pm.data_stores path) subject right now)
