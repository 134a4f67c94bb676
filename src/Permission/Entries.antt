-- ===== src/Permission/Entries.antt =====
-- What grants, revocations and transfers do to the list of permissions of one data store.
use collective.Prelude.{
  ℕ, ◌≡◌, ◌≢◌, ◌↔◌, refl, sym, inl, inr, Bool-cases, Option, List, [], ◌∷◌, arith, if◌then◌else◌,
  All,
}
use collective.Address.{FederatedAddress, same_address, same_address_iff}
use collective.DataStore.{Right, Permission}
use collective.Permission.{all_rights, granted_permissions, without_subject}
use collective.Permission.Granted.{Any, Allows, IsLive, Matches}
use collective.Permission.Ownership.{transferred_permissions}

granted_cons :
    (s : FederatedAddress) (rs : List Right) (v : Option ℕ) (p : Permission) (ps : List Permission)
    → granted_permissions s rs v (p ∷ ps) ≡ (
        if same_address p.subject s
        then record p { rights = rs; valid_until = v } ∷ ps
        else p ∷ granted_permissions s rs v ps)
unfolding granted_permissions
granted_cons s rs v p ps = ground arith

transferred_cons :
    (s : FederatedAddress) (p : Permission) (ps : List Permission)
    → transferred_permissions s (p ∷ ps) ≡ (
        if same_address p.subject s
        then record p { rights = all_rights } ∷ ps
        else p ∷ transferred_permissions s ps)
unfolding transferred_permissions
transferred_cons s p ps = ground arith

-- The entry that a grant leaves allows the subject what was granted.
pub granted_permissions-Allows :
    (s : FederatedAddress) (rs : List Right) (v : Option ℕ) (ps : List Permission) (right : Right)
    (now : ℕ)
    → Any (λ r. r ≡ right) rs
    → IsLive v now
    → Any (Allows s right now) (granted_permissions s rs v ps)
granted_permissions-Allows s rs v [] right now h live =
    unfold granted_permissions in inl (live, (inl refl, h))
granted_permissions-Allows s rs v (p ∷ ps) right now h live =
    rw (granted_cons s rs v p ps) (elim (Bool-cases (same_address p.subject s)) [
      | inl e ↦ rw e (inl (live, (inl ((same_address_iff p.subject s).0 e), h)))
      | inr e ↦ rw e (inr (granted_permissions-Allows s rs v ps right now h live))
    ])

-- A revocation keeps exactly the entries of other subjects.
pub without_subject-Any :
    (s : FederatedAddress) (P : Permission → Type 0) (ps : List Permission)
    → Any P (without_subject s ps) ↔ Any (λ p. (p.subject ≢ s) × P p) ps
unfolding without_subject
without_subject-Any s P [] = (λ h. h, λ h. h)
without_subject-Any s P (p ∷ ps) = elim (Bool-cases (same_address p.subject s)) [
  | inl e ↦ rw e (
    λ h. inr ((without_subject-Any s P ps).0 h),
    elim [
      | inl x ↦ absurd (x.0 ((same_address_iff p.subject s).0 e))
      | inr y ↦ (without_subject-Any s P ps).1 y
    ],
  )
  | inr e ↦ rw e (
    elim [
      | inl x ↦ inl ((λ q. cc ((same_address_iff p.subject s).1 q)), x)
      | inr y ↦ inr ((without_subject-Any s P ps).0 y)
    ],
    elim [ inl x ↦ inl (x.1) | inr y ↦ inr ((without_subject-Any s P ps).1 y) ],
  )
]

-- No two entries have one subject.
abbrev pub Unique : List Permission → Type 0
Unique [] = Unit
Unique (p ∷ ps) = All (λ q. q.subject ≢ p.subject) ps × Unique ps

abbrev Others : FederatedAddress → List Permission → Type 0
Others s = All (λ q. q.subject ≢ s)

granted-Others :
    (t s : FederatedAddress) (rs : List Right) (v : Option ℕ) (ps : List Permission)
    → s ≢ t
    → Others t ps
    → Others t (granted_permissions s rs v ps)
granted-Others t s rs v [] n h = unfold granted_permissions in (n, tt)
granted-Others t s rs v (p ∷ ps) n h =
    rw (granted_cons s rs v p ps) (elim (Bool-cases (same_address p.subject s)) [
      | inl e ↦ rw e h
      | inr e ↦ rw e (h.0, granted-Others t s rs v ps n h.1)
    ])

pub granted_permissions-Unique :
    (s : FederatedAddress) (rs : List Right) (v : Option ℕ) (ps : List Permission)
    → Unique ps
    → Unique (granted_permissions s rs v ps)
granted_permissions-Unique s rs v [] h = unfold granted_permissions in (tt, tt)
granted_permissions-Unique s rs v (p ∷ ps) h =
    rw (granted_cons s rs v p ps) (elim (Bool-cases (same_address p.subject s)) [
      | inl e ↦ rw e h
      | inr e ↦ rw e (
        granted-Others p.subject s rs v ps (λ q. cc ((same_address_iff p.subject s).1 (sym q))) h.0,
        granted_permissions-Unique s rs v ps h.1,
      )
    ])

without-Others :
    (t s : FederatedAddress) (ps : List Permission) → Others t ps → Others t (without_subject s ps)
unfolding without_subject
without-Others t s [] h = tt
without-Others t s (p ∷ ps) h = elim (Bool-cases (same_address p.subject s)) [
  | inl e ↦ rw e (without-Others t s ps h.1)
  | inr e ↦ rw e (h.0, without-Others t s ps h.1)
]

pub without_subject-Unique :
    (s : FederatedAddress) (ps : List Permission) → Unique ps → Unique (without_subject s ps)
unfolding without_subject
without_subject-Unique s [] h = tt
without_subject-Unique s (p ∷ ps) h = elim (Bool-cases (same_address p.subject s)) [
  | inl e ↦ rw e (without_subject-Unique s ps h.1)
  | inr e ↦ rw e (without-Others p.subject s ps h.0, without_subject-Unique s ps h.1)
]

transferred-Others :
    (t s : FederatedAddress) (ps : List Permission)
    → s ≢ t
    → Others t ps
    → Others t (transferred_permissions s ps)
transferred-Others t s [] n h = unfold transferred_permissions in (n, tt)
transferred-Others t s (p ∷ ps) n h =
    rw (transferred_cons s p ps) (elim (Bool-cases (same_address p.subject s)) [
      | inl e ↦ rw e h
      | inr e ↦ rw e (h.0, transferred-Others t s ps n h.1)
    ])

pub transferred_permissions-Unique :
    (s : FederatedAddress) (ps : List Permission)
    → Unique ps
    → Unique (transferred_permissions s ps)
transferred_permissions-Unique s [] h = unfold transferred_permissions in (tt, tt)
transferred_permissions-Unique s (p ∷ ps) h =
    rw (transferred_cons s p ps) (elim (Bool-cases (same_address p.subject s)) [
      | inl e ↦ rw e h
      | inr e ↦ rw e (
        transferred-Others p.subject s ps (λ q. cc ((same_address_iff p.subject s).1 (sym q))) h.0,
        transferred_permissions-Unique s ps h.1,
      )
    ])

-- A transfer leaves the new owner an entry with every right, and with the term that it had.
pub transferred_permissions-Allows :
    (s : FederatedAddress) (ps : List Permission) (right : Right) (now : ℕ)
    → Any (λ r. r ≡ right) all_rights
    → All (λ p. (p.subject ≡ s) → IsLive p.valid_until now) ps
    → Any (Allows s right now) (transferred_permissions s ps)
transferred_permissions-Allows s [] right now h live =
    unfold transferred_permissions in inl (tt, (inl refl, h))
transferred_permissions-Allows s (p ∷ ps) right now h live =
    rw (transferred_cons s p ps) (elim (Bool-cases (same_address p.subject s)) [
      | inl e ↦ let q = (same_address_iff p.subject s).0 e in rw e (inl (live.0 q, (inl q, h)))
      | inr e ↦ rw e (inr (transferred_permissions-Allows s ps right now h live.1))
    ])

-- What applies to the subject has expired.
abbrev pub Dead : FederatedAddress → ℕ → Permission → Type 0
Dead s now p = Matches p.subject s → ¬ IsLive p.valid_until now

Dead-not-Allows :
    (s : FederatedAddress) (ps : List Permission) (right : Right) (now : ℕ)
    → All (Dead s now) ps
    → ¬ Any (Allows s right now) ps
Dead-not-Allows s [] right now h a = a
Dead-not-Allows s (p ∷ ps) right now h (inl x) = h.0 x.1.0 x.0
Dead-not-Allows s (p ∷ ps) right now h (inr y) = Dead-not-Allows s ps right now h.1 y

-- If all that applies to the subject has expired, and it has an entry, a transfer revives nothing.
pub transferred_permissions-Dead :
    (s : FederatedAddress) (ps : List Permission) (right : Right) (now : ℕ)
    → Any (λ p. p.subject ≡ s) ps
    → All (Dead s now) ps
    → ¬ Any (Allows s right now) (transferred_permissions s ps)
transferred_permissions-Dead s [] right now m h a = m
transferred_permissions-Dead s (p ∷ ps) right now m h a =
    elim (Bool-cases (same_address p.subject s)) [
      | inl e ↦ first ((same_address_iff p.subject s).0 e) (rw (transferred_cons s p ps, e) at a)
      | inr e ↦
          later (λ k. transferred_permissions-Dead s ps right now k h.1)
            (λ q. cc ((same_address_iff p.subject s).1 q)) m (rw (transferred_cons s p ps, e) at a)
    ]
  where
    first : p.subject ≡ s → Any (Allows s right now) (record p { rights = all_rights } ∷ ps) → ⊥
    first q (inl x) = h.0 (inl q) x.0
    first q (inr y) = Dead-not-Allows s ps right now h.1 y

    later :
        (Any (λ p. p.subject ≡ s) ps → ¬ Any (Allows s right now) (transferred_permissions s ps))
        → p.subject ≢ s
        → Any (λ p. p.subject ≡ s) (p ∷ ps)
        → Any (Allows s right now) (p ∷ transferred_permissions s ps)
        → ⊥
    later rest n (inl q) b = n q
    later rest n (inr k) (inl x) = h.0 x.1.0 x.0
    later rest n (inr k) (inr y) = rest k y
