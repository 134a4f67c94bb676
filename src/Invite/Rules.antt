-- ===== src/Invite/Rules.antt =====
-- When an invite is redeemed, refused, validated, revoked and cleaned up.
use collective.Prelude.{
  ◌+◌, ℕ, ◌≤◌, ◌<◌, ◌≡◌, ◌≢◌, ◌↔◌, refl, ap, ◌∙◌, ◌⊎◌, inl, inr, true, false, Option-cases, not,
  none, some, List, [], ◌∷◌, ◌++◌, arith, any, if◌then◌else◌, ok, keep, All,
}
use collective.Text.{Text, same_iff}
use collective.Dict.{Dict, lookup, erase, lookup-insert_self, lookup-erase}
use collective.Dict.Keys.{Distinct, lookup-Lacks}
use collective.Address.{FederatedAddress, same_address, same_address_iff}
use collective.Invite.{
  InviteCode, InviteManager, is_expired, is_exhausted, has_used, mark_used, settle, redeem_found,
  redeem_invite, validate_invite, revoke_invite, cleanup_expired,
}

-- The invite may be used by the member at the time.
pub record IsOpen (invite : InviteCode) (member : FederatedAddress) (now : ℕ) : Type 0 where
  pub in_time : now ≤ invite.expires_at
  pub uses_left : (invite.max_uses ≡ 0) ⊎ (invite.used < invite.max_uses)
  pub new_member : All (λ m. m ≢ member) invite.used_by

pub has_used_iff :
    (ms : List FederatedAddress) (member : FederatedAddress)
    → (any (λ m. same_address m member) ms ≡ false) ↔ All (λ m. m ≢ member) ms
has_used_iff [] member = (λ h. tt, λ h. refl)
has_used_iff (m ∷ ms) member = ground (arith, same_address_iff m member, has_used_iff ms member)

redeem_found_iff :
    (im : InviteManager) (code : Text) (invite : InviteCode) (member : FederatedAddress) (now : ℕ)
    (result : InviteCode)
    → ((redeem_found im code invite member now).0 ≡ ok result) ↔ (
        IsOpen invite member now
        × (result
            ≡ record invite { used = invite.used + 1; used_by = invite.used_by ++ (member ∷ []) }))
unfolding redeem_found
redeem_found_iff im code invite member now result = (
  λ h. (
    record {
      in_time = ground arith;
      uses_left = ground arith;
      new_member = (has_used_iff invite.used_by member).0 (ground arith);
    },
    ground arith,
  ),
  λ (o, e).
      ground (arith, o.in_time, o.uses_left, (has_used_iff invite.used_by member).1 o.new_member),
)

-- A redemption succeeds exactly if the code stands for an invite that is open to the member, and
-- it returns that invite with its count of uses one higher and the member at the end of those who used
-- it.
pub redeem_invite_iff :
    (im : InviteManager) (code : Text) (member : FederatedAddress) (now : ℕ) (result : InviteCode)
    → ((redeem_invite im code member now).0 ≡ ok result) ↔ (
        (invite : InviteCode) × (lookup code im.invites ≡ some invite)
        × IsOpen invite member now
        × (result
            ≡ record invite { used = invite.used + 1; used_by = invite.used_by ++ (member ∷ []) }))
unfolding redeem_invite
redeem_invite_iff im code member now result = elim (Option-cases (lookup code im.invites)) [
  | inl e ↦ rw (e, redeem_invite) (λ h. absurd (cc), λ (x, q, o, r). absurd (cc))
  | inr (invite, e) ↦
      rw (e, redeem_invite)
        (
          λ h.
              let (o, q) = (redeem_found_iff im code invite member now result).0 h in
              (invite, refl, o, q),
          λ (x, q, o, r).
              let p : invite ≡ x = cc in
              (redeem_found_iff im code invite member now result).1 (rw p o, rw p r),
        )
]

pub has_used_snoc :
    (ms : List FederatedAddress) (member : FederatedAddress)
    → any (λ m. same_address m member) (ms ++ (member ∷ [])) ≡ true
has_used_snoc [] member = ground (arith, same_address_iff member member)
has_used_snoc (m ∷ ms) member = ground (arith, has_used_snoc ms member)

-- What is left of the code after a use.
lookup-settle :
    (im : InviteManager) (code : Text) (invite : InviteCode)
    → lookup code (settle im code invite).invites
      ≡ (if is_exhausted invite then none else some invite)
unfolding settle
lookup-settle im code invite = ground (
  arith,
  lookup-insert_self code invite im.invites,
  lookup-erase code code im.invites,
  same_iff code code,
)

redeem_found-settle :
    (im : InviteManager) (code : Text) (invite : InviteCode) (member : FederatedAddress) (now : ℕ)
    (result : InviteCode)
    → (redeem_found im code invite member now).0 ≡ ok result
    → (redeem_found im code invite member now).1 ≡ settle im code (mark_used invite member)
unfolding redeem_found
redeem_found-settle im code invite member now result h = ground arith

-- A redemption that succeeds leaves the code with the counted invite, or without an invite if that
-- was the last use.
pub lookup-redeem_invite :
    (im : InviteManager) (code : Text) (member : FederatedAddress) (now : ℕ) (result : InviteCode)
    → (redeem_invite im code member now).0 ≡ ok result
    → lookup code (redeem_invite im code member now).1.invites
      ≡ (if is_exhausted result then none else some result)
unfolding redeem_invite
lookup-redeem_invite im code member now result h = elim (Option-cases (lookup code im.invites)) [
  | inl e ↦ absurd (ground arith)
  | inr (invite, e) ↦
      let h' : (redeem_found im code invite member now).0 ≡ ok result =
        rw (e, redeem_invite) at h in
      let (o, q) = (redeem_found_iff im code invite member now result).0 h' in
      rw (e, redeem_invite)
        (rw (redeem_found-settle im code invite member now result h', q)
          (lookup-settle im code (mark_used invite member)))
]

-- The member of a redemption that succeeded cannot redeem the code again, at any time.
redeem_invite_twice :
    (im : InviteManager) (code : Text) (member : FederatedAddress) (now later : ℕ)
    (result again : InviteCode)
    → (redeem_invite im code member now).0 ≡ ok result
    → (redeem_invite (redeem_invite im code member now).1 code member later).0 ≢ ok again
redeem_invite_twice im code member now later result again h k =
    let (invite, e, o, q) = (redeem_invite_iff im code member now result).0 h in
    let (next, e', o', q') = (redeem_invite_iff _ code member later again).0 k in
    let left = lookup-redeem_invite im code member now result h in
    let p : result ≡ next = ground arith in
    let seen : has_used result member ≡ true = rw q (has_used_snoc invite.used_by member) in
    let new : has_used next member ≡ false = (has_used_iff next.used_by member).1 o'.new_member in
    cc (seen, new, ap (λ i. has_used i member) p)

-- ValidateInvite accepts a code exactly if some member could redeem it, and returns the invite.
validate_invite_iff :
    (im : InviteManager) (code : Text) (now : ℕ) (invite : InviteCode)
    → (validate_invite im code now ≡ ok invite) ↔ (
        (lookup code im.invites ≡ some invite)
        × (now ≤ invite.expires_at)
        × ((invite.max_uses ≡ 0) ⊎ (invite.used < invite.max_uses)))
unfolding validate_invite
validate_invite_iff im code now invite = ground arith

-- A revocation succeeds exactly for the inviter of a standing code, and the code is then invalid
-- for everyone; every other code stands as before.
revoke_invite_iff :
    (im im' : InviteManager) (code : Text) (revoker : FederatedAddress)
    → (revoke_invite im code revoker ≡ ok im') ↔ (
        (invite : InviteCode) × (lookup code im.invites ≡ some invite)
        × (invite.inviter ≡ revoker)
        × (im' ≡ record { invites = erase code im.invites }))
unfolding revoke_invite
revoke_invite_iff im im' code revoker = elim (Option-cases (lookup code im.invites)) [
  | inl e ↦ rw (e, revoke_invite) (λ h. absurd (cc), λ (x, q, o, r). absurd (cc))
  | inr (invite, e) ↦
      rw (e, revoke_invite)
        (
          λ h. (
            invite,
            refl,
            (same_address_iff invite.inviter revoker).0 (ground arith),
            ground arith,
          ),
          λ (x, q, o, r).
              let p : invite ≡ x = cc in
              let same : same_address invite.inviter revoker ≡ true =
                (same_address_iff invite.inviter revoker).1 (ap (λ i. i.inviter) p ∙ o) in
              rw (same, r) refl,
        )
]

lookup-keep :
    (m : Dict InviteCode) (code : Text) (now : ℕ)
    → Distinct m
    → lookup code (keep (λ e. not (is_expired e.1 now)) m) ≡ elim (lookup code m) [
      | none ↦ none
      | some invite ↦ if is_expired invite now then none else some invite
    ]
unfolding lookup
lookup-keep [] code now d = refl
lookup-keep ((k, invite) ∷ m) code now d =
    ground (arith, same_iff k code, lookup-keep m code now d.1, lookup-Lacks k m d.0)

-- A tick of the cleanup removes exactly the invites that have expired.
pub lookup-cleanup_expired :
    (im : InviteManager) (code : Text) (now : ℕ)
    → Distinct im.invites
    → lookup code (cleanup_expired im now).invites ≡ elim (lookup code im.invites) [
      | none ↦ none
      | some invite ↦ if is_expired invite now then none else some invite
    ]
unfolding cleanup_expired
lookup-cleanup_expired im code now d = lookup-keep im.invites code now d
