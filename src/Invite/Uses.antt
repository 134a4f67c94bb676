-- ===== src/Invite/Uses.antt =====
-- How often a code can be used in any history of calls, and what holds of every stored invite.
use collective.Prelude.{
  ℕ, ◌+◌, ◌-◌, ◌≤◌, ◌<◌, ◌≡◌, inl, inr, false, Option-cases, not, Option, none, some, List, [], ◌∷◌,
  arith, if◌then◌else◌, Result, ok, err, All,
}
use collective.Text.{Text, same, same_iff}
use collective.Dict.{Dict, lookup, insert, erase, lookup-insert, lookup-erase}
use collective.Dict.Keys.{Distinct, insert-Distinct, erase-Distinct, keep-Distinct}
use collective.Address.{FederatedAddress}
use collective.Invite.{
  InviteCode, InviteManager, InviteError, DataStoreGrant, is_expired, is_exhausted, has_used,
  mark_used, settle, redeem_found, redeem_invite, generate_invite, revoke_invite, cleanup_expired,
  new_invite,
}
use collective.Invite.Rules.{lookup-cleanup_expired}

pub data Call : Type 0 where
  generates : Text → FederatedAddress → List DataStoreGrant → ℕ → ℕ → ℕ → Call
  redeems : Text → FederatedAddress → ℕ → Call
  revokes : Text → FederatedAddress → Call
  cleans : ℕ → Call

abbrev or_else : InviteManager → Result InviteError InviteManager → InviteManager
or_else im (ok im') = im'
or_else im (err e) = im

abbrev generated : InviteManager → Result InviteError (InviteCode × InviteManager) → InviteManager
generated im (ok r) = r.1
generated im (err e) = im

unfoldable pub step : InviteManager → Call → InviteManager
step im (generates code inviter grants validity max_uses now) =
    generated im (generate_invite im (some code) inviter grants validity max_uses now)
step im (redeems code member now) = (redeem_invite im code member now).1
step im (revokes code revoker) = or_else im (revoke_invite im code revoker)
step im (cleans now) = cleanup_expired im now

abbrev is_ok : Result InviteError InviteCode → ℕ
is_ok (ok i) = 1
is_ok (err e) = 0

-- One if the call is a redemption of the code that succeeds.
unfoldable pub success : InviteManager → Text → Call → ℕ
success im code (redeems c member now) =
    if same c code then is_ok (redeem_invite im c member now).0 else 0
success im code (generates c inviter grants validity max_uses now) = 0
success im code (revokes c revoker) = 0
success im code (cleans now) = 0

-- The successful redemptions of a code in a history.
unfoldable pub redemptions : InviteManager → Text → List Call → ℕ
redemptions im code [] = 0
redemptions im code (c ∷ cs) = success im code c + redemptions (step im c) code cs

-- The uses that a limited invite has left; a code that does not stand has none.
abbrev pub uses_left : Option InviteCode → ℕ
uses_left none = 0
uses_left (some invite) = invite.max_uses - invite.used

abbrev pub IsLimited : Option InviteCode → Type 0
IsLimited none = Unit
IsLimited (some invite) = 0 < invite.max_uses

-- The call does not draw this code again.
abbrev pub Spares : Text → Call → Type 0
Spares code (generates c inviter grants validity max_uses now) = same c code ≡ false
Spares code (redeems c member now) = Unit
Spares code (revokes c revoker) = Unit
Spares code (cleans now) = Unit

abbrev Spends : Option InviteCode → ℕ → Option InviteCode → Type 0
Spends before gain left = (gain + uses_left left ≤ uses_left before) × IsLimited left

redeem_found-Spends :
    (im : InviteManager) (code c : Text) (invite : InviteCode) (member : FederatedAddress) (now : ℕ)
    → lookup c im.invites ≡ some invite
    → IsLimited (lookup code im.invites)
    → Spends
        (lookup code im.invites)
        (if same c code then is_ok (redeem_found im c invite member now).0 else 0)
        (lookup code (redeem_found im c invite member now).1.invites)
unfolding redeem_found settle
redeem_found-Spends im code c invite member now e l = ground (
  arith,
  same_iff c code,
  lookup-insert c code (mark_used invite member) im.invites,
  lookup-erase c code im.invites,
)

redeem_invite-Spends :
    (im : InviteManager) (code c : Text) (member : FederatedAddress) (now : ℕ)
    → IsLimited (lookup code im.invites)
    → Spends
        (lookup code im.invites)
        (success im code (redeems c member now))
        (lookup code (redeem_invite im c member now).1.invites)
unfolding success redeem_invite
redeem_invite-Spends im code c member now l = elim (Option-cases (lookup c im.invites)) [
  | inl e ↦ rw (e, redeem_invite) (ground arith)
  | inr (invite, e) ↦ rw (e, redeem_invite) (redeem_found-Spends im code c invite member now e l)
]

step-Spends :
    (im : InviteManager) (code : Text) (c : Call)
    → Spares code c
    → Distinct im.invites
    → IsLimited (lookup code im.invites)
    → Spends (lookup code im.invites) (success im code c) (lookup code (step im c).invites)
unfolding step
step-Spends im code (generates c inviter grants validity max_uses now) s d l =
    unfold generate_invite success in
    ground
      (arith, lookup-insert c code (new_invite c inviter grants validity max_uses now) im.invites)
step-Spends im code (redeems c member now) s d l = redeem_invite-Spends im code c member now l
step-Spends im code (revokes c revoker) s d l =
    unfold revoke_invite success in ground (arith, lookup-erase c code im.invites)
step-Spends im code (cleans now) s d l =
    unfold success in rw (lookup-cleanup_expired im code now d) (ground arith)

-- What holds of the invites after a redemption, by its cases: nothing changed, the invite removed,
-- or the marked invite, with uses left, written back.
redeem_found_cases :
    (P : Dict InviteCode → Type 0) (im : InviteManager) (c : Text) (invite : InviteCode)
    (member : FederatedAddress) (now : ℕ)
    → P im.invites
    → P (erase c im.invites)
    → (has_used invite member ≡ false
        → is_exhausted (mark_used invite member) ≡ false
        → P (insert c (mark_used invite member) im.invites))
    → P (redeem_found im c invite member now).1.invites
unfolding redeem_found settle
redeem_found_cases P im c invite member now kept erased marked = ground arith

pub redeem_invite_cases :
    (P : Dict InviteCode → Type 0) (im : InviteManager) (c : Text) (member : FederatedAddress)
    (now : ℕ)
    → P im.invites
    → P (erase c im.invites)
    → ((invite : InviteCode)
        → lookup c im.invites ≡ some invite
        → has_used invite member ≡ false
        → is_exhausted (mark_used invite member) ≡ false
        → P (insert c (mark_used invite member) im.invites))
    → P (redeem_invite im c member now).1.invites
unfolding redeem_invite
redeem_invite_cases P im c member now kept erased marked =
    elim (Option-cases (lookup c im.invites)) [
      | inl e ↦ rw (e, redeem_invite) kept
      | inr (invite, e) ↦
          rw (e, redeem_invite)
            (redeem_found_cases P im c invite member now kept erased (marked invite e))
    ]

pub step-Distinct :
    (im : InviteManager) (c : Call) → Distinct im.invites → Distinct (step im c).invites
unfolding step
step-Distinct im (generates c inviter grants validity max_uses now) d =
    unfold generate_invite in insert-Distinct c _ im.invites d
step-Distinct im (redeems c member now) d =
    redeem_invite_cases Distinct im c member now d (erase-Distinct c im.invites d)
      λ invite e u x. insert-Distinct c _ im.invites d
step-Distinct im (revokes c revoker) d =
    unfold revoke_invite in ground (arith, erase-Distinct c im.invites d)
step-Distinct im (cleans now) d =
    unfold cleanup_expired in keep-Distinct (λ e. not (is_expired e.1 now)) im.invites d

-- In any history of calls that does not draw the code again, an invite with a limit is redeemed at
-- most as often as it has uses left, and a code that does not stand is never redeemed.
pub redemptions-le-uses_left :
    (im : InviteManager) (code : Text) (cs : List Call)
    → All (Spares code) cs
    → Distinct im.invites
    → IsLimited (lookup code im.invites)
    → redemptions im code cs ≤ uses_left (lookup code im.invites)
unfolding redemptions
redemptions-le-uses_left im code [] s d l = omega arith
redemptions-le-uses_left im code (c ∷ cs) s d l =
    let (spent, l') = step-Spends im code c s.0 d l in
    omega (arith, spent, redemptions-le-uses_left (step im c) code cs s.1 (step-Distinct im c d) l')
