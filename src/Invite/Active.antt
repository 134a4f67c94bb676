-- ===== src/Invite/Active.antt =====
-- What holds of every stored invite, after any history of calls.
use collective.Prelude.{
  ◌≡◌, ◌≢◌, refl, sym, false, not, List, [], ◌∷◌, ◌++◌, arith, All, length, length-append,
}
use collective.Text.{Text}
use collective.Dict.Keys.{Distinct, Each, Each-insert, Each-erase, Each-keep, Each-lookup}
use collective.Address.{FederatedAddress}
use collective.Invite.{
  InviteCode, InviteManager, is_expired, is_exhausted, has_used, mark_used, generate_invite,
  revoke_invite, cleanup_expired, new_invite_manager, new_invite,
}
use collective.Invite.Rules.{has_used_iff}
use collective.Invite.Uses.{
  Call, generates, redeems, revokes, cleans, step, step-Distinct, redeem_invite_cases,
}

-- No member stands twice.
abbrev pub Unrepeated : List FederatedAddress → Type 0
Unrepeated [] = Unit
Unrepeated (m ∷ ms) = All (λ n. n ≢ m) ms × Unrepeated ms

All-snoc :
    (P : FederatedAddress → Type 0) (ms : List FederatedAddress) (m : FederatedAddress)
    → All P ms
    → P m
    → All P (ms ++ (m ∷ []))
All-snoc P [] m h p = (p, tt)
All-snoc P (n ∷ ms) m h p = (h.0, All-snoc P ms m h.1 p)

Unrepeated-snoc :
    (ms : List FederatedAddress) (m : FederatedAddress)
    → Unrepeated ms
    → All (λ n. n ≢ m) ms
    → Unrepeated (ms ++ (m ∷ []))
Unrepeated-snoc [] m u h = (tt, tt)
Unrepeated-snoc (n ∷ ms) m u h =
    (All-snoc (λ k. k ≢ n) ms m u.0 (λ e. h.0 (sym e)), Unrepeated-snoc ms m u.1 h.1)

-- A stored invite stands under its own code, has counted its members, none of them twice, and has a
-- use left unless it is unlimited.
pub record IsActive (key : Text) (invite : InviteCode) : Type 0 where
  pub own_code : invite.code ≡ key
  pub counted : invite.used ≡ length invite.used_by
  pub once : Unrepeated invite.used_by
  pub open_uses : is_exhausted invite ≡ false

mark_used-IsActive :
    (key : Text) (invite : InviteCode) (member : FederatedAddress)
    → IsActive key invite
    → has_used invite member ≡ false
    → is_exhausted (mark_used invite member) ≡ false
    → IsActive key (mark_used invite member)
mark_used-IsActive key invite member a u x = record {
  own_code = a.own_code;
  counted = omega (arith, a.counted, length-append invite.used_by (member ∷ []));
  once = Unrepeated-snoc invite.used_by member a.once ((has_used_iff invite.used_by member).0 u);
  open_uses = x;
}

step-IsActive :
    (im : InviteManager) (c : Call) → Each IsActive im.invites → Each IsActive (step im c).invites
unfolding step
step-IsActive im (generates c inviter grants validity max_uses now) a =
    unfold generate_invite in
    Each-insert IsActive c (new_invite c inviter grants validity max_uses now) im.invites
      (record { own_code = refl; counted = refl; once = tt; open_uses = ground arith }) a
step-IsActive im (redeems c member now) a =
    redeem_invite_cases (Each IsActive) im c member now a (Each-erase IsActive c im.invites a)
      λ invite e u x.
        Each-insert IsActive c _ im.invites
          (mark_used-IsActive c invite member (Each-lookup IsActive c invite im.invites a e) u x) a
step-IsActive im (revokes c revoker) a =
    unfold revoke_invite in ground (arith, Each-erase IsActive c im.invites a)
step-IsActive im (cleans now) a =
    unfold cleanup_expired in Each-keep IsActive (λ e. not (is_expired e.1 now)) im.invites a

unfoldable pub run : InviteManager → List Call → InviteManager
run im [] = im
run im (c ∷ cs) = run (step im c) cs

run_from-IsActive :
    (im : InviteManager) (cs : List Call)
    → Distinct im.invites × Each IsActive im.invites
    → Distinct (run im cs).invites × Each IsActive (run im cs).invites
unfolding run
run_from-IsActive im [] h = h
run_from-IsActive im (c ∷ cs) h =
    run_from-IsActive (step im c) cs (step-Distinct im c h.0, step-IsActive im c h.1)

-- After any history of calls every stored invite stands once, under its own code; its count is the
-- number of members that used it, none of them twice; and it has a use left or is unlimited.
pub run-IsActive :
    (cs : List Call)
    → Distinct (run new_invite_manager cs).invites
      × Each IsActive (run new_invite_manager cs).invites
run-IsActive cs = run_from-IsActive new_invite_manager cs (tt, tt)
