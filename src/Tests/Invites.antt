-- ===== src/Tests/Invites.antt =====
-- Invites.
use collective.Prelude.{◌+◌, ◌++◌, ℕ, ◌≤◌, ◌≡◌, ◌↔◌, refl, ok, err, some, List, [], ◌∷◌, arith}
use collective.Text.{Text, bytes, same}
use collective.Text.Split.{Free}
use collective.Dict.{lookup, insert, erase}
use collective.Dict.Keys.{Distinct, Each}
use collective.Address.{FederatedAddress, equal}
use collective.Invite.{
  InviteCode, InviteManager, already_used, redeem_invite, redeem_found, settle, new_invite,
  new_invite_manager, mark_used,
}
use collective.Invite.Rules.{IsOpen, redeem_invite_iff}
use collective.Invite.Uses.{
  Call, generates, redeems, redemptions, redemptions-le-uses_left, success, step,
}
use collective.Invite.Active.{IsActive, run, run-IsActive}
use collective.Invite.Code.{
  generate_invite_code, encode, digit, format_share_url, parse_share_url,
  parse_share_url-format_share_url,
}

abbrev alice : FederatedAddress
alice = record { local_part = bytes "alice"; domain = bytes "home.collective"; resource = [] }

abbrev bob : FederatedAddress
bob = record { local_part = bytes "bob"; domain = bytes "garage.collective"; resource = [] }

abbrev code : Text
code = bytes "Q1"

-- Alice's code for two uses until time 100.
abbrev invite : InviteCode
invite = new_invite code alice [] 100 2 0

abbrev im : InviteManager
im = record { invites = (code, invite) ∷ [] }

bob_redeems : (redeem_invite im code bob 5).0 ≡ ok (mark_used invite bob)
unfolding redeem_invite redeem_found lookup same equal
bob_redeems = refl

bob_again : (redeem_invite (redeem_invite im code bob 5).1 code bob 6).0 ≡ err already_used
unfolding redeem_invite redeem_found settle lookup insert same equal
bob_again = refl

-- Alice's code after bob has used it.
abbrev used_once : InviteCode
used_once = record invite { used = 1; used_by = bob ∷ [] }

redeem_invite_iff_example : ((redeem_invite im code bob 5).0 ≡ ok used_once) ↔ (
    (i : InviteCode) × (lookup code im.invites ≡ some i)
    × IsOpen i bob 5
    × (used_once ≡ record i { used = i.used + 1; used_by = i.used_by ++ (bob ∷ []) }))
redeem_invite_iff_example = redeem_invite_iff im code bob 5 used_once

abbrev history : List Call
history = redeems code bob 5 ∷ redeems code bob 6 ∷ redeems code alice 7 ∷ redeems code alice 8 ∷ []

two_redemptions : redemptions im code history ≡ 2
unfolding redemptions step success redeem_invite redeem_found settle lookup insert erase same equal
two_redemptions = refl

redemptions-le-uses_left_example : redemptions im code history ≤ 2
unfolding lookup same
redemptions-le-uses_left_example =
    redemptions-le-uses_left im code history (tt, (tt, (tt, (tt, tt)))) (tt, tt) (omega arith)

run-IsActive_example :
    Distinct (run new_invite_manager (generates code alice [] 100 2 0 ∷ history)).invites
    × Each IsActive (run new_invite_manager (generates code alice [] 100 2 0 ∷ history)).invites
run-IsActive_example = run-IsActive (generates code alice [] 100 2 0 ∷ history)

abbrev twelve : List ℕ
twelve = 0 ∷ 255 ∷ 16 ∷ 7 ∷ 9 ∷ 77 ∷ 250 ∷ 251 ∷ 252 ∷ 253 ∷ 1 ∷ 2 ∷ []

twelve_code : generate_invite_code (some twelve) ≡ some (bytes "AP8QBwlN-vv8_QEC")
unfolding generate_invite_code encode digit
twelve_code = refl

parse_share_url-format_share_url_example :
    (parse_share_url (format_share_url invite (bytes "h:1")) ≡ some (bytes "h:1", code))
    ↔ (Free b'/' (bytes "h:1") × Free b'/' code)
parse_share_url-format_share_url_example = parse_share_url-format_share_url invite (bytes "h:1")
