-- ===== src/Invite.antt =====
-- pkg/federation/invite.go: the InviteManager. The clock and the random bytes are arguments; times
-- are nanoseconds, and validities and use limits are not negative (a negative limit acts as 0).
pub mod Code
pub mod Rules
pub mod Uses
pub mod Active
use collective.Prelude.{
  ℕ, ◌+◌, Bool, true, false, not, ◌&&◌, Option, none, some, List, [], ◌∷◌, ◌++◌, map, if◌then◌else◌,
  ltb, leb, length, any, keep, Result, ok, err, ◌>>=◌, ◌>>◌, refuse_if,
}
use collective.Text.{Text}
use collective.Dict.{Dict, lookup, insert, erase}
use collective.Address.{FederatedAddress, same_address}
use collective.DataStore.{Right}

pub record DataStoreGrant : Type 0 where
  pub path : Text
  pub rights : List Right

pub record InviteCode : Type 0 where
  pub code : Text
  pub inviter : FederatedAddress
  pub permissions : List DataStoreGrant
  pub expires_at : ℕ
  pub max_uses : ℕ
  pub used : ℕ
  pub created_at : ℕ
  pub used_by : List FederatedAddress
  pub coordinator_address : Text
  pub federation_domain : Text
  pub federation_root_ca : Text
  pub description : Text

pub record InviteManager : Type 0 where
  pub invites : Dict InviteCode

pub data InviteError : Type 0 where
  no_random invalid_code expired usage_limit already_used : InviteError
  code_not_found not_inviter : InviteError

-- NewInviteManager
abbrev pub new_invite_manager : InviteManager
new_invite_manager = record { invites = [] }

abbrev pub new_invite : Text → FederatedAddress → List DataStoreGrant → ℕ → ℕ → ℕ → InviteCode
new_invite code inviter grants validity max_uses now = record {
  code = code;
  inviter = inviter;
  permissions = grants;
  expires_at = now + validity;
  max_uses = max_uses;
  used = 0;
  created_at = now;
  used_by = [];
  coordinator_address = [];
  federation_domain = [];
  federation_root_ca = [];
  description = [];
}

-- GenerateInvite; `none` is a code that could not be drawn
unfoldable pub generate_invite :
    InviteManager
    → Option Text
    → FederatedAddress
    → List DataStoreGrant
    → ℕ
    → ℕ
    → ℕ
    → Result InviteError (InviteCode × InviteManager)
generate_invite im none inviter grants validity max_uses now = err no_random
generate_invite im (some code) inviter grants validity max_uses now =
    let invite = new_invite code inviter grants validity max_uses now in
    ok (invite, record { invites = insert code invite im.invites })

-- `time.Now().After(invite.ExpiresAt)`
abbrev pub is_expired : InviteCode → ℕ → Bool
is_expired invite now = ltb invite.expires_at now

-- `invite.MaxUses > 0 && invite.Used >= invite.MaxUses`
abbrev pub is_exhausted : InviteCode → Bool
is_exhausted invite = ltb 0 invite.max_uses && leb invite.max_uses invite.used

abbrev pub has_used : InviteCode → FederatedAddress → Bool
has_used invite member = any (λ m. same_address m member) invite.used_by

abbrev pub mark_used : InviteCode → FederatedAddress → InviteCode
mark_used invite member = record invite {
  used = invite.used + 1;
  used_by = invite.used_by ++ (member ∷ []);
}

-- An invite that was marked is written back, or removed if it is fully used.
unfoldable pub settle : InviteManager → Text → InviteCode → InviteManager
settle im code invite =
    if is_exhausted invite
    then record { invites = erase code im.invites }
    else record { invites = insert code invite im.invites }

-- RedeemInvite, once the code was found.
unfoldable pub redeem_found :
    InviteManager
    → Text
    → InviteCode
    → FederatedAddress
    → ℕ
    → Result InviteError InviteCode × InviteManager
redeem_found im code invite member now =
    if is_expired invite now
    then (err expired, record { invites = erase code im.invites })
    else if is_exhausted invite
    then (err usage_limit, im)
    else if has_used invite member
    then (err already_used, im)
    else (ok (mark_used invite member), settle im code (mark_used invite member))

-- RedeemInvite
unfoldable pub redeem_invite :
    InviteManager → Text → FederatedAddress → ℕ → Result InviteError InviteCode × InviteManager
redeem_invite im code member now = elim (lookup code im.invites) [
  | none ↦ (err invalid_code, im)
  | some invite ↦ redeem_found im code invite member now
]

-- ValidateInvite
unfoldable pub validate_invite : InviteManager → Text → ℕ → Result InviteError InviteCode
validate_invite im code now = elim (lookup code im.invites) [
  | none ↦ err invalid_code
  | some invite ↦ do
    refuse_if (is_expired invite now) expired
    refuse_if (is_exhausted invite) usage_limit
    ok invite
]

-- RevokeInvite
unfoldable pub revoke_invite :
    InviteManager → Text → FederatedAddress → Result InviteError InviteManager
revoke_invite im code revoker = elim (lookup code im.invites) [
  | none ↦ err code_not_found
  | some invite ↦ do
    refuse_if (not (same_address invite.inviter revoker)) not_inviter
    ok (record { invites = erase code im.invites })
]

-- ListInvites
unfoldable pub list_invites : InviteManager → FederatedAddress → List InviteCode
list_invites im inviter =
    keep (λ invite. same_address invite.inviter inviter) (map (λ e. e.1) im.invites)

-- One tick of cleanupExpired
unfoldable pub cleanup_expired : InviteManager → ℕ → InviteManager
cleanup_expired im now = record { invites = keep (λ e. not (is_expired e.1 now)) im.invites }

pub record InviteStats : Type 0 where
  pub total_active : ℕ
  pub total_redeemed : ℕ
  pub expiring_soon : ℕ

-- GetInviteStats; `expiresAt - now < 24h`, where an invite that has expired counts too
unfoldable pub get_invite_stats : Dict InviteCode → ℕ → InviteStats
get_invite_stats [] now = record { total_active = 0; total_redeemed = 0; expiring_soon = 0 }
get_invite_stats ((code, invite) ∷ rest) now =
    let stats = get_invite_stats rest now in
    record {
      total_active = stats.total_active + 1;
      total_redeemed = stats.total_redeemed + invite.used;
      expiring_soon =
          stats.expiring_soon + (if ltb invite.expires_at (now + 86400000000000) then 1 else 0);
    }
