-- ===== src/Provisioner.antt =====
-- services/control-plane/src/adapters/postgres/pg-invite-provisioner.ts: an invite is consumed, its
-- user created and the Google account linked, in one transaction. The audit event of a success
-- changes no table and is left out.
pub mod Atomic
pub mod Accepts
use logalot.OAuthIdentities.{NewOAuthIdentity, OAuthIdentityRef, Identities, link_first}
use logalot.Users.{User, Users, NewUser, insert_user_with_membership}
use logalot.Invites.{Invites, Redemption, ConsumedInvite, consume}
use logalot.Base.{
  none, some, true, false, if◌then◌else◌, Text, Bytes, ℕ, codes, ◌===◌, Option, Bool,
}
use logalot.Domain.Errors.{ok, err, Error, Result, conflict, text, is_conflict}
use logalot.Domain.Roles.{MembershipRole}

pub record Tables : Type 0 where
  pub invites : Invites
  pub users : Users
  pub identities : Identities

pub record InviteProvisionInput : Type 0 where
  pub email : Text
  pub invite_token_hash : Bytes
  pub provider_sub : Text
  pub now : ℕ

-- What the database fills in, where it comes to it.
pub record NewRows : Type 0 where
  pub user_id : Text
  pub identity_id : Text
  pub created_at : ℕ

abbrev pub disabled_password : Text
disabled_password = codes "!disabled"

unfoldable pub translate_role : Text → MembershipRole
translate_role invite_role =
    if invite_role === codes "admin" then MembershipRole.tenant_admin else MembershipRole.member

abbrev pub redemption : InviteProvisionInput → Redemption
redemption input = record {
  token_hash = input.invite_token_hash;
  email = input.email;
  now = input.now;
}

abbrev pub new_user : InviteProvisionInput → ConsumedInvite → NewUser
new_user input consumed = record {
  email = input.email;
  password_hash = disabled_password;
  display_name = none;
  role = translate_role consumed.role;
}

abbrev pub new_link : InviteProvisionInput → User → NewOAuthIdentity
new_link input user = record {
  user_id = user.id;
  provider_sub = input.provider_sub;
  email = input.email;
}

-- Step 3: the user of the link must be the one just created.
abbrev pub check_link : User → Result OAuthIdentityRef → Result (Option Text)
check_link user (err e) = err e
check_link user (ok link) =
    if link.user_id === user.id
    then ok (some user.id)
    else err (conflict (text "Google account is already linked to a different user in this tenant"))

abbrev pub link_user :
    Text
    → InviteProvisionInput
    → NewRows
    → Invites
    → Identities
    → Result User × Users
    → Result (Option Text) × Tables
link_user t input made invites identities (err e, users) =
    (err e, record { invites = invites; users = users; identities = identities })
link_user t input made invites identities (ok user, users) =
    let linked = link_first t (new_link input user) made.identity_id identities in
    (check_link user linked.0, record { invites = invites; users = users; identities = linked.1 })

abbrev pub provision_consumed :
    Text
    → InviteProvisionInput
    → NewRows
    → Tables
    → Option ConsumedInvite × Invites
    → Result (Option Text) × Tables
provision_consumed t input made db (none, invites) = (ok none, record db { invites = invites })
provision_consumed t input made db (some consumed, invites) =
    link_user t input made invites db.identities (
      insert_user_with_membership t (new_user input consumed) made.user_id made.created_at db.users)

-- The body of the transaction.
unfoldable pub provision_body :
    Text → InviteProvisionInput → NewRows → Tables → Result (Option Text) × Tables
provision_body t input made db =
    provision_consumed t input made db (consume t (redemption input) db.invites)

-- COMMIT, or ROLLBACK to the tables at the beginning; a ConflictError is turned into null.
abbrev pub settle : Tables → Result (Option Text) × Tables → Result (Option Text) × Tables
settle before (ok found, after) = (ok found, after)
settle before (err e, after) = (if is_conflict e then ok none else err e, before)

unfoldable pub provision_from_invite :
    Text → InviteProvisionInput → NewRows → Tables → Result (Option Text) × Tables
provision_from_invite t input made db = settle db (provision_body t input made db)
