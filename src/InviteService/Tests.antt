-- ===== src/InviteService/Tests.antt =====
-- A tenant with an admin and one open invite, and the theorems of invites, links and provisioning at
-- it.
use logalot.InviteService.Redeem.{create_then_provision}
use logalot.Domain.Email.{normalize_email, trim, trim_start, trim_end, is_space}
use logalot.InviteService.Creation.{IsIssuable, row, create_ok_iff}
use logalot.OAuthIdentities.Pinned.{link_first_converges}
use logalot.OAuthIdentities.{
  NewOAuthIdentity, OAuthIdentityRef, Identities, link_first, find_by_provider_sub, new_identity,
  already_linked, touch_last_login, has_user,
}
use logalot.Invites.Pending.{OnePending, run-OnePending}
use logalot.Domain.Credentials.{parse_invite_token, assemble_invite_token}
use logalot.Users.{Users, violates_unique, UserRow, active_status}
use logalot.Provisioner.{NewRows, InviteProvisionInput, Tables, new_user, provision_from_invite}
use logalot.Domain.Credentials.Laws.{IsField}
use logalot.Domain.Rbac.{can}
use logalot.Invites.{
  InviteRow, Invites, count_pending, ConsumedInvite, Redemption, InviteStatus, consumed_row,
  find_valid_by_token_hash,
}
use logalot.Ports.{Ports, TenantContext}
use logalot.Tenants
use logalot.Invites.History
use logalot.OAuthIdentities
use logalot.Base.{
  [], none, some, true, false, refl, codes, Text, ◌≡◌, count_where, List, find_where, take, ◌∷◌,
  ◌===◌, ◌↔◌, ◌≤◌, arith, Option, ◌⊎◌,
}
use logalot.Domain.Errors.{ok, is_ok, Result}
use logalot.Domain.Roles.{Role}
use logalot.Tenants.{Tenant, TenantStatus, Tenants}
use logalot.Provisioner.Atomic.{IsProvisioned, provision_all_or_nothing}
use logalot.InviteService.{create, InviteConfig, CreateInviteCommand, FreshInvite, InviteState}
use logalot.Invites.History.{
  create_op, consume_op, revoke_op, redemptions, InviteOp, revoked_never_redeemed, has_hash,
  redemptions_at_most_one,
}

-- The digest in this test is the first 32 code units.
abbrev ports : Ports
ports = record {
  sha256 = take 32;
  hash = λ s. s;
  verify = λ s h. s === h;
  issue_access = λ claims. record { token = claims.principal_id; expires_in_seconds = 900 };
  nfc = λ s. s;
  lower = λ s. s;
  is_uuid = λ s. true;
}

abbrev config : InviteConfig
config = record {
  ttl_seconds = 60;
  max_outstanding_per_tenant = 2;
  accept_base_url = codes "https://x";
}

abbrev ctx : TenantContext
ctx = record { tenant_id = codes "t1"; principal_id = codes "u1"; role = Role.tenant_admin }

abbrev command : CreateInviteCommand
command = record { email = codes "c@d"; role = codes "admin" }

abbrev tenant : Tenant
tenant = record {
  id = codes "t1";
  public_id = codes "acme";
  name = codes "Acme";
  status = TenantStatus.active;
  created_at = 0;
}

abbrev tenants : Tenants
tenants = tenant ∷ []

abbrev author : UserRow
author = record {
  id = codes "u1";
  tenant_id = codes "t1";
  email = codes "a@b.c";
  password_hash = codes "pw";
  display_name = none;
  status = active_status;
  is_platform_operator = false;
  created_at = 0;
}

abbrev accounts : List UserRow
accounts = author ∷ []

abbrev secret : Text
secret = codes "0123456789abcdef0123456789abcdef0123456789abcdef0123456789abcdef"

abbrev fresh : FreshInvite
fresh = record { secret = secret; now = 1000; new_id = codes "i2"; created_at = 1001 }

abbrev open_row : InviteRow
open_row = record {
  id = codes "i1";
  tenant_id = codes "t1";
  email = codes "a@b";
  role = codes "member";
  token_hash = codes "h1";
  status = InviteStatus.pending;
  created_by = none;
  expires_at = 9000;
  consumed_at = none;
  created_at = 1;
}

abbrev rows : Invites
rows = open_row ∷ []

abbrev state : InviteState
state = record { invites = rows; audit = []; sent = [] }

is_issuable : IsIssuable ports config ctx command tenants accounts fresh state
unfolding can Tenants.find_by_id find_where ◌===◌ count_pending count_where normalize_email trim
    trim_start trim_end is_space
is_issuable = record {
  right = refl;
  tenant = tenant;
  found = refl;
  room = omega arith;
  secret = refl;
  valid = refl;
  new = refl;
  author = omega arith;
}

create_ok_iff_example :
    (is_ok (create ports config ctx command tenants accounts fresh state).0 ≡ true)
    ↔ IsIssuable ports config ctx command tenants accounts fresh state
create_ok_iff_example = create_ok_iff ports config ctx command tenants accounts fresh state

acme-IsField : IsField (codes "acme")
acme-IsField = (
  λ e. cc e,
  (
    λ e. omega (arith, e),
    (λ e. omega (arith, e), (λ e. omega (arith, e), (λ e. omega (arith, e), tt))),
  ),
)

abbrev made : NewRows
made = record { user_id = codes "u9"; identity_id = codes "g9"; created_at = 2000 }

abbrev users : Users
users = record { users = []; memberships = [] }

abbrev asked : InviteProvisionInput
asked = record {
  email = normalize_email (λ s. s) (λ s. s) (codes "c@d");
  invite_token_hash = take 32 secret;
  provider_sub = codes "sub";
  now = 1500;
}

abbrev consumed : ConsumedInvite
consumed = consumed_row 1500 (row ports config ctx command tenants accounts fresh state)

no_user : violates_unique (codes "t1") (new_user asked consumed) (codes "u9") users ≡ false
unfolding count_where
no_user = refl

no_link :
    count_where
      (OAuthIdentities.takes_unique
        (codes "t1")
        (record { user_id = codes "u9"; provider_sub = codes "sub"; email = asked.email })
        (codes "g9"))
      []
    ≡ 0
unfolding count_where
no_link = refl

abbrev issued_invites : Invites
issued_invites = (create ports config ctx command tenants accounts fresh state).1.invites

create_then_provision_example :
    (parse_invite_token (assemble_invite_token (codes "acme") secret)
      ≡ ok (record { public_id = codes "acme"; secret = secret }))
    × (find_valid_by_token_hash (codes "t1") (take 32 secret) 1500 issued_invites
        ≡ some (record { id = codes "i2"; tenant_id = codes "t1"; email = asked.email }))
    × ((provision_from_invite
          (codes "t1")
          asked
          made
          (record { invites = issued_invites; users = users; identities = [] })).0
        ≡ ok (some (codes "u9")))
unfolding is_issuable
create_then_provision_example =
    create_then_provision ports config ctx command tenants accounts fresh state is_issuable
      (codes "sub") 1500 made users [] acme-IsField (omega arith) no_user no_link

abbrev redeem : Redemption
redeem = record { token_hash = codes "h1"; email = codes "a@b"; now = 500 }

abbrev ops : List InviteOp
ops =
    consume_op (codes "t1") redeem
    ∷ consume_op (codes "t1") redeem
    ∷ revoke_op (codes "t1") (codes "i1")
    ∷ []

one_h1 : count_where (has_hash (codes "h1")) rows ≤ 1
unfolding count_where ◌===◌
one_h1 = omega arith

redemptions_at_most_one_example : redemptions (codes "h1") ops rows ≤ 1
redemptions_at_most_one_example = redemptions_at_most_one (codes "h1") ops rows one_h1

rows-OnePending : OnePending rows
unfolding count_where
rows-OnePending = record { at = λ t email. ground arith }

run-OnePending_example : OnePending (History.run ops rows)
run-OnePending_example = run-OnePending ops rows rows-OnePending

abbrev tables : Tables
tables = record { invites = rows; users = users; identities = [] }

abbrev redeeming : InviteProvisionInput
redeeming = record {
  email = codes "a@b";
  invite_token_hash = codes "h1";
  provider_sub = codes "sub";
  now = 500;
}

abbrev provisioned : Result (Option Text) × Tables
provisioned = provision_from_invite (codes "t1") redeeming made tables

provision_all_or_nothing_example :
    ((provisioned.0 ≡ ok (some (codes "u9")))
      × IsProvisioned (codes "t1") redeeming made tables provisioned.1)
    ⊎ ((provisioned.0 ≡ ok none) × (provisioned.1 ≡ tables))
provision_all_or_nothing_example = provision_all_or_nothing (codes "t1") redeeming made tables

abbrev first : NewOAuthIdentity
first = record { user_id = codes "u1"; provider_sub = codes "sub"; email = codes "a@b" }

abbrev second : NewOAuthIdentity
second = record { user_id = codes "u2"; provider_sub = codes "sub"; email = codes "c@d" }

abbrev ref : OAuthIdentityRef
ref = record { id = codes "g1"; user_id = codes "u1" }

first_links : (link_first (codes "t1") first (codes "g1") []).0 ≡ ok ref
unfolding link_first count_where
first_links = refl

link_first_converges_example :
    link_first (codes "t1") second (codes "g2") (link_first (codes "t1") first (codes "g1") []).1
    ≡ (ok ref, (link_first (codes "t1") first (codes "g1") []).1)
link_first_converges_example =
    link_first_converges (codes "t1") first second (codes "g1") (codes "g2") [] ref first_links refl
