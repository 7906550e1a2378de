-- ===== src/InviteService.antt =====
-- services/control-plane/src/app/invite-service.ts: an admin creates, lists and revokes invites.
pub mod Creation
pub mod Redeem
mod Tests
use logalot.Users.{UserRow}
use logalot.Authorize.{assert_can}
use logalot.Domain.Email.{normalize_email}
use logalot.Domain.Action.{◌>>=◌, Action, throw_when, lift, ◌>>◌, pure}
use logalot.Tenants.{Tenant, Tenants}
use logalot.Domain.Credentials.{invite_secret_bytes, assemble_invite_token}
use logalot.Ports.{Ports, TenantContext}
use logalot.Invites.{Invite, Invites, NewInvite, count_pending, list_by_tenant}
use logalot.Tenants
use logalot.Invites
use logalot.Base.{
  none, some, true, false, [], if◌then◌else◌, ℕ, Text, Option, List, ◌++◌, codes, Bool, ◌*◌, not,
  ◌∷◌, leb, length, ◌+◌, ◌==◌,
}
use logalot.Domain.Rbac.{Operation}
use logalot.Domain.Errors.{
  ok, err, Result, not_found, text, conflict, plain, cap_reached, secret_length,
}

pub record InviteConfig : Type 0 where
  pub ttl_seconds : ℕ
  pub max_outstanding_per_tenant : ℕ
  pub accept_base_url : Text

pub record CreateInviteCommand : Type 0 where
  pub email : Text
  pub role : Text

pub record IssuedInvite : Type 0 where
  pub invite : Invite
  pub invite_url : Text

pub data InviteOutcome : Type 0 where
  invite_created invite_revoked : InviteOutcome

pub record InviteAuditEvent : Type 0 where
  pub tenant_id : Text
  pub invite_id : Text
  pub actor_id : Text
  pub outcome : InviteOutcome
  pub email : Text
  pub role : Text
  pub ts : ℕ

pub record EmailMessage : Type 0 where
  pub to : Text
  pub subject : Text
  pub text : Text
  pub html : Text

-- The table, the audit trail, and the messages handed to the sender: whether it delivers or throws,
-- the service goes on.
pub record InviteState : Type 0 where
  pub invites : Invites
  pub audit : List InviteAuditEvent
  pub sent : List EmailMessage

-- What the generator, the clock and the database yield to one call.
pub record FreshInvite : Type 0 where
  pub secret : Text
  pub now : ℕ
  pub new_id : Text
  pub created_at : ℕ

abbrev pub secret_hex_length : ℕ
secret_hex_length = invite_secret_bytes * 2

unfoldable pub require_tenant : Option Tenant → Result Tenant
require_tenant none = err (not_found (text "tenant not found"))
require_tenant (some tenant) = ok tenant

-- The cap is on the count that the table has at this moment.
unfoldable pub check_cap : InviteConfig → Text → Action InviteState (Unit {0})
check_cap config tenant_id st =
    throw_when (leb config.max_outstanding_per_tenant (count_pending tenant_id st.invites))
      (conflict (cap_reached config.max_outstanding_per_tenant)) st

unfoldable pub check_secret : Text → Result (Unit {0})
check_secret secret =
    if not (length secret == secret_hex_length)
    then err (plain (secret_length secret_hex_length (length secret)))
    else ok tt

abbrev pub new_invite_of :
    Ports → InviteConfig → TenantContext → CreateInviteCommand → FreshInvite → NewInvite
new_invite_of p config ctx cmd fresh = record {
  role = cmd.role;
  email = normalize_email p.nfc p.lower cmd.email;
  secret_hash = p.sha256 fresh.secret;
  invited_by = some ctx.principal_id;
  expires_at = fresh.now + config.ttl_seconds * 1000;
}

unfoldable pub insert_invite :
    Text → NewInvite → FreshInvite → List UserRow → Action InviteState Invite
insert_invite tenant_id input fresh users st =
    let made = Invites.create tenant_id input fresh.new_id fresh.created_at users st.invites in
    (made.0, record st { invites = made.1 })

abbrev pub invite_url_of : InviteConfig → Text → Text
invite_url_of config plaintext =
    config.accept_base_url ++ (codes "/invite/accept?token=" ++ plaintext)

abbrev pub message_of : Invite → Text → EmailMessage
message_of invite url = record {
  to = invite.email;
  subject = codes "You have been invited to Logalot";
  text = codes "You have been invited. Use this link to accept your invitation: " ++ url;
  html =
      codes "<p>You have been invited. <a href=\""
      ++ (url ++ codes "\">Accept your invitation</a>.</p>");
}

abbrev pub event_of : TenantContext → InviteOutcome → Text → Text → Text → ℕ → InviteAuditEvent
event_of ctx outcome invite_id email role ts = record {
  tenant_id = ctx.tenant_id;
  invite_id = invite_id;
  actor_id = ctx.principal_id;
  outcome = outcome;
  email = email;
  role = role;
  ts = ts;
}

-- The audit record, and the message after it.
unfoldable pub announce : TenantContext → Invite → Text → ℕ → Action InviteState (Unit {0})
announce ctx invite url now st = (
  ok tt,
  record st {
    audit =
        st.audit
        ++ event_of ctx InviteOutcome.invite_created invite.id invite.email invite.role now ∷ [];
    sent = st.sent ++ message_of invite url ∷ [];
  },
)

-- The registry and the users are those at the time of the call.
unfoldable pub create :
    Ports
    → InviteConfig
    → TenantContext
    → CreateInviteCommand
    → Tenants
    → List UserRow
    → FreshInvite
    → Action InviteState IssuedInvite
create p config ctx cmd tenants users fresh = do
  lift (assert_can ctx Operation.invite_create)
  tenant ← lift (require_tenant (Tenants.find_by_id ctx.tenant_id tenants))
  check_cap config ctx.tenant_id
  lift (check_secret fresh.secret)
  invite ← insert_invite ctx.tenant_id (new_invite_of p config ctx cmd fresh) fresh users
  let url = invite_url_of config (assemble_invite_token tenant.public_id fresh.secret)
  announce ctx invite url fresh.now
  pure (record { invite = invite; invite_url = url })

unfoldable pub list : TenantContext → Action InviteState (List Invite)
list ctx st =
    (lift (assert_can ctx Operation.invite_list) >> pure (list_by_tenant ctx.tenant_id st.invites))
      st

-- What `revoke` does with the answer of the table.
unfoldable pub after_revoke :
    TenantContext → Text → ℕ → Bool × Invites → Action InviteState (Unit {0})
after_revoke ctx id now (false, invites) st =
    (err (not_found (text "invite not found")), record st { invites = invites })
after_revoke ctx id now (true, invites) st = (
  ok tt,
  record st {
    invites = invites;
    audit = st.audit ++ event_of ctx InviteOutcome.invite_revoked id [] [] now ∷ [];
  },
)

unfoldable pub revoke : TenantContext → Text → ℕ → Action InviteState (Unit {0})
revoke ctx id now st =
    (lift (assert_can ctx Operation.invite_revoke)
        >> after_revoke ctx id now (Invites.revoke ctx.tenant_id id st.invites))
      st
