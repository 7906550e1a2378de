-- ===== src/Oidc/Identity.antt =====
-- services/control-plane/src/app/oidc-authenticator.ts: step 4 of `handleCallback`, the user that a
-- Google account stands for.
use logalot.Domain.Email.{normalize_email}
use logalot.Provisioner.{Tables, provision_from_invite}
use logalot.Domain.Action.{Action}
use logalot.Users.{AuthRecord, find_credentials_by_email}
use logalot.OAuthIdentities.{OAuthIdentityRef, Identities, link_first, find_by_provider_sub}
use logalot.Ports.{Ports}
use logalot.Oidc.Steps.{Flow}
use logalot.Base.{none, some, true, false, if◌then◌else◌, Text, Bool, Option, ℕ, Bytes}
use logalot.Domain.Errors.{ok, err, Result, is_conflict}
use logalot.Oidc.{
  OAuthAuditOutcome, OidcConfig, GoogleIdTokenClaims, OidcCallbackCommand, Google, FreshCallback,
  OidcState, reject, no_account, noted,
}

-- The user that the Google account stands for.
pub record Resolved : Type 0 where
  pub user_id : Text
  pub is_first_link : Bool
  pub existing : Option OAuthIdentityRef

abbrev pub after_provision :
    Flow → Option Text → ℕ → Result (Option Text) × Tables → Action OidcState Resolved
after_provision flow hashed now (err e, tables) st = (err e, record st { tables = tables })
after_provision flow hashed now (ok none, tables) st =
    reject (some flow.tenant_id) none hashed OAuthAuditOutcome.reject_no_valid_invite now no_account
      (record st { tables = tables })
after_provision flow hashed now (ok (some user_id), tables) st = (
  ok (record { user_id = user_id; is_first_link = true; existing = none }),
  noted (some flow.tenant_id) (some user_id) hashed OAuthAuditOutcome.invite_provisioned now
      (record st { tables = tables }),
)

-- No user has the email: the invite branch, where a provisioner and a token are there.
abbrev pub by_invite :
    Flow
    → GoogleIdTokenClaims
    → Text
    → Option Text
    → FreshCallback
    → Bool
    → Option Bytes
    → Action OidcState Resolved
by_invite flow claims email hashed fresh true (some hash) st =
    after_provision flow hashed fresh.session.now
      (provision_from_invite flow.tenant_id
        (record {
          email = email;
          invite_token_hash = hash;
          provider_sub = claims.sub;
          now = fresh.session.now;
        })
        fresh.made st.tables)
      st
by_invite flow claims email hashed fresh _ _ st =
    reject (some flow.tenant_id) none hashed OAuthAuditOutcome.reject_no_provisioned_user
      fresh.session.now no_account st

abbrev pub after_link :
    Flow → Option Text → ℕ → Result OAuthIdentityRef × Identities → Action OidcState Resolved
after_link flow hashed now (ok ref, identities) st = (
  ok (record { user_id = ref.user_id; is_first_link = true; existing = none }),
  record st { tables = record st.tables { identities = identities } },
)
after_link flow hashed now (err e, identities) st =
    if is_conflict e
    then reject (some flow.tenant_id) none hashed OAuthAuditOutcome.reject_identity_conflict now
        no_account st
    else (err e, st)

-- The first login of the account: by the email of a user, or by an invite.
abbrev pub by_email :
    OidcConfig
    → OidcCallbackCommand
    → Flow
    → GoogleIdTokenClaims
    → Text
    → Option Text
    → FreshCallback
    → Option AuthRecord
    → Action OidcState Resolved
by_email config cmd flow claims email hashed fresh none st =
    by_invite flow claims email hashed fresh config.has_provisioner cmd.invite_token_hash st
by_email config cmd flow claims email hashed fresh (some r) st =
    after_link flow hashed fresh.session.now
      (link_first flow.tenant_id
        (record { user_id = r.id; provider_sub = claims.sub; email = email }) fresh.made.identity_id
        st.tables.identities)
      st

abbrev pub by_sub :
    OidcConfig
    → OidcCallbackCommand
    → Flow
    → GoogleIdTokenClaims
    → Text
    → Option Text
    → FreshCallback
    → Option OAuthIdentityRef
    → Action OidcState Resolved
by_sub config cmd flow claims email hashed fresh (some ref) st =
    (ok (record { user_id = ref.user_id; is_first_link = false; existing = some ref }), st)
by_sub config cmd flow claims email hashed fresh none st =
    by_email config cmd flow claims email hashed fresh
      (find_credentials_by_email flow.tenant_id email st.tables.users) st

-- Step 4
unfoldable pub resolve_identity :
    Ports
    → Google
    → OidcConfig
    → OidcCallbackCommand
    → Flow
    → FreshCallback
    → GoogleIdTokenClaims
    → Action OidcState Resolved
resolve_identity p g config cmd flow fresh claims st =
    by_sub config cmd flow claims (normalize_email p.nfc p.lower claims.email)
      (some (g.hash_sub claims.sub)) fresh
      (find_by_provider_sub flow.tenant_id claims.sub st.tables.identities) st
