-- ===== src/Oidc.antt =====
-- services/control-plane/src/app/oidc-authenticator.ts: the login with Google. The token endpoint, the
-- verifier of id tokens, the S256 challenge, the digest of a `sub` and the encoding of a query are not
-- the program's: they are the fields of `Google`. One call reads the clock once here.
pub mod Steps
pub mod Identity
pub mod Callback
pub mod Inversion
pub mod Opened
pub mod Session
pub mod SingleUse
mod Tests
use logalot.ReturnTo.{sanitize_return_to}
use logalot.Domain.Action.{Action}
use logalot.RefreshTokens.{Rows}
use logalot.Tenants.{Tenants, Tenant, is_active}
use logalot.Auth.{Fresh}
use logalot.Provisioner.{Tables, NewRows}
use logalot.Ports.{SessionTokens}
use logalot.Tenants
use logalot.Base.{
  none, some, true, false, [], if◌then◌else◌, Text, Option, List, ℕ, Bytes, codes, Bool, ◌∷◌, ◌++◌,
}
use logalot.Domain.Errors.{ok, err, Error, Result, unauthorized, not_found, text, naming}
use logalot.OAuthState.{OAuthStateRecord, StateStore}
use logalot.OAuthState

pub record GoogleIdTokenClaims : Type 0 where
  pub sub : Text
  pub email : Text

pub record Google : Type 0 where
  pub exchange : Text → Text → Text → Result Text
  pub verify : Text → Text → Result GoogleIdTokenClaims
  pub challenge : Text → Text
  pub hash_sub : Text → Text
  pub encode_query : List (Text × Text) → Text

pub record OidcConfig : Type 0 where
  pub client_id : Text
  pub redirect_uri : Text
  pub auth_endpoint : Text
  pub state_ttl_seconds : ℕ
  pub refresh_ttl_seconds : ℕ
  pub has_provisioner : Bool

pub record OidcAuthorizeCommand : Type 0 where
  pub tenant_slug : Text
  pub return_to : Option Text

pub record OidcCallbackCommand : Type 0 where
  pub code : Text
  pub state : Text
  pub invite_token_hash : Option Bytes

pub record OidcCallbackResult : Type 0 where
  pub tokens : SessionTokens
  pub return_to : Text

pub data OAuthAuditOutcome : Type 0 where
  first_link login invite_provisioned : OAuthAuditOutcome
  reject_invalid_state reject_exchange_failure : OAuthAuditOutcome
  reject_invalid_token reject_no_provisioned_user : OAuthAuditOutcome
  reject_account_inactive reject_identity_conflict : OAuthAuditOutcome
  reject_no_valid_invite : OAuthAuditOutcome

pub record OAuthAuditEvent : Type 0 where
  pub tenant_id : Option Text
  pub user_id : Option Text
  pub hashed_sub : Option Text
  pub outcome : OAuthAuditOutcome
  pub ts : ℕ

-- The flows in flight, the tables, and the audit trail.
pub record OidcState : Type 0 where
  pub states : StateStore
  pub tables : Tables
  pub tokens : Rows
  pub audit : List OAuthAuditEvent

-- What the generators, the clock and the database yield to one callback; `touched` is whether the
-- update of the last login, which nothing waits for, goes through.
pub record FreshCallback : Type 0 where
  pub session : Fresh
  pub made : NewRows
  pub touched : Bool

-- The random material of one authorization.
pub record FreshFlow : Type 0 where
  pub state : Text
  pub nonce : Text
  pub code_verifier : Text
  pub now : ℕ

abbrev pub query_of : Google → OidcConfig → FreshFlow → List (Text × Text)
query_of g config fresh =
    (codes "client_id", config.client_id)
    ∷ (codes "redirect_uri", config.redirect_uri)
    ∷ (codes "response_type", codes "code")
    ∷ (codes "scope", codes "openid email")
    ∷ (codes "state", fresh.state)
    ∷ (codes "nonce", fresh.nonce)
    ∷ (codes "code_challenge", g.challenge fresh.code_verifier)
    ∷ (codes "code_challenge_method", codes "S256")
    ∷ []

abbrev pub record_of : OidcAuthorizeCommand → Text → FreshFlow → OAuthStateRecord
record_of cmd tenant_id fresh = record {
  state = fresh.state;
  tenant_id = tenant_id;
  meta = record {
    provider = some (codes "google");
    code_verifier = some fresh.code_verifier;
    nonce = some fresh.nonce;
    return_to = some (sanitize_return_to cmd.return_to);
  };
  created_at = fresh.now;
}

abbrev pub begin_for :
    Google → OidcConfig → OidcAuthorizeCommand → FreshFlow → Option Tenant → Action OidcState Text
begin_for g config cmd fresh none st =
    (err (not_found (naming "tenant '" cmd.tenant_slug "' not found")), st)
begin_for g config cmd fresh (some tenant) st =
    if is_active tenant.status
    then (
      ok (config.auth_endpoint ++ (codes "?" ++ g.encode_query (query_of g config fresh))),
      record st {
        states =
            OAuthState.put (record_of cmd tenant.id fresh) config.state_ttl_seconds fresh.now
              st.states;
      },
    )
    else (err (not_found (naming "tenant '" cmd.tenant_slug "' not found")), st)

unfoldable pub begin_authorize :
    Google → OidcConfig → OidcAuthorizeCommand → Tenants → FreshFlow → Action OidcState Text
begin_authorize g config cmd tenants fresh =
    begin_for g config cmd fresh (Tenants.find_by_public_id cmd.tenant_slug tenants)

-- An audit event.
abbrev pub noted :
    Option Text → Option Text → Option Text → OAuthAuditOutcome → ℕ → OidcState → OidcState
noted tenant_id user_id hashed_sub outcome now st = record st {
  audit =
      st.audit
      ++ record {
        tenant_id = tenant_id;
        user_id = user_id;
        hashed_sub = hashed_sub;
        outcome = outcome;
        ts = now;
      }
        ∷ [];
}

-- An audit event, and the error.
abbrev pub reject :
    {A : Type 0}
    → Option Text
    → Option Text
    → Option Text
    → OAuthAuditOutcome
    → ℕ
    → Error
    → Action OidcState A
reject tenant_id user_id hashed_sub outcome now e st =
    (err e, noted tenant_id user_id hashed_sub outcome now st)

abbrev pub invalid_state : Error
invalid_state = unauthorized (text "invalid or expired OAuth state")

abbrev pub no_account : Error
no_account = unauthorized (text "no provisioned account for this Google identity")

abbrev pub account_inactive : Error
account_inactive = unauthorized (text "account is not active")
