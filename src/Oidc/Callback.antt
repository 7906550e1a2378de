-- ===== src/Oidc/Callback.antt =====
-- services/control-plane/src/app/oidc-authenticator.ts: steps 5 to 7 of `handleCallback`, and the
-- whole of it.
use logalot.RefreshTokens.{Rows}
use logalot.OAuthState.{OAuthStateRecord}
use logalot.Users.{find_credentials_by_id, AuthRecord}
use logalot.OAuthIdentities.{OAuthIdentityRef, Identities, touch_last_login}
use logalot.Auth.{Principal, mint_refresh_token, session, with_role}
use logalot.Oidc.Identity.{Resolved, resolve_identity}
use logalot.Ports.{Ports}
use logalot.Oidc.Steps.{Flow, take_state, flow_of, present, answered}
use logalot.Base.{none, some, if◌then◌else◌, Option, Text, ℕ}
use logalot.Domain.Errors.{ok, err, text, Result}
use logalot.Domain.Action.{◌>>=◌, Action, pure}
use logalot.Oidc.{
  OAuthAuditOutcome, Google, FreshCallback, OidcConfig, GoogleIdTokenClaims, OidcCallbackCommand,
  OidcState, noted, OidcCallbackResult, reject, account_inactive,
}

-- Step 5
abbrev pub active_account :
    Flow → Resolved → Option Text → ℕ → Option AuthRecord → Action OidcState Principal
active_account flow found hashed now none =
    reject (some flow.tenant_id) (some found.user_id) hashed
      OAuthAuditOutcome.reject_account_inactive now account_inactive
active_account flow found hashed now (some r) =
    elim (with_role account_inactive flow.tenant_id r r.role) [
      | ok who ↦ pure who
      | err e ↦
          reject (some flow.tenant_id) (some found.user_id) hashed
            OAuthAuditOutcome.reject_account_inactive now e
    ]

unfoldable pub load_account :
    Google → Flow → FreshCallback → GoogleIdTokenClaims → Resolved → Action OidcState Principal
load_account g flow fresh claims found st =
    active_account flow found (some (g.hash_sub claims.sub)) fresh.session.now
      (find_credentials_by_id flow.tenant_id found.user_id st.tables.users) st

abbrev pub touch : Flow → FreshCallback → Option OAuthIdentityRef → Identities → Identities
touch flow fresh none identities = identities
touch flow fresh (some ref) identities =
    if fresh.touched
    then touch_last_login flow.tenant_id ref.id fresh.session.now identities
    else identities

-- Steps 6 and 7, from the refresh token of `mintSession` on.
abbrev pub after_mint :
    Ports
    → Google
    → Flow
    → FreshCallback
    → GoogleIdTokenClaims
    → Resolved
    → Principal
    → Result Text × Rows
    → Action OidcState OidcCallbackResult
after_mint p g flow fresh claims found who (err e, tokens) st =
    (err e, record st { tokens = tokens })
after_mint p g flow fresh claims found who (ok refresh_token, tokens) st = (
  ok (record { tokens = session p who refresh_token; return_to = flow.return_to }),
  noted (some who.tenant_id) (some who.user_id) (some (g.hash_sub claims.sub))
      (if found.is_first_link then OAuthAuditOutcome.first_link else OAuthAuditOutcome.login)
      fresh.session.now (record st { tokens = tokens }),
)

-- The update of the last login, the refresh token, and the session.
unfoldable pub open_session :
    Ports
    → Google
    → OidcConfig
    → Flow
    → FreshCallback
    → GoogleIdTokenClaims
    → Resolved
    → Principal
    → Action OidcState OidcCallbackResult
open_session p g config flow fresh claims found who st =
    after_mint p g flow fresh claims found who
      (mint_refresh_token p config.refresh_ttl_seconds who.tenant_id who.user_id fresh.session
        st.tokens)
      (record st {
        tables = record st.tables {
          identities = touch flow fresh found.existing st.tables.identities;
        };
      })

unfoldable pub admit_user :
    Ports
    → Google
    → OidcConfig
    → Flow
    → FreshCallback
    → GoogleIdTokenClaims
    → Resolved
    → Action OidcState OidcCallbackResult
admit_user p g config flow fresh claims found =
    load_account g flow fresh claims found >>= open_session p g config flow fresh claims found

-- `handleCallback` from the verified claims on.
unfoldable pub admit :
    Ports
    → Google
    → OidcConfig
    → OidcCallbackCommand
    → FreshCallback
    → Flow
    → GoogleIdTokenClaims
    → Action OidcState OidcCallbackResult
admit p g config cmd fresh flow claims =
    resolve_identity p g config cmd flow fresh claims >>= admit_user p g config flow fresh claims

unfoldable pub verify_token :
    Ports
    → Google
    → OidcConfig
    → OidcCallbackCommand
    → FreshCallback
    → Flow
    → Text
    → Action OidcState OidcCallbackResult
verify_token p g config cmd fresh flow id_token =
    answered flow OAuthAuditOutcome.reject_invalid_token fresh.session.now
      (text "id_token verification failed") (g.verify id_token flow.nonce)
    >>= admit p g config cmd fresh flow

unfoldable pub exchange_code :
    Ports
    → Google
    → OidcConfig
    → OidcCallbackCommand
    → FreshCallback
    → Flow
    → Action OidcState OidcCallbackResult
exchange_code p g config cmd fresh flow =
    answered flow OAuthAuditOutcome.reject_exchange_failure fresh.session.now
      (text "token exchange failed") (g.exchange cmd.code config.redirect_uri flow.code_verifier)
    >>= verify_token p g config cmd fresh flow

unfoldable pub use_record :
    Ports
    → Google
    → OidcConfig
    → OidcCallbackCommand
    → FreshCallback
    → OAuthStateRecord
    → Action OidcState OidcCallbackResult
use_record p g config cmd fresh v =
    flow_of fresh.session.now v (present v.meta.code_verifier) (present v.meta.nonce)
    >>= exchange_code p g config cmd fresh

unfoldable pub handle_callback :
    Ports
    → Google
    → OidcConfig
    → OidcCallbackCommand
    → FreshCallback
    → Action OidcState OidcCallbackResult
handle_callback p g config cmd fresh =
    take_state cmd.state fresh.session.now >>= use_record p g config cmd fresh
