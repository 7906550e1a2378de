-- ===== src/Oidc/Session.antt =====
-- For whom a callback opens a session.
use logalot.Users.{AuthRecord, find_credentials_by_id, active_status}
use logalot.Oidc.Inversion.{Links, take_record_ok, answered_ok, flow_of_ok}
use logalot.Oidc.Opened.{Opened, admit_ok}
use logalot.Domain.Action.Laws.{bind-ok}
use logalot.OAuthState.{OAuthStateRecord, unless_expired, is_for}
use logalot.Ports.{Ports, SessionTokens}
use logalot.Oidc.Steps.{take_state, Flow, flow_of, present, answered}
use logalot.Oidc.Callback.{verify_token, exchange_code, handle_callback, use_record, admit}
use logalot.Oidc.{
  Google, OidcConfig, OidcCallbackCommand, OidcState, FreshCallback, OidcCallbackResult,
  GoogleIdTokenClaims, OAuthAuditOutcome,
}
use logalot.OAuthState
use mathlib.Core.Path.{subst}
use logalot.Base.{some, Text, ℕ, ◌≡◌, find_where, ap, sym, ◌∙◌}
use logalot.Domain.Errors.{ok, text}

-- What a session that a callback opens rests on.
pub record IsGenuine (g : Google) (config : OidcConfig) (cmd : OidcCallbackCommand) (now : ℕ)
    (before after : OidcState) (tokens : SessionTokens) : Type 0 where
  pub flow : Flow
  pub stored : OAuthStateRecord
  pub unexpired : unless_expired now (find_where (is_for cmd.state) before.states) ≡ some stored
  pub tenant : flow.tenant_id ≡ stored.tenant_id
  pub verifier : present stored.meta.code_verifier ≡ some flow.code_verifier
  pub nonce : present stored.meta.nonce ≡ some flow.nonce
  pub id_token : Text
  pub exchanged : g.exchange cmd.code config.redirect_uri flow.code_verifier ≡ ok id_token
  pub claims : GoogleIdTokenClaims
  pub verified : g.verify id_token flow.nonce ≡ ok claims
  pub linked : Links flow claims.sub tokens.user_id after.tables.identities
  pub account : AuthRecord
  pub credentials :
      find_credentials_by_id flow.tenant_id tokens.user_id after.tables.users ≡ some account
  pub active : account.status ≡ active_status
  pub role : account.role ≡ some tokens.role
  pub same_tenant : tokens.tenant_id ≡ flow.tenant_id

verify_token_ok :
    (p : Ports) (g : Google) (config : OidcConfig) (cmd : OidcCallbackCommand)
    (fresh : FreshCallback) (flow : Flow) (id_token : Text) (st : OidcState)
    (res : OidcCallbackResult)
    → (verify_token p g config cmd fresh flow id_token st).0 ≡ ok res
    → (claims : GoogleIdTokenClaims) × (g.verify id_token flow.nonce ≡ ok claims)
      × Opened flow claims.sub res (verify_token p g config cmd fresh flow id_token st).1
unfolding verify_token
verify_token_ok p g config cmd fresh flow id_token st res h =
    let asked =
      answered flow OAuthAuditOutcome.reject_invalid_token fresh.session.now
        (text "id_token verification failed") (g.verify id_token flow.nonce) in
    let (claims, e, same) = bind-ok asked (admit p g config cmd fresh flow) st res h in
    (
      claims,
      answered_ok flow _ fresh.session.now _ (g.verify id_token flow.nonce) st claims e,
      subst (λ r. Opened flow claims.sub res r.1) (sym same)
          (admit_ok p g config cmd fresh flow claims (asked st).1 res
            (ap (λ r. r.0) (sym same) ∙ h)),
    )

exchange_code_ok :
    (p : Ports) (g : Google) (config : OidcConfig) (cmd : OidcCallbackCommand)
    (fresh : FreshCallback) (flow : Flow) (st : OidcState) (res : OidcCallbackResult)
    → (exchange_code p g config cmd fresh flow st).0 ≡ ok res
    → (id_token : Text) × (g.exchange cmd.code config.redirect_uri flow.code_verifier ≡ ok id_token)
      × (claims : GoogleIdTokenClaims) × (g.verify id_token flow.nonce ≡ ok claims)
      × Opened flow claims.sub res (exchange_code p g config cmd fresh flow st).1
unfolding exchange_code
exchange_code_ok p g config cmd fresh flow st res h =
    let asked =
      answered flow OAuthAuditOutcome.reject_exchange_failure fresh.session.now
        (text "token exchange failed")
        (g.exchange cmd.code config.redirect_uri flow.code_verifier) in
    let (id_token, e, same) = bind-ok asked (verify_token p g config cmd fresh flow) st res h in
    let (claims, verified, rest) =
      verify_token_ok p g config cmd fresh flow id_token (asked st).1 res
        (ap (λ r. r.0) (sym same) ∙ h) in
    (
      id_token,
      answered_ok flow _ fresh.session.now _ _ st id_token e,
      claims,
      verified,
      subst (λ r. Opened flow claims.sub res r.1) (sym same) rest,
    )

take_state_ok :
    (state : Text) (now : ℕ) (st : OidcState) (v : OAuthStateRecord)
    → (take_state state now st).0 ≡ ok v
    → unless_expired now (find_where (is_for state) st.states) ≡ some v
unfolding take_state OAuthState.consume
take_state_ok state now st v h = take_record_ok now _ _ v h

-- A callback that succeeds is genuine. Its state was stored and unexpired; the code was exchanged
-- with the stored verifier, and the id token verified with the stored nonce; the Google account is
-- linked, in the tenant of that state, to the user of the session; and that user is active and has
-- the role that the session carries.
pub callback_ok-IsGenuine :
    (p : Ports) (g : Google) (config : OidcConfig) (cmd : OidcCallbackCommand)
    (fresh : FreshCallback) (st : OidcState) (res : OidcCallbackResult)
    → (handle_callback p g config cmd fresh st).0 ≡ ok res
    → IsGenuine g config cmd fresh.session.now st
        (handle_callback p g config cmd fresh st).1
        res.tokens
unfolding handle_callback use_record
callback_ok-IsGenuine p g config cmd fresh st res h =
    let now = fresh.session.now in
    let taken = take_state cmd.state now in
    let (v, e, same) = bind-ok taken (use_record p g config cmd fresh) st res h in
    let parts = flow_of now v (present v.meta.code_verifier) (present v.meta.nonce) in
    let (flow, e', same') =
      bind-ok parts (exchange_code p g config cmd fresh) (taken st).1 res
        (ap (λ r. r.0) (sym same) ∙ h) in
    let eq = same ∙ same' in
    let (verifier, nonce, tenant) = flow_of_ok now v _ _ (taken st).1 flow e' in
    let (id_token, exchanged, claims, verified, rest) =
      exchange_code_ok p g config cmd fresh flow (parts (taken st).1).1 res
        (ap (λ r. r.0) (sym eq) ∙ h) in
    let (linked, (account, credentials, active, role, same_tenant)) =
      subst (λ r. Opened flow claims.sub res r.1) (sym eq) rest in
    record {
      flow = flow;
      stored = v;
      unexpired = take_state_ok cmd.state now st v e;
      tenant = tenant;
      verifier = verifier;
      nonce = nonce;
      id_token = id_token;
      exchanged = exchanged;
      claims = claims;
      verified = verified;
      linked = linked;
      account = account;
      credentials = credentials;
      active = active;
      role = role;
      same_tenant = same_tenant;
    }
