-- ===== src/Oidc/SingleUse.antt =====
-- A state serves one callback.
use logalot.Domain.Action.Laws.{bind-keeps, bind-after, bind-err}
use logalot.Auth.{with_role, Principal}
use logalot.OAuthIdentities.{OAuthIdentityRef, Identities, find_by_provider_sub}
use logalot.Provisioner.{Tables}
use logalot.Users.{AuthRecord}
use logalot.Ports.{Ports}
use logalot.OAuthState.{OAuthStateRecord, StateStore, is_for}
use logalot.Oidc.Callback.{
  admit, load_account, active_account, open_session, admit_user, use_record, exchange_code,
  verify_token, handle_callback,
}
use logalot.Oidc.Identity.{
  resolve_identity, Resolved, after_provision, by_email, after_link, by_invite,
}
use logalot.Oidc.{
  OidcConfig, OAuthAuditOutcome, OidcCallbackCommand, OidcState, GoogleIdTokenClaims, Google,
  FreshCallback, account_inactive, invalid_state, noted,
}
use logalot.Oidc.Steps.{Flow, take_state, answered, flow_of, take_record, present}
use logalot.OAuthState
use logalot.Base.{
  [], refl, none, some, true, false, inl, inr, ℕ, Option, Text, ◌≡◌, Option-cases, Bool, arith,
  Bytes, find_where, delete_where, ◌∷◌, ◌∙◌, ap,
}
use logalot.Domain.Errors.{ok, err, Message, Result, Result-cases, text}

answered_keeps :
    {A : Type 0} (flow : Flow) (outcome : OAuthAuditOutcome) (now : ℕ) (m : Message) (r : Result A)
    (st : OidcState)
    → (answered flow outcome now m r st).1.states ≡ st.states
answered_keeps flow outcome now m (ok a) st = refl
answered_keeps flow outcome now m (err e) st = refl

flow_of_keeps :
    (now : ℕ) (v : OAuthStateRecord) (a b : Option Text) (st : OidcState)
    → (flow_of now v a b st).1.states ≡ st.states
flow_of_keeps now v (some a) (some b) st = refl
flow_of_keeps now v (some a) none st = refl
flow_of_keeps now v none b st = refl

take_record_keeps :
    (now : ℕ) (o : Option OAuthStateRecord) (st : OidcState)
    → (take_record now o st).1.states ≡ st.states
take_record_keeps now none st = refl
take_record_keeps now (some v) st = refl

after_provision_keeps :
    (flow : Flow) (hashed : Option Text) (now : ℕ) (end : Result (Option Text) × Tables)
    (st : OidcState)
    → (after_provision flow hashed now end st).1.states ≡ st.states
after_provision_keeps flow hashed now (ok (some u), tables) st = refl
after_provision_keeps flow hashed now (ok none, tables) st = refl
after_provision_keeps flow hashed now (err e, tables) st = refl

after_link_keeps :
    (flow : Flow) (hashed : Option Text) (now : ℕ) (end : Result OAuthIdentityRef × Identities)
    (st : OidcState)
    → (after_link flow hashed now end st).1.states ≡ st.states
after_link_keeps flow hashed now (ok ref, identities) st = refl
after_link_keeps flow hashed now (err e, identities) st = ground arith

by_email_keeps :
    (config : OidcConfig) (cmd : OidcCallbackCommand) (flow : Flow) (claims : GoogleIdTokenClaims)
    (email : Text) (hashed : Option Text) (fresh : FreshCallback) (o : Option AuthRecord)
    (st : OidcState)
    → (by_email config cmd flow claims email hashed fresh o st).1.states ≡ st.states
by_email_keeps config cmd flow claims email hashed fresh (some r) st =
    after_link_keeps flow hashed _ _ st
by_email_keeps config cmd flow claims email hashed fresh none st =
    by_invite_keeps config.has_provisioner cmd.invite_token_hash
  where
    by_invite_keeps :
        (b : Bool) (o : Option Bytes)
        → (by_invite flow claims email hashed fresh b o st).1.states ≡ st.states
    by_invite_keeps true (some hash) = after_provision_keeps flow hashed _ _ st
    by_invite_keeps true none = refl
    by_invite_keeps false o = refl

resolve_identity_keeps :
    (p : Ports) (g : Google) (config : OidcConfig) (cmd : OidcCallbackCommand) (flow : Flow)
    (fresh : FreshCallback) (claims : GoogleIdTokenClaims) (st : OidcState)
    → (resolve_identity p g config cmd flow fresh claims st).1.states ≡ st.states
unfolding resolve_identity
resolve_identity_keeps p g config cmd flow fresh claims st =
    elim (Option-cases (find_by_provider_sub flow.tenant_id claims.sub st.tables.identities)) [
      | inl e ↦ rw e (by_email_keeps config cmd flow claims _ _ fresh _ st)
      | inr (ref, e) ↦ rw e
    ]

active_account_keeps :
    (flow : Flow) (found : Resolved) (hashed : Option Text) (now : ℕ) (o : Option AuthRecord)
    (st : OidcState)
    → (active_account flow found hashed now o st).1.states ≡ st.states
active_account_keeps flow found hashed now none st = refl
active_account_keeps flow found hashed now (some r) st =
    elim (Result-cases (with_role account_inactive flow.tenant_id r r.role)) [
      | inl (who, e) ↦ rw (active_account, e)
      | inr (x, e) ↦ rw (active_account, e)
    ]

open_session_keeps :
    (p : Ports) (g : Google) (config : OidcConfig) (flow : Flow) (fresh : FreshCallback)
    (claims : GoogleIdTokenClaims) (found : Resolved) (who : Principal) (st : OidcState)
    → (open_session p g config flow fresh claims found who st).1.states ≡ st.states
unfolding open_session
open_session_keeps p g config flow fresh claims found who st = ground arith

admit_keeps :
    (p : Ports) (g : Google) (config : OidcConfig) (cmd : OidcCallbackCommand)
    (fresh : FreshCallback) (flow : Flow) (claims : GoogleIdTokenClaims) (st : OidcState)
    → (admit p g config cmd fresh flow claims st).1.states ≡ st.states
unfolding admit admit_user load_account
admit_keeps p g config cmd fresh flow claims st =
    bind-keeps (λ s. s.states) (resolve_identity p g config cmd flow fresh claims)
      (admit_user p g config flow fresh claims) st
      (resolve_identity_keeps p g config cmd flow fresh claims st)
      (λ found t.
        bind-keeps (λ s. s.states) (load_account g flow fresh claims found)
          (open_session p g config flow fresh claims found) t
          (active_account_keeps flow found _ _ _ t)
          (open_session_keeps p g config flow fresh claims found))

use_record_keeps :
    (p : Ports) (g : Google) (config : OidcConfig) (cmd : OidcCallbackCommand)
    (fresh : FreshCallback) (v : OAuthStateRecord) (st : OidcState)
    → (use_record p g config cmd fresh v st).1.states ≡ st.states
unfolding use_record exchange_code verify_token
use_record_keeps p g config cmd fresh v st =
    let now = fresh.session.now in
    bind-keeps (λ s. s.states) (flow_of now v (present v.meta.code_verifier) (present v.meta.nonce))
      (exchange_code p g config cmd fresh) st (flow_of_keeps now v _ _ st)
      (λ flow t.
        bind-keeps (λ s. s.states)
          (answered flow OAuthAuditOutcome.reject_exchange_failure now
            (text "token exchange failed")
            (g.exchange cmd.code config.redirect_uri flow.code_verifier))
          (verify_token p g config cmd fresh flow) t (answered_keeps flow _ now _ _ t)
          (λ id_token u.
            bind-keeps (λ s. s.states)
              (answered flow OAuthAuditOutcome.reject_invalid_token now
                (text "id_token verification failed") (g.verify id_token flow.nonce))
              (admit p g config cmd fresh flow) u (answered_keeps flow _ now _ _ u)
              (admit_keeps p g config cmd fresh flow)))

take_state-states :
    (state : Text) (now : ℕ) (st : OidcState)
    → (take_state state now st).1.states ≡ (OAuthState.consume state now st.states).1
unfolding take_state
take_state-states state now st = take_record_keeps now _ _

find_where-deleted :
    (state : Text) (store : StateStore)
    → find_where (is_for state) (delete_where (is_for state) store) ≡ none
unfolding find_where delete_where
find_where-deleted state [] = refl
find_where-deleted state (e ∷ store) = ground (arith, find_where-deleted state store)

delete_again :
    (state : Text) (store : StateStore)
    → delete_where (is_for state) (delete_where (is_for state) store)
      ≡ delete_where (is_for state) store
unfolding delete_where
delete_again state [] = refl
delete_again state (e ∷ store) = ground (arith, delete_again state store)

callback_states :
    (p : Ports) (g : Google) (config : OidcConfig) (cmd : OidcCallbackCommand)
    (fresh : FreshCallback) (st : OidcState)
    → (handle_callback p g config cmd fresh st).1.states ≡ delete_where (is_for cmd.state) st.states
unfolding handle_callback OAuthState.consume
callback_states p g config cmd fresh st =
    bind-after (λ s. s.states) (take_state cmd.state fresh.session.now)
      (use_record p g config cmd fresh) st (use_record_keeps p g config cmd fresh)
    ∙ take_state-states cmd.state fresh.session.now st

take_unknown :
    (state : Text) (now : ℕ) (st : OidcState)
    → find_where (is_for state) st.states ≡ none
    → delete_where (is_for state) st.states ≡ st.states
    → take_state state now st
      ≡ (err invalid_state, noted none none none OAuthAuditOutcome.reject_invalid_state now st)
unfolding take_state OAuthState.consume
take_unknown state now st e same = ground (arith, e, same)

-- A state that the store does not have is rejected.
unknown_state :
    (p : Ports) (g : Google) (config : OidcConfig) (cmd : OidcCallbackCommand)
    (fresh : FreshCallback) (st : OidcState)
    → find_where (is_for cmd.state) st.states ≡ none
    → delete_where (is_for cmd.state) st.states ≡ st.states
    → handle_callback p g config cmd fresh st ≡ (
      err invalid_state,
      noted none none none OAuthAuditOutcome.reject_invalid_state fresh.session.now st,
    )
unfolding handle_callback
unknown_state p g config cmd fresh st e same =
    let taken = take_unknown cmd.state fresh.session.now st e same in
    bind-err (take_state cmd.state fresh.session.now) (use_record p g config cmd fresh) st
      invalid_state (ap (λ r. r.0) taken)
    ∙ ap (λ r. (err invalid_state, r.1)) taken

-- A callback with a state, whatever comes of it, leaves the store without that state and otherwise as
-- it was; and a later callback with it is rejected as invalid, and changes nothing but the audit
-- trail.
pub callback_single_use :
    (p : Ports) (g : Google) (config : OidcConfig) (cmd later : OidcCallbackCommand)
    (fresh again : FreshCallback) (st : OidcState)
    → later.state ≡ cmd.state
    → let after = (handle_callback p g config cmd fresh st).1 in
      (after.states ≡ delete_where (is_for cmd.state) st.states)
      × (handle_callback p g config later again after ≡ (
        err invalid_state,
        noted none none none OAuthAuditOutcome.reject_invalid_state again.session.now after,
      ))
callback_single_use p g config cmd later fresh again st same =
    let after = (handle_callback p g config cmd fresh st).1 in
    let e = callback_states p g config cmd fresh st in
    (
      e,
      unknown_state p g config later again after
          (rw (same, e) (find_where-deleted cmd.state st.states))
          (rw (same, e) (delete_again cmd.state st.states)),
    )
