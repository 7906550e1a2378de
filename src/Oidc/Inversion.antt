-- ===== src/Oidc/Inversion.antt =====
-- What the success of each step of a callback shows.
use logalot.Auth.Login.{with_role_ok}
use logalot.Domain.Email.{normalize_email}
use logalot.Auth.{Principal, with_role}
use logalot.Ports.{Ports}
use logalot.Oidc.Callback.{load_account, active_account}
use logalot.Users.{
  Users, AuthRecord, find_credentials_by_id, find_credentials_by_email, active_status,
}
use logalot.Provisioner.Atomic.{provision_all_or_nothing}
use logalot.OAuthIdentities.Pinned.{link_first-resolves}
use logalot.Oidc.Identity.{
  Resolved, after_provision, after_link, resolve_identity, by_email, by_sub, by_invite,
}
use logalot.Provisioner.{InviteProvisionInput, NewRows, provision_from_invite}
use logalot.OAuthIdentities.{
  Identities, NewOAuthIdentity, OAuthIdentityRef, find_by_provider_sub, link_first,
}
use logalot.Oidc.{
  OAuthAuditOutcome, OidcState, GoogleIdTokenClaims, OidcConfig, FreshCallback, OidcCallbackCommand,
  Google, account_inactive,
}
use logalot.OAuthState.{OAuthStateRecord}
use logalot.Oidc.Steps.{Flow, take_record, flow_of, answered}
use logalot.Base.{
  none, some, inl, inr, ℕ, Option, Text, ◌≡◌, arith, refl, true, false, Bool, Bytes, ◌∙◌, ap,
}
use logalot.Domain.Errors.{ok, err, Message, Result, Result-cases}

pub take_record_ok :
    (now : ℕ) (o : Option OAuthStateRecord) (st : OidcState) (v : OAuthStateRecord)
    → (take_record now o st).0 ≡ ok v
    → o ≡ some v
take_record_ok now none st v h = absurd (cc)
take_record_ok now (some w) st v h = ground arith

pub flow_of_ok :
    (now : ℕ) (v : OAuthStateRecord) (a b : Option Text) (st : OidcState) (flow : Flow)
    → (flow_of now v a b st).0 ≡ ok flow
    → (a ≡ some flow.code_verifier) × (b ≡ some flow.nonce) × (flow.tenant_id ≡ v.tenant_id)
flow_of_ok now v (some a) (some b) st flow h = ground arith
flow_of_ok now v (some a) none st flow h = absurd (cc)
flow_of_ok now v none b st flow h = absurd (cc)

pub answered_ok :
    {A : Type 0} (flow : Flow) (outcome : OAuthAuditOutcome) (now : ℕ) (m : Message) (r : Result A)
    (st : OidcState) (a : A)
    → (answered flow outcome now m r st).0 ≡ ok a
    → r ≡ ok a
answered_ok flow outcome now m (ok b) st a h = h
answered_ok flow outcome now m (err e) st a h = absurd (cc)

-- The account resolves to the user, in these identities.
abbrev pub Links : Flow → Text → Text → Identities → Type 0
Links flow sub user_id identities =
    (link : OAuthIdentityRef) × (find_by_provider_sub flow.tenant_id sub identities ≡ some link)
    × (link.user_id ≡ user_id)

after_link_ok :
    (flow : Flow) (hashed : Option Text) (now : ℕ) (input : NewOAuthIdentity) (new_id : Text)
    (st : OidcState) (found : Resolved) (r : Result OAuthIdentityRef)
    → (link_first flow.tenant_id input new_id st.tables.identities).0 ≡ r
    → let end =
        after_link flow hashed now
          (r, (link_first flow.tenant_id input new_id st.tables.identities).1)
          st in
      end.0 ≡ ok found → Links flow input.provider_sub found.user_id end.1.tables.identities
after_link_ok flow hashed now input new_id st found (ok ref) e h =
    (ref, link_first-resolves flow.tenant_id input new_id st.tables.identities ref e, ground arith)
after_link_ok flow hashed now input new_id st found (err x) e h = absurd (ground arith)

after_provision_ok :
    (flow : Flow) (hashed : Option Text) (now : ℕ) (input : InviteProvisionInput) (made : NewRows)
    (st : OidcState) (found : Resolved)
    → let end =
        after_provision flow hashed now
          (provision_from_invite flow.tenant_id input made st.tables)
          st in
      end.0 ≡ ok found → Links flow input.provider_sub found.user_id end.1.tables.identities
after_provision_ok flow hashed now input made st found h =
    elim (provision_all_or_nothing flow.tenant_id input made st.tables) [
      | inl (answer, done) ↦
          (done.link, ground (arith, answer, done.linked), ground (arith, answer, done.same_user))
      | inr (answer, same) ↦ absurd (ground (arith, answer))
    ]

by_invite_ok :
    (flow : Flow) (claims : GoogleIdTokenClaims) (email : Text) (hashed : Option Text)
    (fresh : FreshCallback) (b : Bool) (o : Option Bytes) (st : OidcState) (found : Resolved)
    → (by_invite flow claims email hashed fresh b o st).0 ≡ ok found
    → Links flow claims.sub found.user_id
        (by_invite flow claims email hashed fresh b o st).1.tables.identities
by_invite_ok flow claims email hashed fresh true (some hash) st found h =
    after_provision_ok flow hashed fresh.session.now
      (record {
        email = email;
        invite_token_hash = hash;
        provider_sub = claims.sub;
        now = fresh.session.now;
      })
      fresh.made st found h
by_invite_ok flow claims email hashed fresh true none st found h = absurd (cc)
by_invite_ok flow claims email hashed fresh false o st found h = absurd (cc)

by_email_ok :
    (config : OidcConfig) (cmd : OidcCallbackCommand) (flow : Flow) (claims : GoogleIdTokenClaims)
    (email : Text) (hashed : Option Text) (fresh : FreshCallback) (o : Option AuthRecord)
    (st : OidcState) (found : Resolved)
    → (by_email config cmd flow claims email hashed fresh o st).0 ≡ ok found
    → Links flow claims.sub found.user_id
        (by_email config cmd flow claims email hashed fresh o st).1.tables.identities
by_email_ok config cmd flow claims email hashed fresh none st found h =
    by_invite_ok flow claims email hashed fresh config.has_provisioner cmd.invite_token_hash st
      found h
by_email_ok config cmd flow claims email hashed fresh (some r) st found h =
    after_link_ok flow hashed fresh.session.now
      (record { user_id = r.id; provider_sub = claims.sub; email = email }) fresh.made.identity_id
      st found _ refl h

by_sub_ok :
    (config : OidcConfig) (cmd : OidcCallbackCommand) (flow : Flow) (claims : GoogleIdTokenClaims)
    (email : Text) (hashed : Option Text) (fresh : FreshCallback) (o : Option OAuthIdentityRef)
    (st : OidcState) (found : Resolved)
    → find_by_provider_sub flow.tenant_id claims.sub st.tables.identities ≡ o
    → (by_sub config cmd flow claims email hashed fresh o st).0 ≡ ok found
    → Links flow claims.sub found.user_id
        (by_sub config cmd flow claims email hashed fresh o st).1.tables.identities
by_sub_ok config cmd flow claims email hashed fresh (some ref) st found e h = (ref, e, ground arith)
by_sub_ok config cmd flow claims email hashed fresh none st found e h =
    by_email_ok config cmd flow claims email hashed fresh
      (find_credentials_by_email flow.tenant_id email st.tables.users) st found h

-- Whichever way a user is resolved, the Google account is linked to that user afterwards.
pub resolve_identity_ok :
    (p : Ports) (g : Google) (config : OidcConfig) (cmd : OidcCallbackCommand) (flow : Flow)
    (fresh : FreshCallback) (claims : GoogleIdTokenClaims) (st : OidcState) (found : Resolved)
    → (resolve_identity p g config cmd flow fresh claims st).0 ≡ ok found
    → Links flow claims.sub found.user_id
        (resolve_identity p g config cmd flow fresh claims st).1.tables.identities
unfolding resolve_identity
resolve_identity_ok p g config cmd flow fresh claims st found h =
    by_sub_ok config cmd flow claims (normalize_email p.nfc p.lower claims.email)
      (some (g.hash_sub claims.sub)) fresh
      (find_by_provider_sub flow.tenant_id claims.sub st.tables.identities) st found refl h

-- The account that a session is opened for.
pub record IsActiveAccount (flow : Flow) (user_id : Text) (users : Users) (who : Principal)
    : Type 0 where
  pub account : AuthRecord
  pub credentials : find_credentials_by_id flow.tenant_id user_id users ≡ some account
  pub active : account.status ≡ active_status
  pub role : account.role ≡ some who.role
  pub tenant : who.tenant_id ≡ flow.tenant_id
  pub user : who.user_id ≡ account.id

active_account_ok :
    (flow : Flow) (found : Resolved) (hashed : Option Text) (now : ℕ) (o : Option AuthRecord)
    (st : OidcState) (who : Principal)
    → find_credentials_by_id flow.tenant_id found.user_id st.tables.users ≡ o
    → (active_account flow found hashed now o st).0 ≡ ok who
    → IsActiveAccount flow found.user_id st.tables.users who
      × ((active_account flow found hashed now o st).1 ≡ st)
active_account_ok flow found hashed now none st who e h = absurd (cc)
active_account_ok flow found hashed now (some r) st who e h =
    elim (Result-cases (with_role account_inactive flow.tenant_id r r.role)) [
      | inl (w, f) ↦
          let same : w ≡ who = ground arith in
          let (active, role, tenant, user) =
            with_role_ok account_inactive flow.tenant_id r r.role who (f ∙ ap ok same) in
          (
            record {
              account = r;
              credentials = e;
              active = active;
              role = role;
              tenant = tenant;
              user = user;
            },
            rw (active_account, f),
          )
      | inr (x, f) ↦ absurd (ground arith)
    ]

pub load_account_ok :
    (g : Google) (flow : Flow) (fresh : FreshCallback) (claims : GoogleIdTokenClaims)
    (found : Resolved) (st : OidcState) (who : Principal)
    → (load_account g flow fresh claims found st).0 ≡ ok who
    → IsActiveAccount flow found.user_id st.tables.users who
      × ((load_account g flow fresh claims found st).1 ≡ st)
unfolding load_account
load_account_ok g flow fresh claims found st who h =
    active_account_ok flow found (some (g.hash_sub claims.sub)) fresh.session.now
      (find_credentials_by_id flow.tenant_id found.user_id st.tables.users) st who refl h
