-- ===== src/Oidc/Opened.antt =====
-- What the steps of a callback from the verified claims on show, when they open a session.
use logalot.Users.Lookup.{find_credentials_by_id-id}
use logalot.Auth.{Principal}
use logalot.Domain.Action.Laws.{bind-ok}
use logalot.Oidc.Identity.{Resolved, resolve_identity}
use logalot.Oidc.Inversion.{Links, IsActiveAccount, load_account_ok, resolve_identity_ok}
use logalot.Users.{Users, AuthRecord, find_credentials_by_id, active_status}
use logalot.Oidc.{
  FreshCallback, Google, OidcCallbackResult, OidcConfig, OidcState, GoogleIdTokenClaims,
  OidcCallbackCommand,
}
use logalot.Ports.{Ports}
use logalot.Oidc.Callback.{open_session, admit_user, admit, touch, load_account}
use logalot.Oidc.Steps.{Flow}
use logalot.OAuthIdentities.{
  find_by_provider_sub, touch_last_login, Identities, OAuthIdentityRef, OAuthIdentity, has_sub,
  set_last_login,
}
use mathlib.Core.Path.{subst}
use logalot.Base.{
  refl, none, some, Text, ℕ, Option, ◌≡◌, find_where, arith, find_where-update, sym, ◌===◌, ◌∙◌,
  ◌&&◌, ap,
}
use logalot.Domain.Errors.{ok}

touch_last_login-linked :
    (t id sub : Text) (now : ℕ) (rows : Identities) (link : OAuthIdentityRef)
    (o : Option OAuthIdentity)
    → find_where (has_sub t sub) rows ≡ o
    → find_by_provider_sub t sub rows ≡ some link
    → find_by_provider_sub t sub (touch_last_login t id now rows) ≡ some link
unfolding find_by_provider_sub touch_last_login
touch_last_login-linked t id sub now rows link none n e = absurd (ground (arith, n, e))
touch_last_login-linked t id sub now rows link (some r) f e = ground (
  arith,
  e,
  f,
  find_where-update (has_sub t sub) (λ x. (x.tenant_id === t) && (x.id === id)) (set_last_login now)
      rows r (λ x. refl) f,
)

-- The note of a login moves no link.
touch-linked :
    (flow : Flow) (fresh : FreshCallback) (o : Option OAuthIdentityRef) (sub : Text)
    (rows : Identities) (link : OAuthIdentityRef)
    → find_by_provider_sub flow.tenant_id sub rows ≡ some link
    → find_by_provider_sub flow.tenant_id sub (touch flow fresh o rows) ≡ some link
touch-linked flow fresh none sub rows link e = e
touch-linked flow fresh (some ref) sub rows link e = ground (
  arith,
  e,
  touch_last_login-linked flow.tenant_id ref.id sub fresh.session.now rows link _ refl e,
)

open_session_ok :
    (p : Ports) (g : Google) (config : OidcConfig) (flow : Flow) (fresh : FreshCallback)
    (claims : GoogleIdTokenClaims) (found : Resolved) (who : Principal) (st : OidcState)
    (res : OidcCallbackResult)
    → let end = open_session p g config flow fresh claims found who st in
      end.0 ≡ ok res
      → (res.tokens.user_id ≡ who.user_id)
        × (res.tokens.tenant_id ≡ who.tenant_id)
        × (res.tokens.role ≡ who.role)
        × (end.1.tables.users ≡ st.tables.users)
        × (end.1.tables.identities ≡ touch flow fresh found.existing st.tables.identities)
unfolding open_session
open_session_ok p g config flow fresh claims found who st res h =
    (ground arith, ground arith, ground arith, ground arith, ground arith)

-- What a session of the principal shows, in the state after it.
abbrev pub Opened : Flow → Text → OidcCallbackResult → OidcState → Type 0
Opened flow sub res after =
    Links flow sub res.tokens.user_id after.tables.identities
    × ((account : AuthRecord) × (find_credentials_by_id flow.tenant_id res.tokens.user_id
            after.tables.users
          ≡ some account)
        × (account.status ≡ active_status)
        × (account.role ≡ some res.tokens.role)
        × (res.tokens.tenant_id ≡ flow.tenant_id))

credentials_of :
    (t : Text) (user other : Text) (users users' : Users) (account : AuthRecord)
    → find_credentials_by_id t user users ≡ some account
    → other ≡ user
    → users' ≡ users
    → find_credentials_by_id t other users' ≡ some account
credentials_of t user other users users' account e same kept = rw (same, kept) e

opened :
    (p : Ports) (g : Google) (config : OidcConfig) (flow : Flow) (fresh : FreshCallback)
    (claims : GoogleIdTokenClaims) (found : Resolved) (who : Principal) (st : OidcState)
    (res : OidcCallbackResult)
    → Links flow claims.sub found.user_id st.tables.identities
    → IsActiveAccount flow found.user_id st.tables.users who
    → (open_session p g config flow fresh claims found who st).0 ≡ ok res
    → Opened flow claims.sub res (open_session p g config flow fresh claims found who st).1
opened p g config flow fresh claims found who st res (link, linked, same) active h =
    let (user, tenant, role, users, identities) =
      open_session_ok p g config flow fresh claims found who st res h in
    let id =
      find_credentials_by_id-id flow.tenant_id found.user_id st.tables.users active.account
        active.credentials in
    let same_user : res.tokens.user_id ≡ found.user_id = user ∙ (active.user ∙ id) in
    (
      (
        link,
        rw identities
            (touch-linked flow fresh found.existing claims.sub st.tables.identities link linked),
        same ∙ sym same_user,
      ),
      (
        active.account,
        credentials_of flow.tenant_id found.user_id res.tokens.user_id st.tables.users _
            active.account active.credentials same_user users,
        active.active,
        active.role ∙ ap some (sym role),
        tenant ∙ active.tenant,
      ),
    )

admit_user_ok :
    (p : Ports) (g : Google) (config : OidcConfig) (flow : Flow) (fresh : FreshCallback)
    (claims : GoogleIdTokenClaims) (found : Resolved) (st : OidcState) (res : OidcCallbackResult)
    → Links flow claims.sub found.user_id st.tables.identities
    → (admit_user p g config flow fresh claims found st).0 ≡ ok res
    → Opened flow claims.sub res (admit_user p g config flow fresh claims found st).1
unfolding admit_user
admit_user_ok p g config flow fresh claims found st res links h =
    let (who, e, eq) =
      bind-ok (load_account g flow fresh claims found)
        (open_session p g config flow fresh claims found) st res h in
    let (active, kept) = load_account_ok g flow fresh claims found st who e in
    let same = eq ∙ ap (open_session p g config flow fresh claims found who) kept in
    subst (λ r. Opened flow claims.sub res r.1) (sym same)
      (opened p g config flow fresh claims found who st res links active
        (ap (λ r. r.0) (sym same) ∙ h))

-- What `admit` rests on.
pub admit_ok :
    (p : Ports) (g : Google) (config : OidcConfig) (cmd : OidcCallbackCommand)
    (fresh : FreshCallback) (flow : Flow) (claims : GoogleIdTokenClaims) (st : OidcState)
    (res : OidcCallbackResult)
    → (admit p g config cmd fresh flow claims st).0 ≡ ok res
    → Opened flow claims.sub res (admit p g config cmd fresh flow claims st).1
unfolding admit
admit_ok p g config cmd fresh flow claims st res h =
    let (found, e, same) =
      bind-ok (resolve_identity p g config cmd flow fresh claims)
        (admit_user p g config flow fresh claims) st res h in
    subst (λ r. Opened flow claims.sub res r.1) (sym same)
      (admit_user_ok p g config flow fresh claims found
        (resolve_identity p g config cmd flow fresh claims st).1 res
        (resolve_identity_ok p g config cmd flow fresh claims st found e)
        (ap (λ r. r.0) (sym same) ∙ h))
