-- ===== src/Http/Session.antt =====
-- From a login to a request: what the access token of a session is worth.
use logalot.Domain.Split.{starts_with}
use logalot.Base.{
  ◌≡◌, Text, true, false, some, ◌++◌, codes, is_empty, refl, inl, inr, arith, Option-cases, ◌===◌,
  sym, ◌∙◌,
}
use logalot.Http.{JwtPayload, authenticate, bearer, is_one_line, verify_access, role_of, context_of}
use logalot.Http.World.{World, Request, Deps, Body}
use logalot.Http.Routes.{post_login}
use logalot.Ports.{SessionClaims, SessionTokens}
use logalot.Domain.Roles.{Role}
use logalot.Domain.Errors.{ok}
use logalot.Auth.{LoginCommand, Principal, Fresh, login, login_check, session, mint_refresh_token}
use logalot.Domain.Action.{lift, pure, Action, ◌>>=◌}
use logalot.Domain.Action.Laws.{bind-ok}
use logalot.Ports.{Ports, Directory}
use logalot.RefreshTokens.{Rows}
use mathlib.Core.Path.{subst}
use logalot.Base.{ℕ}
use logalot.Auth.Login.{IsAuthentic, login_check-IsAuthentic}

-- The values of the type `Role`.
abbrev pub role_text : Role → Text
role_text Role.platform_operator = codes "platform_operator"
role_text Role.tenant_admin = codes "tenant_admin"
role_text Role.member = codes "member"

-- What `issueAccess` signs.
abbrev pub payload_of : SessionClaims → JwtPayload
payload_of claims = record {
  tenant_id = some claims.tenant_id;
  sub = some claims.principal_id;
  role = some (role_text claims.role);
}

-- What a signed token is, according to jose: a text of the alphabet of base64url and dots, whose
-- verification gives the payload that was signed.
pub record IsSigned (d : Deps) (claims : SessionClaims) : Type 0 where
  pub accepted : d.jwt_verify (d.ports.issue_access claims).token ≡ ok (payload_of claims)
  pub one_line : is_one_line (d.ports.issue_access claims).token ≡ true
  pub filled : is_empty (d.ports.issue_access claims).token ≡ false

abbrev pub claims_of_session : SessionTokens → SessionClaims
claims_of_session tokens = record {
  tenant_id = tokens.tenant_id;
  principal_id = tokens.user_id;
  role = tokens.role;
}

role_of-text : (role : Role) → role_of (role_text role) ≡ some role
unfolding ◌===◌
role_of-text Role.platform_operator = refl
role_of-text Role.tenant_admin = refl
role_of-text Role.member = refl

bearer-token :
    (token : Text)
    → is_one_line token ≡ true
    → is_empty token ≡ false
    → bearer (codes "Bearer " ++ token) ≡ some token
unfolding bearer starts_with
bearer-token token one filled = ground (arith, one, filled)

authenticate-issue :
    (d : Deps) (claims : SessionClaims)
    → IsSigned d claims
    → authenticate d.jwt_verify (some (codes "Bearer " ++ (d.ports.issue_access claims).token))
      ≡ ok (context_of claims)
unfolding authenticate verify_access
authenticate-issue d claims signed =
    let token = (d.ports.issue_access claims).token in
    let known = bearer-token token signed.one_line signed.filled in
    ground (arith, known, signed.accepted, role_of-text claims.role)

login_session :
    (p : Ports) (ttl : ℕ) (cmd : LoginCommand) (dir : Directory) (fresh : Fresh) (rows : Rows)
    (tokens : SessionTokens)
    → (login p ttl cmd dir fresh rows).0 ≡ ok tokens
    → (who : Principal) × (refresh_token : Text) × (login_check p cmd dir ≡ ok who)
      × (tokens ≡ session p who refresh_token)
unfolding login
login_session p ttl cmd dir fresh rows tokens h =
    let opened : Principal → Action Rows SessionTokens = λ who.
      mint_refresh_token p ttl who.tenant_id who.user_id fresh >>= λ refresh_token.
      pure (session p who refresh_token) in
    let (who, checked, minted) = bind-ok (lift (login_check p cmd dir)) opened rows tokens h in
    let (refresh_token, made, ended) =
      bind-ok (mint_refresh_token p ttl who.tenant_id who.user_id fresh)
        (λ refresh_token. pure (session p who refresh_token)) rows tokens
        (sym (λ i. (minted i).0) ∙ h) in
    (who, refresh_token, checked, ground (arith, h, minted, ended))

answered_session :
    (d : Deps) (req : Request) (w : World) (tokens : SessionTokens)
    → (post_login d req w).0.body ≡ Body.session tokens
    → (cmd : LoginCommand) × (d.contracts.login req.body ≡ some cmd)
      × ((login d.ports d.refresh_ttl_seconds cmd w.dir req.fresh.session w.tokens).0 ≡ ok tokens)
unfolding post_login
answered_session d req w tokens h = elim (Option-cases (d.contracts.login req.body)) [
  | inl n ↦ absurd (ground (arith, n, h))
  | inr (cmd, parsed) ↦ (cmd, parsed, ground (arith, parsed, h))
]

-- A session that the login answers with is a person's who could show the password of an active
-- account of an active tenant, and its access token, sent as a bearer token, makes a request that
-- person's, in that tenant and with that role, as long as the token that is signed is a text of one line
-- and is accepted with the payload that was signed.
pub login_authenticates :
    (d : Deps) (req : Request) (w : World) (tokens : SessionTokens)
    → IsSigned d (claims_of_session tokens)
    → (post_login d req w).0.body ≡ Body.session tokens
    → (cmd : LoginCommand) × (who : Principal) × (d.contracts.login req.body ≡ some cmd)
      × IsAuthentic d.ports cmd w.dir who
      × (authenticate d.jwt_verify (some (codes "Bearer " ++ tokens.access_token))
          ≡ ok (record { tenant_id = who.tenant_id; principal_id = who.user_id; role = who.role }))
login_authenticates d req w tokens signed answered =
    let (cmd, parsed, logged_in) = answered_session d req w tokens answered in
    let (who, refresh_token, checked, made) =
      login_session d.ports d.refresh_ttl_seconds cmd w.dir req.fresh.session w.tokens tokens
        logged_in in
    let claims : SessionClaims = record {
      tenant_id = who.tenant_id;
      principal_id = who.user_id;
      role = who.role;
    } in
    let known : IsSigned d claims =
      subst (λ (t : SessionTokens). IsSigned d (claims_of_session t)) made signed in
    (
      cmd,
      who,
      parsed,
      login_check-IsAuthentic d.ports cmd w.dir who checked,
      (λ i. authenticate d.jwt_verify (some (codes "Bearer " ++ (made i).access_token)))
          ∙ authenticate-issue d claims known,
    )
