-- ===== src/Auth/Login.antt =====
-- Whom `login` admits, and what it leaves behind.
use logalot.RefreshTokens.Insert.{create_new, create_taken}
use logalot.Domain.Credentials.{assemble_refresh_token}
use logalot.Tenants
use logalot.RefreshTokens.{create, NewRefreshToken, Rows, has_id, new_row}
use logalot.Domain.Email.{normalize_email}
use logalot.Domain.Roles.{Role}
use logalot.Tenants.{Tenant, is_active}
use logalot.Users.{AuthRecord, active_status, find_credentials_by_email}
use logalot.Auth.{
  decide_login, login_record, login_check, LoginCommand, Principal, with_role, invalid_credentials,
  password_hash, login, Fresh, mint_refresh_token, session,
}
use logalot.Ports.{Ports, Directory}
use logalot.Domain.Errors.{ok, Error, err, is_ok, pg_error, Result-cases}
use logalot.Base.{
  refl, none, some, true, false, Text, Option, Bool, ◌≡◌, arith, text_eq_iff, inl, inr, [], ℕ, ◌+◌,
  count_where, ◌⊎◌, ◌*◌, ◌↔◌, ◌++◌, ◌∷◌, ◌≢◌,
}

-- The account that the command names in an active tenant, whose password the hasher verifies, and
-- which is active and has a role.
pub record IsAuthentic (p : Ports) (cmd : LoginCommand) (dir : Directory) (who : Principal)
    : Type 0 where
  pub tenant : Tenant
  pub by_slug : Tenants.find_by_public_id cmd.tenant_slug dir.tenants ≡ some tenant
  pub tenant_is_active : is_active tenant.status ≡ true
  pub account : AuthRecord
  pub by_email :
      find_credentials_by_email tenant.id (normalize_email p.nfc p.lower cmd.email) dir.users
      ≡ some account
  pub verified : p.verify cmd.password account.password_hash ≡ true
  pub active : account.status ≡ active_status
  pub role : account.role ≡ some who.role
  pub same_tenant : who.tenant_id ≡ tenant.id
  pub same_user : who.user_id ≡ account.id

pub with_role_ok :
    (e : Error) (t : Text) (r : AuthRecord) (o : Option Role) (who : Principal)
    → with_role e t r o ≡ ok who
    → (r.status ≡ active_status) × (o ≡ some who.role) × (who.tenant_id ≡ t) × (who.user_id ≡ r.id)
with_role_ok e t r none who h = absurd (cc)
with_role_ok e t r (some role) who h = ground (arith, text_eq_iff r.status active_status)

decide_login_ok :
    (t : Option Tenant) (r : Option AuthRecord) (b : Bool) (who : Principal)
    → decide_login t r b ≡ ok who
    → (tenant : Tenant) × (account : AuthRecord) × (t ≡ some tenant)
      × (r ≡ some account)
      × (b ≡ true)
      × (with_role invalid_credentials tenant.id account account.role ≡ ok who)
unfolding decide_login
decide_login_ok (some t) (some r) true who h = (t, r, refl, refl, refl, h)
decide_login_ok (some t) (some r) false who h = absurd (cc)
decide_login_ok (some t) none b who h = absurd (cc)
decide_login_ok none r b who h = absurd (cc)

login_record-some :
    (p : Ports) (cmd : LoginCommand) (dir : Directory) (t : Tenant) (r : AuthRecord)
    → login_record p cmd dir (some t) ≡ some r
    → (is_active t.status ≡ true)
      × (find_credentials_by_email t.id (normalize_email p.nfc p.lower cmd.email) dir.users
          ≡ some r)
unfolding login_record
login_record-some p cmd dir t r h = ground arith

pub login_check-IsAuthentic :
    (p : Ports) (cmd : LoginCommand) (dir : Directory) (who : Principal)
    → login_check p cmd dir ≡ ok who
    → IsAuthentic p cmd dir who
unfolding login_check
login_check-IsAuthentic p cmd dir who h =
    let o = Tenants.find_by_public_id cmd.tenant_slug dir.tenants in
    let found = login_record p cmd dir o in
    let (tenant, account, by_slug, by_email, verified, decided) =
      decide_login_ok o found (p.verify cmd.password (password_hash p found)) who h in
    let (active, role, same_tenant, same_user) =
      with_role_ok invalid_credentials tenant.id account account.role who decided in
    let (tenant_is_active, credentials) =
      login_record-some p cmd dir tenant account (cc (by_slug, by_email)) in
    record {
      tenant = tenant;
      by_slug = by_slug;
      tenant_is_active = tenant_is_active;
      account = account;
      by_email = credentials;
      verified = ground (arith, by_email, verified);
      active = active;
      role = role;
      same_tenant = same_tenant;
      same_user = same_user;
    }

login_check_accepts :
    (p : Ports) (cmd : LoginCommand) (dir : Directory) (who : Principal)
    → IsAuthentic p cmd dir who
    → login_check p cmd dir ≡ ok who
unfolding login_check login_record decide_login
login_check_accepts p cmd dir who h = ground (
  arith,
  h.by_slug,
  h.tenant_is_active,
  h.by_email,
  h.verified,
  h.role,
  h.same_tenant,
  h.same_user,
  h.active,
  text_eq_iff h.account.status active_status,
)

-- What the table of refresh tokens is given by a login.
abbrev pub login_token : Ports → ℕ → Principal → Fresh → NewRefreshToken
login_token p ttl who fresh = record {
  family_id = fresh.family_id;
  user_id = who.user_id;
  token_hash = p.sha256 fresh.secret;
  expires_at = fresh.now + ttl * 1000;
}

-- An authentic login opens a family: it appends the row of its first token, and answers with that
-- token's plaintext and an access token for the account's role. This wants the id that the database
-- makes to be new.
pub login_accepts :
    (p : Ports) (ttl : ℕ) (cmd : LoginCommand) (dir : Directory) (fresh : Fresh) (rows : Rows)
    (who : Principal)
    → IsAuthentic p cmd dir who
    → count_where (has_id fresh.new_id) rows ≡ 0
    → login p ttl cmd dir fresh rows ≡ (
      ok (session p who (assemble_refresh_token who.tenant_id fresh.new_id fresh.secret)),
      rows ++ new_row who.tenant_id (login_token p ttl who fresh) fresh.new_id ∷ [],
    )
unfolding login mint_refresh_token
login_accepts p ttl cmd dir fresh rows who h new = ground (
  arith,
  login_check_accepts p cmd dir who h,
  create_new who.tenant_id (login_token p ttl who fresh) fresh.new_id rows new,
)

login_taken :
    (p : Ports) (ttl : ℕ) (cmd : LoginCommand) (dir : Directory) (fresh : Fresh) (rows : Rows)
    (who : Principal)
    → login_check p cmd dir ≡ ok who
    → count_where (has_id fresh.new_id) rows ≢ 0
    → login p ttl cmd dir fresh rows ≡ (err (pg_error 23505), rows)
unfolding login mint_refresh_token
login_taken p ttl cmd dir fresh rows who e h =
    ground (arith, create_taken who.tenant_id (login_token p ttl who fresh) fresh.new_id rows h)

login_checked :
    (p : Ports) (ttl : ℕ) (cmd : LoginCommand) (dir : Directory) (fresh : Fresh) (rows : Rows)
    (who : Principal)
    → login_check p cmd dir ≡ ok who
    → is_ok (login p ttl cmd dir fresh rows).0 ≡ true
    → count_where (has_id fresh.new_id) rows ≡ 0
login_checked p ttl cmd dir fresh rows who e h =
    ground (arith, login_taken p ttl cmd dir fresh rows who e)

pub login_unchecked :
    (p : Ports) (ttl : ℕ) (cmd : LoginCommand) (dir : Directory) (fresh : Fresh) (rows : Rows)
    (e : Error)
    → login_check p cmd dir ≡ err e
    → login p ttl cmd dir fresh rows ≡ (err e, rows)
unfolding login
login_unchecked p ttl cmd dir fresh rows e h = ground arith

-- A login succeeds exactly when it is authentic (an active tenant has the slug and an account with
-- the normalized email, the hasher verifies the password, and the account is active and has a role)
-- and the id for its token is new.
pub login_ok_iff :
    (p : Ports) (ttl : ℕ) (cmd : LoginCommand) (dir : Directory) (fresh : Fresh) (rows : Rows)
    → (is_ok (login p ttl cmd dir fresh rows).0 ≡ true) ↔ (
        ((who : Principal) × IsAuthentic p cmd dir who)
        × (count_where (has_id fresh.new_id) rows ≡ 0))
login_ok_iff p ttl cmd dir fresh rows = (
  λ h. elim (Result-cases (login_check p cmd dir)) [
    | inl (who, e) ↦ (
      (who, login_check-IsAuthentic p cmd dir who e),
      login_checked p ttl cmd dir fresh rows who e h,
    )
    | inr (x, e) ↦ absurd (ground (arith, login_unchecked p ttl cmd dir fresh rows x e))
  ],
  λ h.
      let ((who, authentic), new) = h in
      ground (arith, login_accepts p ttl cmd dir fresh rows who authentic new),
)

login_check_err :
    (p : Ports) (cmd : LoginCommand) (dir : Directory) (e : Error)
    → login_check p cmd dir ≡ err e
    → e ≡ invalid_credentials
unfolding login_check decide_login
login_check_err p cmd dir e h = ground arith

-- A login that fails writes nothing, and fails with one and the same 401 whatever the reason; the
-- only other failure is that of the database, where the id that it makes is taken.
pub login_fails_uniformly :
    (p : Ports) (ttl : ℕ) (cmd : LoginCommand) (dir : Directory) (fresh : Fresh) (rows : Rows)
    (e : Error)
    → (login p ttl cmd dir fresh rows).0 ≡ err e
    → ((e ≡ invalid_credentials) ⊎ (e ≡ pg_error 23505))
      × ((login p ttl cmd dir fresh rows).1 ≡ rows)
login_fails_uniformly p ttl cmd dir fresh rows e h = elim (Result-cases (login_check p cmd dir)) [
  | inl (who, f) ↦ ground (
    arith,
    login_accepts p ttl cmd dir fresh rows who (login_check-IsAuthentic p cmd dir who f),
    login_taken p ttl cmd dir fresh rows who f,
  )
  | inr (x, f) ↦
      ground (arith, login_unchecked p ttl cmd dir fresh rows x f, login_check_err p cmd dir x f)
]

-- What an authenticated login writes is what the INSERT of its token writes.
pub login_writes :
    (p : Ports) (ttl : ℕ) (cmd : LoginCommand) (dir : Directory) (fresh : Fresh) (rows : Rows)
    (who : Principal)
    → login_check p cmd dir ≡ ok who
    → (login p ttl cmd dir fresh rows).1
      ≡ (create who.tenant_id (login_token p ttl who fresh) fresh.new_id rows).1
login_writes p ttl cmd dir fresh rows who e = ground (
  arith,
  login_taken p ttl cmd dir fresh rows who e,
  login_accepts p ttl cmd dir fresh rows who (login_check-IsAuthentic p cmd dir who e),
  create_taken who.tenant_id (login_token p ttl who fresh) fresh.new_id rows,
  create_new who.tenant_id (login_token p ttl who fresh) fresh.new_id rows,
)
