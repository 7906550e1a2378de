-- ===== src/Auth.antt =====
-- services/control-plane/src/app/auth-service.ts: login, refresh and logout over the table of
-- refresh tokens. The registry and the users are read, and not written.
pub mod Login
pub mod Refresh
pub mod Rotation
pub mod Rejection
pub mod Sessions
pub mod Histories
pub mod Replay
pub mod Race
pub mod Continuity
pub mod Logout
mod Tests
use logalot.Base.{
  ℕ, ◌+◌, ◌*◌, Bool, true, false, not, ◌&&◌, ◌||◌, Option, none, some, Text, Bytes, codes, ◌===◌,
  leb, ◌==◌, is_none, length, if◌then◌else◌,
}
use logalot.Domain.Roles.{Role}
use logalot.Domain.Errors.{Error, Result, ok, err, unauthorized, text}
use logalot.Domain.Action.{Action, pure, throw, lift, ◌>>=◌, ◌>>◌}
use logalot.Domain.Credentials.{ParsedRefreshToken, assemble_refresh_token, parse_refresh_token}
use logalot.Domain.Email.{normalize_email}
use logalot.Ports.{Ports, Directory, SessionClaims, SessionTokens}
use logalot.Tenants
use logalot.Tenants.{Tenant, is_active}
use logalot.Users.{AuthRecord, active_status, find_credentials_by_email, find_credentials_by_id}
use logalot.RefreshTokens.{
  RefreshTokenRow, NewRefreshToken, Rows, create, find_by_id, rotate, revoke_family, look_up,
}

pub record LoginCommand : Type 0 where
  pub tenant_slug : Text
  pub email : Text
  pub password : Text

-- What the generators, the clock and the database yield to one call.
pub record Fresh : Type 0 where
  pub family_id : Text
  pub secret : Text
  pub new_id : Text
  pub now : ℕ

-- Who a session is for.
pub record Principal : Type 0 where
  pub tenant_id : Text
  pub user_id : Text
  pub role : Role

abbrev pub dummy_secret : Text
dummy_secret = codes "logalot-nonexistent-user-timing-equalizer"

abbrev pub invalid_credentials : Error
invalid_credentials = unauthorized (text "invalid credentials")

abbrev pub invalid_refresh_token : Error
invalid_refresh_token = unauthorized (text "invalid refresh token")

-- `tenant?.status === 'active'`
abbrev pub tenant_active : Option Tenant → Bool
tenant_active none = false
tenant_active (some t) = is_active t.status

-- The credentials of an active tenant's user; none for any other tenant.
unfoldable pub login_record : Ports → LoginCommand → Directory → Option Tenant → Option AuthRecord
login_record p cmd dir none = none
login_record p cmd dir (some t) =
    if is_active t.status
    then find_credentials_by_email t.id (normalize_email p.nfc p.lower cmd.email) dir.users
    else none

-- `record?.passwordHash ?? (await this.dummyHash())`
abbrev pub password_hash : Ports → Option AuthRecord → Text
password_hash p none = p.hash dummy_secret
password_hash p (some r) = r.password_hash

-- A record that is active and has a role.
abbrev pub with_role : Error → Text → AuthRecord → Option Role → Result Principal
with_role e tenant_id r none = err e
with_role e tenant_id r (some role) =
    if r.status === active_status
    then ok (record { tenant_id = tenant_id; user_id = r.id; role = role })
    else err e

-- The tests of `login` on the tenant, the record and the verdict of the hasher.
unfoldable pub decide_login : Option Tenant → Option AuthRecord → Bool → Result Principal
decide_login (some t) (some r) true = with_role invalid_credentials t.id r r.role
decide_login _ _ _ = err invalid_credentials

unfoldable pub login_check : Ports → LoginCommand → Directory → Result Principal
login_check p cmd dir =
    let tenant = Tenants.find_by_public_id cmd.tenant_slug dir.tenants in
    let found = login_record p cmd dir tenant in
    decide_login tenant found (p.verify cmd.password (password_hash p found))

abbrev pub session : Ports → Principal → Text → SessionTokens
session p who refresh_token =
    let access =
      p.issue_access
        (record { tenant_id = who.tenant_id; principal_id = who.user_id; role = who.role }) in
    record {
      access_token = access.token;
      refresh_token = refresh_token;
      expires_in = access.expires_in_seconds;
      role = who.role;
      tenant_id = who.tenant_id;
      user_id = who.user_id;
    }

unfoldable pub mint_refresh_token : Ports → ℕ → Text → Text → Fresh → Action Rows Text
mint_refresh_token p ttl tenant_id user_id fresh = do
  id ←
      create tenant_id
        (record {
          family_id = fresh.family_id;
          user_id = user_id;
          token_hash = p.sha256 fresh.secret;
          expires_at = fresh.now + ttl * 1000;
        })
        fresh.new_id
  pure (assemble_refresh_token tenant_id id fresh.secret)

unfoldable pub login : Ports → ℕ → LoginCommand → Directory → Fresh → Action Rows SessionTokens
login p ttl cmd dir fresh = do
  who ← lift (login_check p cmd dir)
  refresh_token ← mint_refresh_token p ttl who.tenant_id who.user_id fresh
  pure (session p who refresh_token)

-- `constantTimeEqual` of domain/secret-hash.ts, over `timingSafeEqual` of Node
unfoldable pub constant_time_equal : Bytes → Bytes → Bool
constant_time_equal a b = (length a == length b) && (a === b)

unfoldable pub safe_parse : Text → Result ParsedRefreshToken
safe_parse raw = elim (parse_refresh_token raw) [ ok p ↦ ok p | err _ ↦ err invalid_refresh_token ]

-- Revokes the family and rejects the request.
abbrev pub reject_family : {A : Type 0} → Text → Text → ℕ → Action Rows A
reject_family tenant_id family_id now rows =
    (err invalid_refresh_token, revoke_family tenant_id family_id now rows)

-- What `refresh` knows when it comes to rotate the token.
pub record Pending : Type 0 where
  pub row : RefreshTokenRow
  pub who : Principal

unfoldable pub check_user :
    ParsedRefreshToken → ℕ → RefreshTokenRow → Option AuthRecord → Action Rows Pending
check_user parsed now row none = reject_family parsed.tenant_id row.family_id now
check_user parsed now row (some r) =
    elim (with_role invalid_refresh_token parsed.tenant_id r r.role) [
      | ok who ↦ pure (record { row = row; who = who })
      | err _ ↦ reject_family parsed.tenant_id row.family_id now
    ]

unfoldable pub check_row :
    Ports → Directory → ParsedRefreshToken → ℕ → Option RefreshTokenRow → Action Rows Pending
check_row p dir parsed now none = throw invalid_refresh_token
check_row p dir parsed now (some row) =
    if not (constant_time_equal (p.sha256 parsed.secret) row.token_hash)
    then throw invalid_refresh_token
    else if not (is_none row.revoked_at) || not (is_none row.rotated_at)
    then reject_family parsed.tenant_id row.family_id now
    else if leb row.expires_at now
    then throw invalid_refresh_token
    else if not (tenant_active (Tenants.find_by_id parsed.tenant_id dir.tenants))
    then reject_family parsed.tenant_id row.family_id now
    else check_user parsed now row (find_credentials_by_id parsed.tenant_id row.user_id dir.users)

-- `refresh` up to the rotation.
unfoldable pub refresh_prepare : Ports → Directory → Text → ℕ → Action Rows Pending
refresh_prepare p dir raw now rows =
    (lift (safe_parse raw) >>= λ parsed.
    lift (look_up p.is_uuid parsed.tenant_id parsed.token_id rows) >>= check_row p dir parsed now)
      rows

-- The successor of the presented token.
abbrev pub successor : Ports → ℕ → Pending → Fresh → NewRefreshToken
successor p ttl pending fresh = record {
  family_id = pending.row.family_id;
  user_id = pending.row.user_id;
  token_hash = p.sha256 fresh.secret;
  expires_at = fresh.now + ttl * 1000;
}

-- What `refresh` makes of the rotation's result.
abbrev pub after_rotate : Ports → Pending → Fresh → Option Text → Action Rows SessionTokens
after_rotate p pending fresh none =
    reject_family pending.who.tenant_id pending.row.family_id fresh.now
after_rotate p pending fresh (some id) =
    pure (session p pending.who (assemble_refresh_token pending.who.tenant_id id fresh.secret))

-- `refresh` from the rotation on.
unfoldable pub refresh_finish : Ports → ℕ → Fresh → Pending → Action Rows SessionTokens
refresh_finish p ttl fresh pending = do
  rotated ←
      rotate pending.who.tenant_id pending.row.id fresh.now (successor p ttl pending fresh)
        fresh.new_id
  after_rotate p pending fresh rotated

unfoldable pub refresh : Ports → ℕ → Directory → Text → Fresh → Action Rows SessionTokens
refresh p ttl dir raw fresh = refresh_prepare p dir raw fresh.now >>= refresh_finish p ttl fresh

abbrev pub logout_row :
    Ports → ParsedRefreshToken → ℕ → Option RefreshTokenRow → Action Rows (Unit {0})
logout_row p parsed now none rows = (ok tt, rows)
logout_row p parsed now (some row) rows =
    if constant_time_equal (p.sha256 parsed.secret) row.token_hash
    then (ok tt, revoke_family parsed.tenant_id row.family_id now rows)
    else (ok tt, rows)

-- `logout` returns nothing, and throws only where the table does.
unfoldable pub logout : Ports → Text → ℕ → Action Rows (Unit {0})
logout p raw now rows = elim (parse_refresh_token raw) [
  | err _ ↦ (ok tt, rows)
  | ok parsed ↦
      (lift (look_up p.is_uuid parsed.tenant_id parsed.token_id rows) >>= logout_row p parsed now)
        rows
]
