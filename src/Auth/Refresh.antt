-- ===== src/Auth/Refresh.antt =====
-- What `refresh` accepts, and what it does with each rejected token.
use logalot.Base.{ℕ, ◌≡◌, refl, ◌↔◌, true, Option, none, some, Text, Bytes, text_eq_iff, arith, ◌<◌}
use logalot.Domain.Errors.{ok}
use logalot.Domain.Credentials.{ParsedRefreshToken, parse_refresh_token}
use logalot.Ports.{Ports, Directory}
use logalot.Tenants
use logalot.Tenants.{Tenant, TenantStatus, is_active}
use logalot.Users.{AuthRecord, active_status, find_credentials_by_id}
use logalot.RefreshTokens.{RefreshTokenRow, Rows, find_by_id, is_live, look_up}
use logalot.Auth.{
  Principal, Pending, tenant_active, constant_time_equal, safe_parse, check_user, check_row,
  refresh_prepare, Role,
}

-- The token `parsed` stands for the row: the row is found under its tenant and id, and holds the
-- digest of its secret.
pub record Presents (p : Ports) (raw : Text) (rows : Rows) (parsed : ParsedRefreshToken)
    (row : RefreshTokenRow) : Type 0 where
  pub parses : parse_refresh_token raw ≡ ok parsed
  pub found : find_by_id parsed.tenant_id parsed.token_id rows ≡ some row
  pub digest : p.sha256 parsed.secret ≡ row.token_hash

-- The tenant is active, and so is the token's user, who has the role.
pub record IsEntitled (dir : Directory) (row : RefreshTokenRow) (who : Principal) : Type 0 where
  pub tenant : tenant_active (Tenants.find_by_id who.tenant_id dir.tenants) ≡ true
  pub account : AuthRecord
  pub credentials : find_credentials_by_id who.tenant_id row.user_id dir.users ≡ some account
  pub active : account.status ≡ active_status
  pub role : account.role ≡ some who.role
  pub user : who.user_id ≡ account.id

pub constant_time_equal_iff : (a b : Bytes) → (constant_time_equal a b ≡ true) ↔ (a ≡ b)
unfolding constant_time_equal
constant_time_equal_iff a b = ground (arith, text_eq_iff a b)

pub safe_parse_ok :
    (raw : Text) (q : ParsedRefreshToken) → safe_parse raw ≡ ok q → parse_refresh_token raw ≡ ok q
unfolding safe_parse
safe_parse_ok raw q e = ground arith

check_user_ok :
    (q : ParsedRefreshToken) (now : ℕ) (row : RefreshTokenRow) (o : Option AuthRecord) (rows : Rows)
    (pending : Pending)
    → (check_user q now row o rows).0 ≡ ok pending
    → (r : AuthRecord) × (o ≡ some r)
      × (r.status ≡ active_status)
      × (r.role ≡ some pending.who.role)
      × (pending.who.user_id ≡ r.id)
      × (pending.who.tenant_id ≡ q.tenant_id)
      × (pending.row ≡ row)
unfolding check_user
check_user_ok q now row none rows pending e = absurd (cc)
check_user_ok q now row (some r) rows pending e = (
  r,
  refl,
  ground (arith, text_eq_iff r.status active_status),
  ground arith,
  ground arith,
  ground arith,
  ground arith,
)

check_row_ok :
    (p : Ports) (dir : Directory) (q : ParsedRefreshToken) (now : ℕ) (o : Option RefreshTokenRow)
    (rows : Rows) (pending : Pending)
    → (check_row p dir q now o rows).0 ≡ ok pending
    → (row : RefreshTokenRow) × (o ≡ some row)
      × (p.sha256 q.secret ≡ row.token_hash)
      × (is_live row ≡ true)
      × (now < row.expires_at)
      × (tenant_active (Tenants.find_by_id q.tenant_id dir.tenants) ≡ true)
      × ((check_user q now row (find_credentials_by_id q.tenant_id row.user_id dir.users) rows).0
          ≡ ok pending)
unfolding check_row
check_row_ok p dir q now none rows pending e = absurd (cc)
check_row_ok p dir q now (some row) rows pending e = (
  row,
  refl,
  ground (arith, constant_time_equal_iff (p.sha256 q.secret) row.token_hash),
  ground arith,
  ground arith,
  ground arith,
  ground arith,
)

-- What a pending rotation rests on.
pub record IsAcceptable (p : Ports) (dir : Directory) (raw : Text) (now : ℕ) (rows : Rows)
    (pending : Pending) : Type 0 where
  pub parsed : ParsedRefreshToken
  pub presents : Presents p raw rows parsed pending.row
  pub tenant : pending.who.tenant_id ≡ parsed.tenant_id
  pub live : is_live pending.row ≡ true
  pub unexpired : now < pending.row.expires_at
  pub entitled : IsEntitled dir pending.row pending.who

refresh_prepare_inv :
    (p : Ports) (dir : Directory) (raw : Text) (now : ℕ) (rows : Rows) (pending : Pending)
    → (refresh_prepare p dir raw now rows).0 ≡ ok pending
    → (q : ParsedRefreshToken) × (safe_parse raw ≡ ok q)
      × ((check_row p dir q now (find_by_id q.tenant_id q.token_id rows) rows).0 ≡ ok pending)
unfolding refresh_prepare look_up check_row
refresh_prepare_inv p dir raw now rows pending e = ground arith

pub refresh_prepare-IsAcceptable :
    (p : Ports) (dir : Directory) (raw : Text) (now : ℕ) (rows : Rows) (pending : Pending)
    → (refresh_prepare p dir raw now rows).0 ≡ ok pending
    → IsAcceptable p dir raw now rows pending
refresh_prepare-IsAcceptable p dir raw now rows pending e =
    let (q, parses, checks) = refresh_prepare_inv p dir raw now rows pending e in
    let (row, found, digest, live, unexpired, tenant, checked) =
      check_row_ok p dir q now (find_by_id q.tenant_id q.token_id rows) rows pending checks in
    let (r, credentials, active, role, user, same_tenant, same_row) =
      check_user_ok q now row (find_credentials_by_id q.tenant_id row.user_id dir.users) rows
        pending checked in
    record {
      parsed = q;
      presents = record {
        parses = safe_parse_ok raw q parses;
        found = cc (found, same_row);
        digest = cc (digest, same_row);
      };
      tenant = same_tenant;
      live = rw same_row live;
      unexpired = rw same_row unexpired;
      entitled = record {
        tenant = rw same_tenant tenant;
        account = r;
        credentials = cc (credentials, same_tenant, same_row);
        active = active;
        role = role;
        user = user;
      };
    }

check_user_accepts :
    (q : ParsedRefreshToken) (now : ℕ) (row : RefreshTokenRow) (r : AuthRecord) (role : Role)
    (rows : Rows)
    → r.status ≡ active_status
    → r.role ≡ some role
    → check_user q now row (some r) rows ≡ (
      ok (record {
        row = row;
        who = record { tenant_id = q.tenant_id; user_id = r.id; role = role };
      }),
      rows,
    )
unfolding check_user
check_user_accepts q now row r role rows a e = ground (arith, text_eq_iff r.status active_status)

check_row_accepts :
    (p : Ports) (dir : Directory) (q : ParsedRefreshToken) (now : ℕ) (row : RefreshTokenRow)
    (rows : Rows)
    → p.sha256 q.secret ≡ row.token_hash
    → is_live row ≡ true
    → now < row.expires_at
    → tenant_active (Tenants.find_by_id q.tenant_id dir.tenants) ≡ true
    → check_row p dir q now (some row) rows
      ≡ check_user q now row (find_credentials_by_id q.tenant_id row.user_id dir.users) rows
unfolding check_row
check_row_accepts p dir q now row rows d l u t =
    ground (arith, constant_time_equal_iff (p.sha256 q.secret) row.token_hash)

-- A token that is acceptable comes to its rotation, and the rows are as they were.
pub refresh_prepare_accepts :
    (p : Ports) (dir : Directory) (raw : Text) (now : ℕ) (rows : Rows) (pending : Pending)
    → IsAcceptable p dir raw now rows pending
    → refresh_prepare p dir raw now rows ≡ (ok pending, rows)
unfolding refresh_prepare safe_parse look_up
refresh_prepare_accepts p dir raw now rows pending h = ground (
  arith,
  check_row_accepts p dir h.parsed now pending.row rows h.presents.digest h.live h.unexpired tenant,
  check_user_accepts h.parsed now pending.row h.entitled.account pending.who.role rows
      h.entitled.active h.entitled.role,
  credentials,
)
  where
    tenant : tenant_active (Tenants.find_by_id h.parsed.tenant_id dir.tenants) ≡ true
    tenant = rw (← h.tenant) h.entitled.tenant

    credentials :
        find_credentials_by_id h.parsed.tenant_id pending.row.user_id dir.users
        ≡ some h.entitled.account
    credentials = rw (← h.tenant) h.entitled.credentials
