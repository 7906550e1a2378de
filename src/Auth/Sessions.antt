-- ===== src/Auth/Sessions.antt =====
-- Histories of logins, refreshes and logouts: a login opens a family with one live token, and no
-- family ever has two.
use logalot.Auth.Rotation.{refresh_prepared, found_pending, refresh_rejected}
use logalot.Auth.Refresh.{refresh_prepare-IsAcceptable, refresh_prepare_accepts}
use logalot.RefreshTokens.Family.{live_in, live_in-revoke_le, live_in-rotate}
use logalot.Users.{AuthRecord, find_credentials_by_id}
use logalot.Domain.Credentials.{ParsedRefreshToken, parse_refresh_token}
use logalot.Ports.{Ports, Directory}
use logalot.Auth.{
  check_user, check_row, refresh_prepare, refresh_finish, logout, Fresh, Pending, safe_parse,
  refresh, logout_row, successor,
}
use logalot.Domain.Errors.{ok, err, Result, Result-cases}
use logalot.Base.{refl, none, some, true, inl, inr, ℕ, Text, Option, ◌≤◌, ◌≡◌, arith}
use logalot.RefreshTokens.{find_by_id, RefreshTokenRow, Rows, is_live, rotate, look_up}

check_user_live :
    (q : ParsedRefreshToken) (now : ℕ) (row : RefreshTokenRow) (o : Option AuthRecord) (rows : Rows)
    (u family : Text)
    → live_in u family (check_user q now row o rows).1 ≤ live_in u family rows
unfolding check_user
check_user_live q now row o rows u family =
    ground (arith, live_in-revoke_le q.tenant_id u row.family_id family now rows)

check_row_live :
    (p : Ports) (dir : Directory) (q : ParsedRefreshToken) (now : ℕ) (o : Option RefreshTokenRow)
    (rows : Rows) (u family : Text)
    → live_in u family (check_row p dir q now o rows).1 ≤ live_in u family rows
unfolding check_row
check_row_live p dir q now none rows u family = omega arith
check_row_live p dir q now (some row) rows u family = ground (
  arith,
  live_in-revoke_le q.tenant_id u row.family_id family now rows,
  check_user_live q now row (find_credentials_by_id q.tenant_id row.user_id dir.users) rows u
      family,
)

prepare_parsed_live :
    (p : Ports) (dir : Directory) (raw : Text) (now : ℕ) (rows : Rows) (u family : Text)
    (o : Result ParsedRefreshToken)
    → safe_parse raw ≡ o
    → live_in u family (refresh_prepare p dir raw now rows).1 ≤ live_in u family rows
unfolding refresh_prepare
prepare_parsed_live p dir raw now rows u family (ok q) e =
    elim (Result-cases (look_up p.is_uuid q.tenant_id q.token_id rows)) [
      | inl (found, f) ↦ ground (arith, f, check_row_live p dir q now found rows u family)
      | inr (x, f) ↦ ground (arith, f)
    ]
prepare_parsed_live p dir raw now rows u family (err x) e = ground arith

finish_live :
    (p : Ports) (ttl : ℕ) (fresh : Fresh) (pending : Pending) (rows : Rows) (u family : Text)
    → find_by_id pending.who.tenant_id pending.row.id rows ≡ some pending.row
    → is_live pending.row ≡ true
    → live_in u family (refresh_finish p ttl fresh pending rows).1 ≤ live_in u family rows
unfolding refresh_finish
finish_live p ttl fresh pending rows u family e l = ground (
  arith,
  live_in-rotate pending.who.tenant_id pending.row.id fresh.now (successor p ttl pending fresh)
      fresh.new_id rows pending.row u family e l,
  live_in-revoke_le pending.who.tenant_id u pending.row.family_id family fresh.now
      (rotate pending.who.tenant_id pending.row.id fresh.now (successor p ttl pending fresh)
        fresh.new_id rows).1,
)

-- A refresh, whatever its outcome, raises the number of live tokens of no family of any tenant.
pub live_in-refresh :
    (p : Ports) (ttl : ℕ) (dir : Directory) (raw : Text) (fresh : Fresh) (rows : Rows)
    (u family : Text)
    → live_in u family (refresh p ttl dir raw fresh rows).1 ≤ live_in u family rows
live_in-refresh p ttl dir raw fresh rows u family =
    elim (Result-cases (refresh_prepare p dir raw fresh.now rows).0) [
      | inl (pending, e) ↦
          let acceptable = refresh_prepare-IsAcceptable p dir raw fresh.now rows pending e in
          rw
            (refresh_prepared p ttl dir raw fresh rows pending
              (refresh_prepare_accepts p dir raw fresh.now rows pending acceptable))
            (finish_live p ttl fresh pending rows u family
              (found_pending p dir raw fresh.now rows pending acceptable) acceptable.live)
      | inr (x, e) ↦
          rw (refresh_rejected p ttl dir raw fresh rows x e)
            (prepare_parsed_live p dir raw fresh.now rows u family (safe_parse raw) refl)
    ]

logout_row_live :
    (p : Ports) (q : ParsedRefreshToken) (now : ℕ) (o : Option RefreshTokenRow) (rows : Rows)
    (u family : Text)
    → live_in u family (logout_row p q now o rows).1 ≤ live_in u family rows
logout_row_live p q now none rows u family = omega arith
logout_row_live p q now (some row) rows u family =
    ground (arith, live_in-revoke_le q.tenant_id u row.family_id family now rows)

logout_live :
    (p : Ports) (raw : Text) (now : ℕ) (rows : Rows) (u family : Text)
    (o : Result ParsedRefreshToken)
    → parse_refresh_token raw ≡ o
    → live_in u family (logout p raw now rows).1 ≤ live_in u family rows
unfolding logout
logout_live p raw now rows u family (ok q) e =
    elim (Result-cases (look_up p.is_uuid q.tenant_id q.token_id rows)) [
      | inl (found, f) ↦ ground (arith, f, logout_row_live p q now found rows u family)
      | inr (x, f) ↦ ground (arith, f)
    ]
logout_live p raw now rows u family (err x) e = ground arith

-- A logout raises the number of live tokens of no family of any tenant.
pub live_in-logout :
    (p : Ports) (raw : Text) (now : ℕ) (rows : Rows) (u family : Text)
    → live_in u family (logout p raw now rows).1 ≤ live_in u family rows
live_in-logout p raw now rows u family =
    logout_live p raw now rows u family (parse_refresh_token raw) refl
