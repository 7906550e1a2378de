-- ===== src/RefreshTokens.antt =====
-- services/control-plane/src/adapters/postgres/refresh-token-repository.ts: the table of refresh
-- tokens and its statements. Each operation is one transaction: on an error it is rolled back, and
-- the table is as before. Row-level security lets a statement see the rows of the armed tenant. The
-- primary key is modelled; the CHECK on the digest's length, which a SHA-256 has, and the references to
-- the tenant and the user, whom the service has just read, are not.
pub mod History
pub mod Family
pub mod Insert
use logalot.Base.{
  ℕ, ◌<◌, Bool, true, false, ◌&&◌, Option, none, some, List, [], ◌∷◌, ◌++◌, Text, Bytes, ◌===◌, ltb,
  ◌==◌, is_none, if◌then◌else◌, find_where, count_where, update_where,
}
use logalot.Domain.Errors.{Result, ok, err, pg_error, malformed_id}

pub record RefreshTokenRow : Type 0 where
  pub id : Text
  pub tenant_id : Text
  pub user_id : Text
  pub family_id : Text
  pub token_hash : Bytes
  pub expires_at : ℕ
  pub rotated_at : Option ℕ
  pub revoked_at : Option ℕ

pub record NewRefreshToken : Type 0 where
  pub family_id : Text
  pub user_id : Text
  pub token_hash : Bytes
  pub expires_at : ℕ

abbrev pub Rows : Type 0
Rows = List RefreshTokenRow

abbrev pub has_id : Text → RefreshTokenRow → Bool
has_id id r = r.id === id

-- `rotated_at IS NULL AND revoked_at IS NULL`
abbrev pub is_live : RefreshTokenRow → Bool
is_live r = is_none r.rotated_at && is_none r.revoked_at

abbrev pub new_row : Text → NewRefreshToken → Text → RefreshTokenRow
new_row tenant_id input new_id = record {
  id = new_id;
  tenant_id = tenant_id;
  user_id = input.user_id;
  family_id = input.family_id;
  token_hash = input.token_hash;
  expires_at = input.expires_at;
  rotated_at = none;
  revoked_at = none;
}

-- INSERT … RETURNING id, where `new_id` is what `gen_random_uuid()` gives: the primary key admits
-- no second row with that id.
unfoldable pub create : Text → NewRefreshToken → Text → Rows → Result Text × Rows
create tenant_id input new_id rows =
    if ltb 0 (count_where (has_id new_id) rows)
    then (err (pg_error 23505), rows)
    else (ok new_id, rows ++ new_row tenant_id input new_id ∷ [])

-- The row of `findById`. Ids are compared as the texts that the database writes.
unfoldable pub find_by_id : Text → Text → Rows → Option RefreshTokenRow
find_by_id tenant_id id rows = find_where (λ r. (r.tenant_id === tenant_id) && has_id id r) rows

-- `findById`: the statement casts both ids to uuid, and fails on one that is none. The ids of a row
-- are uuids, so a row that is found needs no test.
unfoldable pub look_up : (Text → Bool) → Text → Text → Rows → Result (Option RefreshTokenRow)
look_up is_uuid tenant_id id rows = elim (find_by_id tenant_id id rows) [
  | some row ↦ ok (some row)
  | none ↦ if is_uuid tenant_id && is_uuid id then ok none else err malformed_id
]

-- The test of the conditional UPDATE of `rotate`.
abbrev pub consumable : Text → Text → RefreshTokenRow → Bool
consumable tenant_id id r = (r.tenant_id === tenant_id) && (has_id id r && is_live r)

abbrev pub set_rotated : ℕ → RefreshTokenRow → RefreshTokenRow
set_rotated now r = record r { rotated_at = some now }

-- What the transaction of `rotate` ends with once the token is consumed: COMMIT, or ROLLBACK to the
-- rows at its beginning.
abbrev pub committed : Rows → Result Text × Rows → Result (Option Text) × Rows
committed before (ok id, rows) = (ok (some id), rows)
committed before (err e, rows) = (err e, before)

unfoldable pub rotate :
    Text → Text → ℕ → NewRefreshToken → Text → Rows → Result (Option Text) × Rows
rotate tenant_id presented_id now successor new_id rows =
    if count_where (consumable tenant_id presented_id) rows == 0
    then (ok none, rows)
    else committed rows (
        create tenant_id successor new_id
          (update_where (consumable tenant_id presented_id) (set_rotated now) rows))

-- The test of the UPDATE of `revokeFamily`.
abbrev pub revocable : Text → Text → RefreshTokenRow → Bool
revocable tenant_id family_id r =
    (r.tenant_id === tenant_id) && ((r.family_id === family_id) && is_none r.revoked_at)

abbrev pub set_revoked : ℕ → RefreshTokenRow → RefreshTokenRow
set_revoked now r = record r { revoked_at = some now }

unfoldable pub revoke_family : Text → Text → ℕ → Rows → Rows
revoke_family tenant_id family_id now rows =
    update_where (revocable tenant_id family_id) (set_revoked now) rows
