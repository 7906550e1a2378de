-- ===== src/ApiKeys.antt =====
-- services/control-plane/src/adapters/postgres/api-key-repository.ts: the table of API keys and its
-- statements, each in a transaction of the armed tenant. The constraints are those of
-- migrations/000005_api_keys.up.sql, but for the references that an INSERT must meet.
use logalot.Base.{
  none, some, [], if◌then◌else◌, Text, List, ℕ, Bytes, Option, Bool, map, ◌===◌, not, order_desc,
  ltb, length, select_where, ◌&&◌, count_where, ◌==◌, is_none, update_where, ◌++◌, ◌∷◌,
}
use logalot.Domain.Errors.{ok, err, Result, pg_error}

pub record ApiKeyRow : Type 0 where
  pub id : Text
  pub tenant_id : Text
  pub name : Text
  pub key_hash : Bytes
  pub scopes : List Text
  pub created_by : Option Text
  pub created_at : ℕ
  pub expires_at : Option ℕ
  pub revoked_at : Option ℕ
  pub last_used_at : Option ℕ

-- The projection, which has no hash.
pub record ApiKeyRecord : Type 0 where
  pub id : Text
  pub tenant_id : Text
  pub name : Text
  pub scopes : List Text
  pub created_by : Option Text
  pub created_at : ℕ
  pub expires_at : Option ℕ
  pub revoked_at : Option ℕ
  pub last_used_at : Option ℕ

pub record NewApiKey : Type 0 where
  pub key_id : Text
  pub name : Text
  pub key_hash : Bytes
  pub scopes : List Text
  pub created_by : Option Text
  pub expires_at : Option ℕ

abbrev pub ApiKeys : Type 0
ApiKeys = List ApiKeyRow

unfoldable pub to_record : ApiKeyRow → ApiKeyRecord
to_record r = record {
  id = r.id;
  tenant_id = r.tenant_id;
  name = r.name;
  scopes = r.scopes;
  created_by = r.created_by;
  created_at = r.created_at;
  expires_at = r.expires_at;
  revoked_at = r.revoked_at;
  last_used_at = r.last_used_at;
}

abbrev pub has_key : Text → ApiKeyRow → Bool
has_key id r = r.id === id

abbrev pub new_key : Text → NewApiKey → ℕ → ApiKeyRow
new_key tenant_id input created_at = record {
  id = input.key_id;
  tenant_id = tenant_id;
  name = input.name;
  key_hash = input.key_hash;
  scopes = input.scopes;
  created_by = input.created_by;
  created_at = created_at;
  expires_at = input.expires_at;
  revoked_at = none;
  last_used_at = none;
}

-- INSERT … RETURNING: the CHECK on the hash, then the primary key, over all tenants. A violation is
-- the driver's error.
unfoldable pub create : Text → NewApiKey → ℕ → ApiKeys → Result ApiKeyRecord × ApiKeys
create tenant_id input created_at rows =
    if not (length input.key_hash == 32)
    then (err (pg_error 23514), rows)
    else if ltb 0 (count_where (has_key input.key_id) rows)
    then (err (pg_error 23505), rows)
    else let row = new_key tenant_id input created_at in (ok (to_record row), rows ++ row ∷ [])

unfoldable pub list : Text → ApiKeys → List ApiKeyRecord
list tenant_id rows =
    map to_record
      (order_desc (λ r. r.created_at) (select_where (λ r. r.tenant_id === tenant_id) rows))

-- WHERE id = $1 AND revoked_at IS NULL, whatever the row's expiry
abbrev pub is_unrevoked : Text → Text → ApiKeyRow → Bool
is_unrevoked tenant_id key_id r =
    (r.tenant_id === tenant_id) && (has_key key_id r && is_none r.revoked_at)

abbrev pub set_revoked : ℕ → ApiKeyRow → ApiKeyRow
set_revoked now r = record r { revoked_at = some now }

unfoldable pub revoke : Text → Text → ℕ → ApiKeys → Bool × ApiKeys
revoke tenant_id key_id now rows = (
  ltb 0 (count_where (is_unrevoked tenant_id key_id) rows),
  update_where (is_unrevoked tenant_id key_id) (set_revoked now) rows,
)
