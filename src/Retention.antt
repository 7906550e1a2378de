-- ===== src/Retention.antt =====
-- services/control-plane/src/adapters/postgres/retention-repository.ts and app/retention-service.ts:
-- the retention policy of a tenant. The constraints are those of
-- migrations/000006_retention_policies.up.sql, but for the references that an INSERT must meet.
pub mod Latest
use logalot.Authorize.{assert_can}
use logalot.Ports.{TenantContext}
use logalot.Domain.Action.{◌>>=◌, ◌>>◌, Action, lift}
use logalot.Domain.Rbac.{Operation}
use logalot.Domain.Errors.{ok, err, Result, pg_error, not_found, text}
use logalot.Base.{
  none, some, [], if◌then◌else◌, Text, List, ℕ, Option, Bool, ◌===◌, not, ltb, leb, ◌&&◌, ◌||◌,
  count_where, update_where, find_where, ◌++◌, ◌∷◌,
}

pub record RetentionRow : Type 0 where
  pub tenant_id : Text
  pub hot_days : ℕ
  pub cold_days : ℕ
  pub updated_by : Option Text
  pub created_at : ℕ
  pub updated_at : ℕ

pub record RetentionPolicy : Type 0 where
  pub tenant_id : Text
  pub hot_days : ℕ
  pub cold_days : ℕ
  pub created_at : ℕ
  pub updated_at : ℕ

pub record RetentionInput : Type 0 where
  pub hot_days : ℕ
  pub cold_days : ℕ
  pub updated_by : Option Text

pub record UpsertRetentionCommand : Type 0 where
  pub hot_days : ℕ
  pub cold_days : ℕ

abbrev pub Policies : Type 0
Policies = List RetentionRow

abbrev pub to_policy : RetentionRow → RetentionPolicy
to_policy r = record {
  tenant_id = r.tenant_id;
  hot_days = r.hot_days;
  cold_days = r.cold_days;
  created_at = r.created_at;
  updated_at = r.updated_at;
}

-- The rows that the armed tenant sees.
abbrev pub owned : Text → RetentionRow → Bool
owned tenant_id r = r.tenant_id === tenant_id

abbrev pub first_policy : Option RetentionRow → Option RetentionPolicy
first_policy none = none
first_policy (some r) = some (to_policy r)

unfoldable pub find : Text → Policies → Option RetentionPolicy
find tenant_id rows = first_policy (find_where (owned tenant_id) rows)

abbrev pub new_policy : Text → RetentionInput → ℕ → RetentionRow
new_policy tenant_id input now = record {
  tenant_id = tenant_id;
  hot_days = input.hot_days;
  cold_days = input.cold_days;
  updated_by = input.updated_by;
  created_at = now;
  updated_at = now;
}

-- SET … = EXCLUDED.…, and the trigger that sets updated_at.
abbrev pub set_days : RetentionInput → ℕ → RetentionRow → RetentionRow
set_days input now r = record r {
  hot_days = input.hot_days;
  cold_days = input.cold_days;
  updated_by = input.updated_by;
  updated_at = now;
}

-- CHECK (hot_days BETWEEN 1 AND 90), CHECK (cold_days >= hot_days)
abbrev pub within_checks : RetentionInput → Bool
within_checks input =
    leb 1 input.hot_days && leb input.hot_days 90 && leb input.hot_days input.cold_days

-- The largest value of an integer column.
abbrev pub max_integer : ℕ
max_integer = 2147483647

-- INSERT … ON CONFLICT (tenant_id) DO UPDATE … RETURNING. A number that is no integer of the database,
-- and a row that violates a CHECK, are the driver's error.
unfoldable pub upsert_row : Text → RetentionInput → ℕ → Policies → Result RetentionPolicy × Policies
upsert_row tenant_id input now rows =
    if ltb max_integer input.hot_days || ltb max_integer input.cold_days
    then (err (pg_error 22003), rows)
    else if not (within_checks input)
    then (err (pg_error 23514), rows)
    else elim (find_where (owned tenant_id) rows) [
      | none ↦ (
        ok (to_policy (new_policy tenant_id input now)),
        rows ++ new_policy tenant_id input now ∷ [],
      )
      | some r ↦ (
        ok (to_policy (set_days input now r)),
        update_where (owned tenant_id) (set_days input now) rows,
      )
    ]

abbrev pub found_policy : Option RetentionPolicy → Result RetentionPolicy
found_policy none = err (not_found (text "retention policy not found"))
found_policy (some policy) = ok policy

unfoldable pub get : TenantContext → Action Policies RetentionPolicy
get ctx rows =
    (lift (assert_can ctx Operation.retention_read)
        >> lift (found_policy (find ctx.tenant_id rows)))
      rows

abbrev pub input_of : TenantContext → UpsertRetentionCommand → RetentionInput
input_of ctx cmd = record {
  hot_days = cmd.hot_days;
  cold_days = cmd.cold_days;
  updated_by = some ctx.principal_id;
}

unfoldable pub upsert : TenantContext → UpsertRetentionCommand → ℕ → Action Policies RetentionPolicy
upsert ctx cmd now =
    lift (assert_can ctx Operation.retention_update)
    >> upsert_row ctx.tenant_id (input_of ctx cmd) now
