-- ===== src/Retention/Latest.antt =====
-- The policy that was written last is the one that is read.
use logalot.Domain.Errors.{ok}
use logalot.Base.{
  refl, some, inl, inr, Text, ◌≡◌, ℕ, ◌≤◌, Option-cases, ◌≢◌, find_where, select_where, arith,
  find_where-append_new, find_where-none, text_eq_refl, text_eq_iff, select-append_other,
  find_where_sound, find_where-update, select-update_other, true, sym, ap, ◌∙◌,
}
use logalot.Retention.{
  Policies, RetentionInput, RetentionPolicy, UpsertRetentionCommand, find, get, input_of,
  new_policy, owned, set_days, upsert, upsert_row,
}
use logalot.Authorize.{assert_can}
use logalot.Ports.{TenantContext}
use logalot.Domain.Rbac.{Operation, can}

-- What a write that succeeds has established.
pub record IsWritten (t : Text) (input : RetentionInput) (policy : RetentionPolicy)
    (rows after : Policies) : Type 0 where
  pub stored : find t after ≡ some policy
  pub hot : policy.hot_days ≡ input.hot_days
  pub cold : policy.cold_days ≡ input.cold_days
  pub some_days : 1 ≤ policy.hot_days
  pub hot_bound : policy.hot_days ≤ 90
  pub cold_bound : policy.hot_days ≤ policy.cold_days
  pub others : (u : Text) → t ≢ u → select_where (owned u) after ≡ select_where (owned u) rows

upsert_row-IsWritten :
    (t : Text) (input : RetentionInput) (now : ℕ) (rows : Policies) (policy : RetentionPolicy)
    → (upsert_row t input now rows).0 ≡ ok policy
    → IsWritten t input policy rows (upsert_row t input now rows).1
unfolding upsert_row find
upsert_row-IsWritten t input now rows policy e = elim (Option-cases (find_where (owned t) rows)) [
  | inl n ↦ record {
    stored = ground (
      arith,
      n,
      find_where-append_new (owned t) rows (new_policy t input now)
          (find_where-none (owned t) rows n) (text_eq_refl t),
    );
    hot = ground (arith, n);
    cold = ground (arith, n);
    some_days = ground (arith, n);
    hot_bound = ground (arith, n);
    cold_bound = ground (arith, n);
    others = λ u d.
        ground
          (arith, n, text_eq_iff t u, select-append_other (owned u) rows (new_policy t input now));
  }
  | inr (r, f) ↦ record {
    stored = ground (
      arith,
      f,
      find_where_sound (owned t) rows r f,
      find_where-update (owned t) (owned t) (set_days input now) rows r (λ x. refl) f,
    );
    hot = ground (arith, f);
    cold = ground (arith, f);
    some_days = ground (arith, f);
    hot_bound = ground (arith, f);
    cold_bound = ground (arith, f);
    others = λ u d. ground (
      arith,
      f,
      select-update_other (owned u) (owned t) (set_days input now) rows
          (λ x k. ground (arith, text_eq_iff x.tenant_id t, text_eq_iff x.tenant_id u)),
    );
  }
]

upsert_writes :
    (ctx : TenantContext) (cmd : UpsertRetentionCommand) (now : ℕ) (rows : Policies)
    (policy : RetentionPolicy)
    → (upsert ctx cmd now rows).0 ≡ ok policy
    → upsert ctx cmd now rows ≡ upsert_row ctx.tenant_id (input_of ctx cmd) now rows
unfolding upsert assert_can
upsert_writes ctx cmd now rows policy e = ground arith

get_reads :
    (reader : TenantContext) (rows : Policies) (policy : RetentionPolicy)
    → find reader.tenant_id rows ≡ some policy
    → can reader.role Operation.retention_read ≡ true
    → get reader rows ≡ (ok policy, rows)
unfolding get assert_can
get_reads reader rows policy e reads = ground (arith, e, reads)

-- A policy that is written is the one that whoever may read it in the tenant reads next. It has the
-- days of the command: from 1 to 90 hot days, and no fewer cold ones. Other tenants see the rows that
-- they saw.
pub upsert_then_get :
    (ctx reader : TenantContext) (cmd : UpsertRetentionCommand) (now : ℕ) (rows : Policies)
    (policy : RetentionPolicy)
    → (upsert ctx cmd now rows).0 ≡ ok policy
    → reader.tenant_id ≡ ctx.tenant_id
    → can reader.role Operation.retention_read ≡ true
    → (get reader (upsert ctx cmd now rows).1 ≡ (ok policy, (upsert ctx cmd now rows).1))
      × IsWritten ctx.tenant_id (input_of ctx cmd) policy rows (upsert ctx cmd now rows).1
upsert_then_get ctx reader cmd now rows policy e same reads =
    let writes = upsert_writes ctx cmd now rows policy e in
    let written : IsWritten ctx.tenant_id (input_of ctx cmd) policy rows
        (upsert ctx cmd now rows).1 =
      rw writes (
        upsert_row-IsWritten ctx.tenant_id (input_of ctx cmd) now rows policy
          (sym (ap (λ x. x.0) writes) ∙ e)) in
    (get_reads reader (upsert ctx cmd now rows).1 policy (rw same written.stored) reads, written)
