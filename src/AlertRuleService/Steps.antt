-- ===== src/AlertRuleService/Steps.antt =====
-- What a command on alert rules comes to: one statement, if it gets that far.
use logalot.Domain.Errors.{ok, err, Result, pg_error}
use logalot.Base.{
  inl, inr, if◌then◌else◌, Text, ℕ, if_both, Option-cases, ltb, Option, not, or_else,
}
use logalot.AlertRules.{
  AlertRules, AlertRule, AlertRulePatch, alert_rules, insert_rule, update_rule, update_checked,
  delete_rule, new_rule, patched_rule, rule_sets_nothing, rule_within_checks, max_window_integer,
}
use logalot.AlertRuleService.{
  CreateAlertRuleCommand, create, update, remove, rule_input_of, create_rule, patch_rule,
  remove_rule, found_rule, assert_channels, assert_query_source, check_patch_channels,
  empties_query, query_emptied,
}
use logalot.Domain.Action.{throw_when, Action, ◌>>=◌}
use logalot.Named.{find_row}
use logalot.Named.{insert_row, update_row, delete_row}
use logalot.Domain.Action.Laws.{bind-invariant, check-invariant}
use logalot.Domain.Action.{lift}
use logalot.Ports.{TenantContext}
use logalot.Authorize.{assert_can}
use logalot.Domain.Rbac.{Operation}

module _ (P : AlertRules → Type 0) (ctx : TenantContext) (rows : AlertRules) (kept : P rows) where
  insert_step :
      (cmd : CreateAlertRuleCommand) (new_id : Text) (now : ℕ)
      → P
          (insert_row alert_rules
            (new_rule ctx.tenant_id (rule_input_of ctx cmd) new_id now)
            rows).1
      → P (insert_rule ctx.tenant_id (rule_input_of ctx cmd) new_id now rows).1
  unfolding insert_rule
  insert_step cmd new_id now done =
      if_both (λ (o : Result AlertRule × AlertRules). P o.1)
        (ltb max_window_integer cmd.window_seconds) (err (pg_error 22003), rows) _ kept
        (if_both (λ (o : Result AlertRule × AlertRules). P o.1)
          (not (rule_within_checks (new_rule ctx.tenant_id (rule_input_of ctx cmd) new_id now)))
          (err (pg_error 23514), rows)
          (insert_row alert_rules (new_rule ctx.tenant_id (rule_input_of ctx cmd) new_id now) rows)
          kept done)

  pub create_step :
      (cmd : CreateAlertRuleCommand) (new_id : Text) (now : ℕ)
      → P
          (insert_row alert_rules
            (new_rule ctx.tenant_id (rule_input_of ctx cmd) new_id now)
            rows).1
      → P (create ctx cmd new_id now rows).1
  unfolding create
  create_step cmd new_id now done =
      let m : Action AlertRules AlertRule = create_rule ctx cmd new_id now in
      let checked : Action AlertRules AlertRule =
        lift (assert_query_source cmd.saved_query_id cmd.query) >>= λ _. m in
      check-invariant P (assert_can ctx Operation.alert_create)
        (lift (assert_channels cmd.notify_channels) >>= λ _. checked) rows kept
        (check-invariant P (assert_channels cmd.notify_channels) checked rows kept (
          check-invariant P (assert_query_source cmd.saved_query_id cmd.query) m rows kept
            (insert_step cmd new_id now done)))

  checked_step :
      (id : Text) (patch : AlertRulePatch) (now : ℕ)
      → P (update_row alert_rules ctx.tenant_id id (patched_rule patch now) rows).1
      → P (update_checked ctx.tenant_id id patch now rows).1
  unfolding update_checked
  checked_step id patch now done =
      elim (Option-cases (find_row alert_rules ctx.tenant_id id rows)) [
        | inl n ↦ rw (update_checked, n) kept
        | inr (r, f) ↦
            rw (update_checked, f)
              (if_both (λ (o : Result (Option AlertRule) × AlertRules). P o.1)
                (not (rule_within_checks (patched_rule patch now r))) _ _ kept done)
      ]

  patch_step :
      (id : Text) (patch : AlertRulePatch) (now : ℕ)
      → P (update_row alert_rules ctx.tenant_id id (patched_rule patch now) rows).1
      → P (update_rule ctx.tenant_id id patch now rows).1
  unfolding update_rule
  patch_step id patch now done =
      if_both (λ (o : Result (Option AlertRule) × AlertRules). P o.1) (rule_sets_nothing patch) _ _
        kept
        (if_both (λ (o : Result (Option AlertRule) × AlertRules). P o.1)
          (ltb max_window_integer (or_else patch.window_seconds 0)) (err (pg_error 22003), rows)
          (update_checked ctx.tenant_id id patch now rows) kept (checked_step id patch now done))

  pub update_step :
      (id : Text) (patch : AlertRulePatch) (now : ℕ)
      → P (update_row alert_rules ctx.tenant_id id (patched_rule patch now) rows).1
      → P (update ctx id patch now rows).1
  unfolding update
  update_step id patch now done =
      let patched : Action AlertRules AlertRule =
        patch_rule ctx id patch now >>= λ updated. lift (found_rule updated) in
      let guarded : Action AlertRules AlertRule =
        throw_when (empties_query patch) query_emptied >>= λ _. patched in
      check-invariant P (assert_can ctx Operation.alert_update)
        (lift (check_patch_channels patch.notify_channels) >>= λ _. guarded) rows kept
        (check-invariant P (check_patch_channels patch.notify_channels) guarded rows kept (
          check-invariant P (if empties_query patch then err query_emptied else ok tt) patched rows
            kept
            (bind-invariant P (patch_rule ctx id patch now) (λ updated. lift (found_rule updated))
              rows (patch_step id patch now done) (λ a s v. v))))

  pub remove_step :
      (id : Text) → P (delete_row alert_rules ctx.tenant_id id rows).1 → P (remove ctx id rows).1
  unfolding remove delete_rule
  remove_step id done =
      check-invariant P (assert_can ctx Operation.alert_delete) (remove_rule ctx id) rows kept done
