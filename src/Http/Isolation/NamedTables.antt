-- ===== src/Http/Isolation/NamedTables.antt =====
-- What a command of one tenant leaves to another in the tables of alert rules, saved queries and
-- dashboards.
use logalot.Base.{refl, Text, ℕ, ◌≢◌}
use logalot.Ports.{TenantContext}
use logalot.Named.Isolation.{SameRows, insert-SameRows, update-SameRows, delete-SameRows}
use logalot.AlertRules
use logalot.AlertRules.{AlertRules, AlertRulePatch, alert_rules}
use logalot.AlertRuleService
use logalot.AlertRuleService.Steps as RuleSteps
use logalot.AlertRuleService.{CreateAlertRuleCommand}
use logalot.SavedQueries
use logalot.SavedQueries.Steps as QuerySteps
use logalot.SavedQueries.{SavedQueries, SavedQueryPatch, CreateSavedQueryCommand, saved_queries}
use logalot.Dashboards
use logalot.Dashboards.Steps as DashboardSteps
use logalot.Dashboards.{Dashboards, DashboardPatch, CreateDashboardCommand, dashboards}

module _ (ctx : TenantContext) (u : Text) (other : ctx.tenant_id ≢ u) where
  pub create_query-SameRows :
      (cmd : CreateSavedQueryCommand) (new_id : Text) (now : ℕ) (rows : SavedQueries)
      → SameRows saved_queries u (SavedQueries.create ctx cmd new_id now rows).1 rows
  create_query-SameRows cmd new_id now rows =
      QuerySteps.create_step (λ after. SameRows saved_queries u after rows) ctx rows refl cmd new_id
        now
        (insert-SameRows saved_queries ctx.tenant_id u other
          (SavedQueries.new_query ctx.tenant_id (SavedQueries.input_of ctx cmd) new_id now) rows
          refl)

  pub update_query-SameRows :
      (id : Text) (patch : SavedQueryPatch) (now : ℕ) (rows : SavedQueries)
      → SameRows saved_queries u (SavedQueries.update ctx id patch now rows).1 rows
  update_query-SameRows id patch now rows =
      QuerySteps.update_step (λ after. SameRows saved_queries u after rows) ctx rows refl id patch
        now
        (update-SameRows saved_queries ctx.tenant_id u other id (SavedQueries.patched patch now)
          rows (λ r. refl))

  pub delete_query-SameRows :
      (id : Text) (rows : SavedQueries)
      → SameRows saved_queries u (SavedQueries.remove ctx id rows).1 rows
  delete_query-SameRows id rows =
      QuerySteps.remove_step (λ after. SameRows saved_queries u after rows) ctx rows refl id
        (delete-SameRows saved_queries ctx.tenant_id u other id rows)

module _ (ctx : TenantContext) (u : Text) (other : ctx.tenant_id ≢ u) where
  pub create_dashboard-SameRows :
      (cmd : CreateDashboardCommand) (new_id : Text) (now : ℕ) (rows : Dashboards)
      → SameRows dashboards u (Dashboards.create ctx cmd new_id now rows).1 rows
  create_dashboard-SameRows cmd new_id now rows =
      DashboardSteps.create_step (λ after. SameRows dashboards u after rows) ctx rows refl cmd
        new_id now
        (insert-SameRows dashboards ctx.tenant_id u other
          (Dashboards.new_dashboard ctx.tenant_id (Dashboards.input_of ctx cmd) new_id now) rows
          refl)

  pub update_dashboard-SameRows :
      (id : Text) (patch : DashboardPatch) (now : ℕ) (rows : Dashboards)
      → SameRows dashboards u (Dashboards.update ctx id patch now rows).1 rows
  update_dashboard-SameRows id patch now rows =
      DashboardSteps.update_step (λ after. SameRows dashboards u after rows) ctx rows refl id patch
        now
        (update-SameRows dashboards ctx.tenant_id u other id (Dashboards.patched patch now) rows
          (λ r. refl))

  pub delete_dashboard-SameRows :
      (id : Text) (rows : Dashboards) → SameRows dashboards u (Dashboards.remove ctx id rows).1 rows
  delete_dashboard-SameRows id rows =
      DashboardSteps.remove_step (λ after. SameRows dashboards u after rows) ctx rows refl id
        (delete-SameRows dashboards ctx.tenant_id u other id rows)

module _ (ctx : TenantContext) (u : Text) (other : ctx.tenant_id ≢ u) where
  pub create_rule-SameRows :
      (cmd : CreateAlertRuleCommand) (new_id : Text) (now : ℕ) (rows : AlertRules)
      → SameRows alert_rules u (AlertRuleService.create ctx cmd new_id now rows).1 rows
  create_rule-SameRows cmd new_id now rows =
      RuleSteps.create_step (λ after. SameRows alert_rules u after rows) ctx rows refl cmd new_id
        now
        (insert-SameRows alert_rules ctx.tenant_id u other
          (AlertRules.new_rule ctx.tenant_id (AlertRuleService.rule_input_of ctx cmd) new_id now)
          rows refl)

  pub update_rule-SameRows :
      (id : Text) (patch : AlertRulePatch) (now : ℕ) (rows : AlertRules)
      → SameRows alert_rules u (AlertRuleService.update ctx id patch now rows).1 rows
  update_rule-SameRows id patch now rows =
      RuleSteps.update_step (λ after. SameRows alert_rules u after rows) ctx rows refl id patch now
        (update-SameRows alert_rules ctx.tenant_id u other id (AlertRules.patched_rule patch now)
          rows (λ r. refl))

  pub delete_rule-SameRows :
      (id : Text) (rows : AlertRules)
      → SameRows alert_rules u (AlertRuleService.remove ctx id rows).1 rows
  delete_rule-SameRows id rows =
      RuleSteps.remove_step (λ after. SameRows alert_rules u after rows) ctx rows refl id
        (delete-SameRows alert_rules ctx.tenant_id u other id rows)
