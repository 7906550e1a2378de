-- ===== src/AlertRuleService/Names.antt =====
-- The names of alert rules through a history of commands.
use logalot.Base.{◌∷◌, refl, [], Text, List, ℕ}
use logalot.AlertRules.{AlertRules, AlertRulePatch, alert_rules, new_rule, patched_rule}
use logalot.AlertRuleService.{CreateAlertRuleCommand, create, update, remove, rule_input_of}
use logalot.AlertRuleService.Steps.{create_step, update_step, remove_step}
use logalot.Named.Unique.{IsUnique, insert-IsUnique, update-IsUnique, delete-IsUnique}
use logalot.Ports.{TenantContext}

-- A command, with the id and the time that the database takes.
pub data AlertRuleOp : Type 0 where
  create_op : CreateAlertRuleCommand → Text → ℕ → AlertRuleOp
  update_op : Text → AlertRulePatch → ℕ → AlertRuleOp
  remove_op : Text → AlertRuleOp

unfoldable pub apply : TenantContext → AlertRuleOp → AlertRules → AlertRules
apply ctx (create_op cmd new_id now) rows = (create ctx cmd new_id now rows).1
apply ctx (update_op id patch now) rows = (update ctx id patch now rows).1
apply ctx (remove_op id) rows = (remove ctx id rows).1

unfoldable pub run : List (TenantContext × AlertRuleOp) → AlertRules → AlertRules
run [] rows = rows
run ((ctx, op) ∷ ops) rows = run ops (apply ctx op rows)

apply-IsUnique :
    (ctx : TenantContext) (op : AlertRuleOp) (rows : AlertRules)
    → IsUnique alert_rules rows
    → IsUnique alert_rules (apply ctx op rows)
unfolding apply
apply-IsUnique ctx (create_op cmd new_id now) rows h =
    create_step (IsUnique alert_rules) ctx rows h cmd new_id now (
      insert-IsUnique alert_rules (new_rule ctx.tenant_id (rule_input_of ctx cmd) new_id now) rows
        h)
apply-IsUnique ctx (update_op id patch now) rows h =
    update_step (IsUnique alert_rules) ctx rows h id patch now
      (update-IsUnique alert_rules (patched_rule patch now) (λ r. refl) ctx.tenant_id id rows h)
apply-IsUnique ctx (remove_op id) rows h =
    remove_step (IsUnique alert_rules) ctx rows h id
      (delete-IsUnique alert_rules ctx.tenant_id id rows h)

-- Through any history of commands of any tenants, from a table where it is so, no tenant has two alert
-- rules of one name, and no two alert rules have one id.
pub run_rules-IsUnique :
    (ops : List (TenantContext × AlertRuleOp)) (rows : AlertRules)
    → IsUnique alert_rules rows
    → IsUnique alert_rules (run ops rows)
unfolding run
run_rules-IsUnique [] rows h = h
run_rules-IsUnique ((ctx, op) ∷ ops) rows h =
    run_rules-IsUnique ops (apply ctx op rows) (apply-IsUnique ctx op rows h)
