-- ===== src/Dashboards/Names.antt =====
-- The names of dashboards through a history of commands.
use logalot.Base.{◌∷◌}
use logalot.Base.{refl, [], Text, List, ℕ}
use logalot.Dashboards.{
  Dashboards, DashboardPatch, CreateDashboardCommand, dashboards, create, update, remove,
  new_dashboard, input_of, patched,
}
use logalot.Dashboards.Steps.{create_step, update_step, remove_step}
use logalot.Named.Unique.{IsUnique, insert-IsUnique, update-IsUnique, delete-IsUnique}
use logalot.Ports.{TenantContext}

-- A command, with the id and the time that the database takes.
pub data DashboardOp : Type 0 where
  create_op : CreateDashboardCommand → Text → ℕ → DashboardOp
  update_op : Text → DashboardPatch → ℕ → DashboardOp
  remove_op : Text → DashboardOp

unfoldable pub apply : TenantContext → DashboardOp → Dashboards → Dashboards
apply ctx (create_op cmd new_id now) rows = (create ctx cmd new_id now rows).1
apply ctx (update_op id patch now) rows = (update ctx id patch now rows).1
apply ctx (remove_op id) rows = (remove ctx id rows).1

unfoldable pub run : List (TenantContext × DashboardOp) → Dashboards → Dashboards
run [] rows = rows
run ((ctx, op) ∷ ops) rows = run ops (apply ctx op rows)

apply-IsUnique :
    (ctx : TenantContext) (op : DashboardOp) (rows : Dashboards)
    → IsUnique dashboards rows
    → IsUnique dashboards (apply ctx op rows)
unfolding apply
apply-IsUnique ctx (create_op cmd new_id now) rows h =
    create_step (IsUnique dashboards) ctx rows h cmd new_id now (
      insert-IsUnique dashboards (new_dashboard ctx.tenant_id (input_of ctx cmd) new_id now) rows h)
apply-IsUnique ctx (update_op id patch now) rows h =
    update_step (IsUnique dashboards) ctx rows h id patch now
      (update-IsUnique dashboards (patched patch now) (λ r. refl) ctx.tenant_id id rows h)
apply-IsUnique ctx (remove_op id) rows h =
    remove_step (IsUnique dashboards) ctx rows h id
      (delete-IsUnique dashboards ctx.tenant_id id rows h)

-- Through any history of commands of any tenants, no tenant has two dashboards of one name, and no
-- two dashboards have one id.
pub run_dashboards-IsUnique :
    (ops : List (TenantContext × DashboardOp)) (rows : Dashboards)
    → IsUnique dashboards rows
    → IsUnique dashboards (run ops rows)
unfolding run
run_dashboards-IsUnique [] rows h = h
run_dashboards-IsUnique ((ctx, op) ∷ ops) rows h =
    run_dashboards-IsUnique ops (apply ctx op rows) (apply-IsUnique ctx op rows h)
