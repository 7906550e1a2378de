-- ===== src/Dashboards/Steps.antt =====
-- What a command on dashboards comes to: one statement, if it gets that far.
use logalot.Domain.Errors.{Result}
use logalot.Base.{Text, ℕ, if_both, Option}
use logalot.Dashboards.{
  Dashboards, Dashboard, DashboardPatch, CreateDashboardCommand, dashboards, insert,
  update_dashboard, create, update, remove, new_dashboard, input_of, patched, create_dashboard,
  patch_dashboard, remove_dashboard, found_dashboard, sets_nothing,
}
use logalot.Named.{insert_row, update_row, delete_row}
use logalot.Domain.Action.Laws.{bind-invariant, check-invariant}
use logalot.Domain.Action.{lift, ◌>>=◌}
use logalot.Ports.{TenantContext}
use logalot.Authorize.{assert_can}
use logalot.Domain.Rbac.{Operation}

module _ (P : Dashboards → Type 0) (ctx : TenantContext) (rows : Dashboards) (kept : P rows) where
  pub create_step :
      (cmd : CreateDashboardCommand) (new_id : Text) (now : ℕ)
      → P (insert_row dashboards (new_dashboard ctx.tenant_id (input_of ctx cmd) new_id now) rows).1
      → P (create ctx cmd new_id now rows).1
  unfolding create insert
  create_step cmd new_id now done =
      check-invariant P (assert_can ctx Operation.dashboard_create)
        (create_dashboard ctx cmd new_id now) rows kept done

  patch_step :
      (id : Text) (patch : DashboardPatch) (now : ℕ)
      → P (update_row dashboards ctx.tenant_id id (patched patch now) rows).1
      → P (update_dashboard ctx.tenant_id id patch now rows).1
  unfolding update_dashboard
  patch_step id patch now done =
      if_both (λ (o : Result (Option Dashboard) × Dashboards). P o.1) (sets_nothing patch) _ _ kept
        done

  pub update_step :
      (id : Text) (patch : DashboardPatch) (now : ℕ)
      → P (update_row dashboards ctx.tenant_id id (patched patch now) rows).1
      → P (update ctx id patch now rows).1
  unfolding update
  update_step id patch now done =
      check-invariant P (assert_can ctx Operation.dashboard_update)
        (patch_dashboard ctx id patch now >>= λ updated. lift (found_dashboard updated)) rows kept
        (bind-invariant P (patch_dashboard ctx id patch now)
          (λ updated. lift (found_dashboard updated)) rows (patch_step id patch now done)
          (λ a s v. v))

  pub remove_step :
      (id : Text) → P (delete_row dashboards ctx.tenant_id id rows).1 → P (remove ctx id rows).1
  unfolding remove
  remove_step id done =
      check-invariant P (assert_can ctx Operation.dashboard_delete) (remove_dashboard ctx id) rows
        kept done
