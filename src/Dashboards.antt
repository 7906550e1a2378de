-- ===== src/Dashboards.antt =====
-- services/control-plane/src/adapters/postgres/dashboard-repository.ts and app/dashboard-service.ts:
-- dashboards. The constraints are those of migrations/000008_dashboards.up.sql, but for the references
-- that an INSERT must meet. The `viz` of a panel, which nothing here reads, is the text of its JSON.
pub mod Steps
pub mod Names
use logalot.Authorize.{assert_can}
use logalot.Ports.{TenantContext}
use logalot.Domain.Action.{◌>>=◌, ◌>>◌, Action, lift, pure}
use logalot.Domain.Rbac.{Operation}
use logalot.Domain.Errors.{ok, err, Result, not_found, text, naming, Message}
use logalot.Named.{
  NamedTable, insert_row, update_row, delete_row, find_row, list_rows, catch_unique,
}
use logalot.Base.{
  none, some, true, false, if◌then◌else◌, Text, List, ℕ, Option, Bool, ◌&&◌, or_else, is_none,
}

pub data PanelType : Type 0 where
  timeseries stat logs : PanelType

pub record Grid : Type 0 where
  pub x : ℕ
  pub y : ℕ
  pub w : ℕ
  pub h : ℕ

pub record Panel : Type 0 where
  pub id : Text
  pub type : PanelType
  pub title : Text
  pub saved_query_id : Text
  pub viz : Text
  pub grid : Grid

pub record DashboardLayout : Type 0 where
  pub panels : List Panel

-- A row, and its projection, which has the same fields.
pub record Dashboard : Type 0 where
  pub id : Text
  pub tenant_id : Text
  pub name : Text
  pub description : Option Text
  pub layout : DashboardLayout
  pub created_by : Option Text
  pub created_at : ℕ
  pub updated_at : ℕ

pub record NewDashboard : Type 0 where
  pub name : Text
  pub description : Option Text
  pub layout : DashboardLayout
  pub created_by : Option Text

-- A field that the patch does not have is `none`; a description may be set to null.
pub record DashboardPatch : Type 0 where
  pub name : Option Text
  pub description : Option (Option Text)
  pub layout : Option DashboardLayout

abbrev pub Dashboards : Type 0
Dashboards = List Dashboard

abbrev pub dashboards : NamedTable Dashboard
dashboards = record {
  tenant_id = λ r. r.tenant_id;
  id = λ r. r.id;
  name = λ r. r.name;
  created_at = λ r. r.created_at;
}

abbrev pub new_dashboard : Text → NewDashboard → Text → ℕ → Dashboard
new_dashboard tenant_id input new_id now = record {
  id = new_id;
  tenant_id = tenant_id;
  name = input.name;
  description = input.description;
  layout = input.layout;
  created_by = input.created_by;
  created_at = now;
  updated_at = now;
}

unfoldable pub insert : Text → NewDashboard → Text → ℕ → Dashboards → Result Dashboard × Dashboards
insert tenant_id input new_id now = insert_row dashboards (new_dashboard tenant_id input new_id now)

-- The columns that the patch sets, and the trigger on updated_at.
abbrev pub patched : DashboardPatch → ℕ → Dashboard → Dashboard
patched patch now r = record r {
  name = or_else patch.name r.name;
  description = or_else patch.description r.description;
  layout = or_else patch.layout r.layout;
  updated_at = now;
}

-- `sets.length === 0`
abbrev pub sets_nothing : DashboardPatch → Bool
sets_nothing patch = is_none patch.name && is_none patch.description && is_none patch.layout

unfoldable pub update_dashboard :
    Text → Text → DashboardPatch → ℕ → Dashboards → Result (Option Dashboard) × Dashboards
update_dashboard tenant_id id patch now rows =
    if sets_nothing patch
    then (ok (find_row dashboards tenant_id id rows), rows)
    else update_row dashboards tenant_id id (patched patch now) rows

pub record CreateDashboardCommand : Type 0 where
  pub name : Text
  pub description : Option Text
  pub layout : DashboardLayout

abbrev pub dashboard_missing : Message
dashboard_missing = text "dashboard not found"

abbrev pub found_dashboard : Option Dashboard → Result Dashboard
found_dashboard none = err (not_found dashboard_missing)
found_dashboard (some dashboard) = ok dashboard

abbrev pub input_of : TenantContext → CreateDashboardCommand → NewDashboard
input_of ctx cmd = record {
  name = cmd.name;
  description = cmd.description;
  layout = cmd.layout;
  created_by = some ctx.principal_id;
}

abbrev pub create_dashboard :
    TenantContext → CreateDashboardCommand → Text → ℕ → Action Dashboards Dashboard
create_dashboard ctx cmd new_id now rows =
    let end = insert ctx.tenant_id (input_of ctx cmd) new_id now rows in
    (catch_unique (naming "a dashboard named '" cmd.name "' already exists") end.0, end.1)

unfoldable pub create :
    TenantContext → CreateDashboardCommand → Text → ℕ → Action Dashboards Dashboard
create ctx cmd new_id now =
    lift (assert_can ctx Operation.dashboard_create) >> create_dashboard ctx cmd new_id now

unfoldable pub list : TenantContext → Action Dashboards (List Dashboard)
list ctx rows =
    (lift (assert_can ctx Operation.dashboard_list)
        >> pure (list_rows dashboards ctx.tenant_id rows))
      rows

unfoldable pub get : TenantContext → Text → Action Dashboards Dashboard
get ctx id rows =
    (lift (assert_can ctx Operation.dashboard_read)
        >> lift (found_dashboard (find_row dashboards ctx.tenant_id id rows)))
      rows

abbrev pub patch_dashboard :
    TenantContext → Text → DashboardPatch → ℕ → Action Dashboards (Option Dashboard)
patch_dashboard ctx id patch now rows =
    let end = update_dashboard ctx.tenant_id id patch now rows in
    (catch_unique (text "a dashboard with that name already exists") end.0, end.1)

unfoldable pub update : TenantContext → Text → DashboardPatch → ℕ → Action Dashboards Dashboard
update ctx id patch now = do
  lift (assert_can ctx Operation.dashboard_update)
  updated ← patch_dashboard ctx id patch now
  lift (found_dashboard updated)

abbrev pub remove_dashboard : TenantContext → Text → Action Dashboards (Unit {0})
remove_dashboard ctx id rows =
    let end = delete_row dashboards ctx.tenant_id id rows in
    (if end.0 then ok tt else err (not_found dashboard_missing), end.1)

unfoldable pub remove : TenantContext → Text → Action Dashboards (Unit {0})
remove ctx id = lift (assert_can ctx Operation.dashboard_delete) >> remove_dashboard ctx id
