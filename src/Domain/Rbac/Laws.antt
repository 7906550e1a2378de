-- ===== src/Domain/Rbac/Laws.antt =====
-- What the authorization matrix grants and withholds.
use logalot.Base.{◌≡◌, refl, true, arith}
use logalot.Domain.Roles.{Role, platform_operator, tenant_admin, member}
use logalot.Domain.Rbac.{Operation, can}
use logalot.Domain.Rbac.Ui.{UiOperation, ui_can}

-- The part of an operation's name before its colon.
pub data Resource : Type 0 where
  tenant user apikey retention alert savedquery dashboard invite : Resource

abbrev pub resource : Operation → Resource
resource Operation.tenant_create = Resource.tenant
resource Operation.tenant_read = Resource.tenant
resource Operation.tenant_update = Resource.tenant
resource Operation.tenant_delete = Resource.tenant
resource Operation.tenant_list = Resource.tenant
resource Operation.tenant_provision_admin = Resource.tenant
resource Operation.user_create = Resource.user
resource Operation.user_read = Resource.user
resource Operation.user_list = Resource.user
resource Operation.user_update = Resource.user
resource Operation.user_delete = Resource.user
resource Operation.apikey_create = Resource.apikey
resource Operation.apikey_list = Resource.apikey
resource Operation.apikey_revoke = Resource.apikey
resource Operation.retention_read = Resource.retention
resource Operation.retention_update = Resource.retention
resource Operation.alert_create = Resource.alert
resource Operation.alert_read = Resource.alert
resource Operation.alert_list = Resource.alert
resource Operation.alert_update = Resource.alert
resource Operation.alert_delete = Resource.alert
resource Operation.savedquery_create = Resource.savedquery
resource Operation.savedquery_read = Resource.savedquery
resource Operation.savedquery_list = Resource.savedquery
resource Operation.savedquery_update = Resource.savedquery
resource Operation.savedquery_delete = Resource.savedquery
resource Operation.dashboard_create = Resource.dashboard
resource Operation.dashboard_read = Resource.dashboard
resource Operation.dashboard_list = Resource.dashboard
resource Operation.dashboard_update = Resource.dashboard
resource Operation.dashboard_delete = Resource.dashboard
resource Operation.invite_create = Resource.invite
resource Operation.invite_list = Resource.invite
resource Operation.invite_revoke = Resource.invite

-- The operation of the server that a mirrored one names.
abbrev pub of_ui : UiOperation → Operation
of_ui UiOperation.tenant_read = Operation.tenant_read
of_ui UiOperation.tenant_update = Operation.tenant_update
of_ui UiOperation.user_create = Operation.user_create
of_ui UiOperation.user_read = Operation.user_read
of_ui UiOperation.user_list = Operation.user_list
of_ui UiOperation.user_update = Operation.user_update
of_ui UiOperation.user_delete = Operation.user_delete
of_ui UiOperation.apikey_create = Operation.apikey_create
of_ui UiOperation.apikey_list = Operation.apikey_list
of_ui UiOperation.apikey_revoke = Operation.apikey_revoke
of_ui UiOperation.retention_read = Operation.retention_read
of_ui UiOperation.retention_update = Operation.retention_update
of_ui UiOperation.alert_create = Operation.alert_create
of_ui UiOperation.alert_read = Operation.alert_read
of_ui UiOperation.alert_list = Operation.alert_list
of_ui UiOperation.alert_update = Operation.alert_update
of_ui UiOperation.alert_delete = Operation.alert_delete
of_ui UiOperation.invite_create = Operation.invite_create
of_ui UiOperation.invite_list = Operation.invite_list
of_ui UiOperation.invite_revoke = Operation.invite_revoke
of_ui UiOperation.dashboard_create = Operation.dashboard_create
of_ui UiOperation.dashboard_read = Operation.dashboard_read
of_ui UiOperation.dashboard_list = Operation.dashboard_list
of_ui UiOperation.dashboard_update = Operation.dashboard_update
of_ui UiOperation.dashboard_delete = Operation.dashboard_delete

-- What the platform operator may do is to manage the tenant registry: no operation on a tenant's
-- users, keys, retention, alerts, queries, dashboards or invites.
pub operator_registry_only :
    (op : Operation) → can platform_operator op ≡ true → resource op ≡ Resource.tenant
unfolding can
operator_registry_only Operation.tenant_create h = refl
operator_registry_only _ h = ground arith

-- The browser's mirror of the matrix answers as the server does, for each role and each operation
-- that it mirrors.
pub ui_can-eq-can : (role : Role) (op : UiOperation) → ui_can role op ≡ can role (of_ui op)
unfolding ui_can can
ui_can-eq-can platform_operator UiOperation.tenant_read = refl
ui_can-eq-can platform_operator _ = refl
ui_can-eq-can tenant_admin UiOperation.tenant_read = refl
ui_can-eq-can tenant_admin _ = refl
ui_can-eq-can member UiOperation.tenant_read = refl
ui_can-eq-can member _ = refl
