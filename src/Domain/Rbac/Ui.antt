-- ===== src/Domain/Rbac/Ui.antt =====
-- packages/contracts/src/rbac.ts: the display-only mirror of the matrix that the browser holds.
use logalot.Base.{ℕ, Bool, false, List, [], ◌∷◌, ◌==◌, ◌||◌}
use logalot.Domain.Roles.{Role, platform_operator, tenant_admin, member}

pub data UiOperation : Type 0 where
  tenant_read tenant_update user_create user_read : UiOperation
  user_list user_update user_delete apikey_create : UiOperation
  apikey_list apikey_revoke retention_read retention_update : UiOperation
  alert_create alert_read alert_list alert_update : UiOperation
  alert_delete invite_create invite_list invite_revoke : UiOperation
  dashboard_create dashboard_read dashboard_list dashboard_update : UiOperation
  dashboard_delete : UiOperation

-- The place of an operation in UI_OPERATIONS.
unfoldable pub ui_index : UiOperation → ℕ
ui_index tenant_read = 0
ui_index tenant_update = 1
ui_index user_create = 2
ui_index user_read = 3
ui_index user_list = 4
ui_index user_update = 5
ui_index user_delete = 6
ui_index apikey_create = 7
ui_index apikey_list = 8
ui_index apikey_revoke = 9
ui_index retention_read = 10
ui_index retention_update = 11
ui_index alert_create = 12
ui_index alert_read = 13
ui_index alert_list = 14
ui_index alert_update = 15
ui_index alert_delete = 16
ui_index invite_create = 17
ui_index invite_list = 18
ui_index invite_revoke = 19
ui_index dashboard_create = 20
ui_index dashboard_read = 21
ui_index dashboard_list = 22
ui_index dashboard_update = 23
ui_index dashboard_delete = 24

unfoldable pub ui_matrix : Role → List UiOperation
ui_matrix platform_operator = tenant_read ∷ tenant_update ∷ []
ui_matrix tenant_admin =
    tenant_read ∷ user_create ∷ user_read ∷ user_list ∷ user_update ∷ user_delete ∷ apikey_create
    ∷ apikey_list ∷ apikey_revoke ∷ retention_read ∷ retention_update ∷ alert_create ∷ alert_read
    ∷ alert_list ∷ alert_update ∷ alert_delete ∷ invite_create ∷ invite_list ∷ invite_revoke
    ∷ dashboard_create ∷ dashboard_read ∷ dashboard_list ∷ dashboard_update ∷ dashboard_delete ∷ []
ui_matrix member =
    tenant_read ∷ retention_read ∷ alert_read ∷ alert_list ∷ dashboard_read ∷ dashboard_list ∷ []

unfoldable pub ui_has : List UiOperation → UiOperation → Bool
unfolding ui_index
ui_has [] op = false
ui_has (o ∷ os) op = (ui_index o == ui_index op) || ui_has os op

-- `can` of the contracts package
unfoldable pub ui_can : Role → UiOperation → Bool
unfolding ui_matrix ui_has
ui_can role operation = ui_has (ui_matrix role) operation
