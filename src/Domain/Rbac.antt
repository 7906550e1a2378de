-- ===== src/Domain/Rbac.antt =====
-- services/control-plane/src/domain/rbac.ts: the operations, the matrix and `can`.
pub mod Ui
pub mod Laws
use logalot.Base.{ℕ, Bool, true, false, List, [], ◌∷◌, ◌==◌, if◌then◌else◌, ◌||◌}
use logalot.Domain.Roles.{Role, platform_operator, tenant_admin, member}

-- `<resource>:<verb>`
pub data Operation : Type 0 where
  tenant_create tenant_read tenant_update tenant_delete : Operation
  tenant_list tenant_provision_admin user_create user_read : Operation
  user_list user_update user_delete apikey_create : Operation
  apikey_list apikey_revoke retention_read retention_update : Operation
  alert_create alert_read alert_list alert_update : Operation
  alert_delete savedquery_create savedquery_read savedquery_list : Operation
  savedquery_update savedquery_delete dashboard_create dashboard_read : Operation
  dashboard_list dashboard_update dashboard_delete invite_create : Operation
  invite_list invite_revoke : Operation

-- The place of an operation in OPERATIONS; its strings are pairwise different.
unfoldable pub op_index : Operation → ℕ
op_index tenant_create = 0
op_index tenant_read = 1
op_index tenant_update = 2
op_index tenant_delete = 3
op_index tenant_list = 4
op_index tenant_provision_admin = 5
op_index user_create = 6
op_index user_read = 7
op_index user_list = 8
op_index user_update = 9
op_index user_delete = 10
op_index apikey_create = 11
op_index apikey_list = 12
op_index apikey_revoke = 13
op_index retention_read = 14
op_index retention_update = 15
op_index alert_create = 16
op_index alert_read = 17
op_index alert_list = 18
op_index alert_update = 19
op_index alert_delete = 20
op_index savedquery_create = 21
op_index savedquery_read = 22
op_index savedquery_list = 23
op_index savedquery_update = 24
op_index savedquery_delete = 25
op_index dashboard_create = 26
op_index dashboard_read = 27
op_index dashboard_list = 28
op_index dashboard_update = 29
op_index dashboard_delete = 30
op_index invite_create = 31
op_index invite_list = 32
op_index invite_revoke = 33

-- The operations that `new Set` holds for each role in MATRIX.
unfoldable pub matrix : Role → List Operation
matrix platform_operator =
    tenant_create ∷ tenant_read ∷ tenant_update ∷ tenant_delete ∷ tenant_list
    ∷ tenant_provision_admin ∷ []
matrix tenant_admin =
    tenant_read ∷ user_create ∷ user_read ∷ user_list ∷ user_update ∷ user_delete ∷ apikey_create
    ∷ apikey_list ∷ apikey_revoke ∷ retention_read ∷ retention_update ∷ alert_create ∷ alert_read
    ∷ alert_list ∷ alert_update ∷ alert_delete ∷ savedquery_create ∷ savedquery_read
    ∷ savedquery_list ∷ savedquery_update ∷ savedquery_delete ∷ dashboard_create ∷ dashboard_read
    ∷ dashboard_list ∷ dashboard_update ∷ dashboard_delete ∷ invite_create ∷ invite_list
    ∷ invite_revoke ∷ []
matrix member =
    tenant_read ∷ retention_read ∷ alert_read ∷ alert_list ∷ savedquery_read ∷ savedquery_list
    ∷ dashboard_read ∷ dashboard_list ∷ []

-- `Set.has`
unfoldable pub has : List Operation → Operation → Bool
unfolding op_index
has [] op = false
has (o ∷ os) op = (op_index o == op_index op) || has os op

-- The sort of `role` leaves out the unknown roles, for which `can` yields false.
unfoldable pub can : Role → Operation → Bool
unfolding matrix has
can role operation = has (matrix role) operation
