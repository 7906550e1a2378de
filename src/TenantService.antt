-- ===== src/TenantService.antt =====
-- services/control-plane/src/app/tenant-service.ts: the commands on the registry of tenants, and the
-- first admin of a tenant.
pub mod Onboarding
mod Tests
use logalot.Authorize.{assert_can}
use logalot.Domain.Email.{normalize_email}
use logalot.Ports.{TenantContext, Ports, Directory}
use logalot.Users.{Users, NewUser, User}
use logalot.Tenants.{Tenants, Tenant, TenantPatch}
use logalot.Tenants
use logalot.Users
use logalot.Base.{
  none, some, true, false, [], if◌then◌else◌, Text, Option, Bool, ℕ, not, ◌&&◌, ◌===◌, delete_where,
  List,
}
use logalot.Domain.Errors.{text, ok, err, Error, Result, not_found}
use logalot.Domain.Rbac.{Operation}
use logalot.Domain.Roles.{Role, MembershipRole}
use logalot.Domain.Action.{◌>>=◌, ◌>>◌, Action, lift, throw_when, pure}

pub record CreateTenantCommand : Type 0 where
  pub public_id : Text
  pub name : Text

pub record ProvisionAdminCommand : Type 0 where
  pub email : Text
  pub password : Text
  pub display_name : Option Text

-- A call of the registry, and of the users.
abbrev pub on_tenants : {A : Type 0} → (Tenants → Result A × Tenants) → Action Directory A
on_tenants m dir = let end = m dir.tenants in (end.0, record dir { tenants = end.1 })

abbrev pub on_users : {A : Type 0} → (Users → Result A × Users) → Action Directory A
on_users m dir = let end = m dir.users in (end.0, record dir { users = end.1 })

abbrev pub tenant_missing : Error
tenant_missing = not_found (text "tenant not found")

abbrev pub found_tenant : Option Tenant → Result Tenant
found_tenant none = err tenant_missing
found_tenant (some tenant) = ok tenant

unfoldable pub create : TenantContext → CreateTenantCommand → Text → ℕ → Action Directory Tenant
create ctx cmd new_id now =
    lift (assert_can ctx Operation.tenant_create)
    >> on_tenants (Tenants.create cmd.public_id cmd.name new_id now)

abbrev pub admin_of : Ports → ProvisionAdminCommand → NewUser
admin_of p cmd = record {
  email = normalize_email p.nfc p.lower cmd.email;
  password_hash = p.hash cmd.password;
  display_name = cmd.display_name;
  role = MembershipRole.tenant_admin;
}

abbrev pub require_known : Text → Action Directory Tenant
require_known tenant_id dir = (found_tenant (Tenants.find_by_id tenant_id dir.tenants), dir)

unfoldable pub provision_admin :
    Ports → TenantContext → Text → ProvisionAdminCommand → Text → ℕ → Action Directory User
provision_admin p ctx tenant_id cmd new_id now = do
  lift (assert_can ctx Operation.tenant_provision_admin)
  tenant ← require_known tenant_id
  on_users (Users.create tenant_id (admin_of p cmd) new_id now)

-- `ctx.role !== 'platform_operator'`
abbrev pub is_operator : Role → Bool
is_operator Role.platform_operator = true
is_operator Role.tenant_admin = false
is_operator Role.member = false

unfoldable pub get : TenantContext → Text → Action Directory Tenant
get ctx id = do
  lift (assert_can ctx Operation.tenant_read)
  throw_when (not (is_operator ctx.role) && not (id === ctx.tenant_id)) tenant_missing
  require_known id

abbrev pub update_tenant : Text → TenantPatch → Tenants → Result Tenant × Tenants
update_tenant id patch tenants =
    let end = Tenants.update id patch tenants in (found_tenant end.0, end.1)

unfoldable pub update : TenantContext → Text → TenantPatch → Action Directory Tenant
update ctx id patch =
    lift (assert_can ctx Operation.tenant_update) >> on_tenants (update_tenant id patch)

-- DELETE FROM tenants; the users and memberships of the tenant go by ON DELETE CASCADE, and so do the
-- rows of the other tables, in Http.Cascade.
abbrev pub remove_tenant : Text → Action Directory (Unit {0})
remove_tenant id dir =
    let end = Tenants.delete id dir.tenants in
    if end.0
    then (
      ok tt,
      record {
        tenants = end.1;
        users = record {
          users = delete_where (λ u. u.tenant_id === id) dir.users.users;
          memberships = delete_where (λ m. m.tenant_id === id) dir.users.memberships;
        };
      },
    )
    else (err tenant_missing, record dir { tenants = end.1 })

unfoldable pub remove : TenantContext → Text → Action Directory (Unit {0})
remove ctx id = lift (assert_can ctx Operation.tenant_delete) >> remove_tenant id

unfoldable pub list : TenantContext → Action Directory (List Tenant)
list ctx dir = (lift (assert_can ctx Operation.tenant_list) >> pure (Tenants.list dir.tenants)) dir
