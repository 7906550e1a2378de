-- ===== src/TenantService/Tests.antt =====
-- An operator sets up a tenant, whose admin logs in.
use logalot.Domain.Email.{normalize_email, trim, trim_start, trim_end, is_space}
use logalot.TenantService.Onboarding.{provisioned_admin_logs_in}
use logalot.RefreshTokens.{has_id}
use logalot.Domain.Rbac.{can}
use logalot.Authorize.{assert_can}
use logalot.Auth.{Fresh, login}
use logalot.Users.{User, active_status, insert_user_with_membership, to_user, membership_role}
use logalot.Ports.{Ports, TenantContext, Directory}
use logalot.TenantService.{create, CreateTenantCommand, ProvisionAdminCommand, provision_admin}
use logalot.Base.{[], none, some, true, false, refl, codes, ◌===◌, count_where, ◌≡◌, find_where}
use logalot.Domain.Errors.{ok, is_ok}
use logalot.Domain.Roles.{Role, MembershipRole}
use logalot.Tenants
use logalot.Users
use logalot.Tenants.{Tenant, TenantStatus}

abbrev ports : Ports
ports = record {
  sha256 = λ s. s;
  hash = λ s. s;
  verify = λ s h. s === h;
  issue_access = λ claims. record { token = claims.principal_id; expires_in_seconds = 900 };
  nfc = λ s. s;
  lower = λ s. s;
  is_uuid = λ s. true;
}

abbrev operator : TenantContext
operator = record {
  tenant_id = codes "t0";
  principal_id = codes "op";
  role = Role.platform_operator;
}

abbrev creation : CreateTenantCommand
creation = record { public_id = codes "acme"; name = codes "Acme" }

abbrev admin : ProvisionAdminCommand
admin = record { email = codes "A@b"; password = codes "pw"; display_name = none }

abbrev empty : Directory
empty = record { tenants = []; users = record { users = []; memberships = [] } }

abbrev tenant : Tenant
tenant = record {
  id = codes "t1";
  public_id = codes "acme";
  name = codes "Acme";
  status = TenantStatus.active;
  created_at = 5;
}

abbrev user : User
user = record {
  id = codes "u1";
  tenant_id = codes "t1";
  email = codes "A@b";
  display_name = none;
  status = active_status;
  is_platform_operator = false;
  role = some MembershipRole.tenant_admin;
}

abbrev created : Directory
created = (create operator creation (codes "t1") 5 empty).1

abbrev provisioned : Directory
provisioned = (provision_admin ports operator (codes "t1") admin (codes "u1") 6 created).1

abbrev fresh : Fresh
fresh = record { family_id = codes "f"; secret = codes "s"; new_id = codes "k"; now = 10 }

creates : (create operator creation (codes "t1") 5 empty).0 ≡ ok tenant
unfolding create assert_can can Tenants.create Tenants.is_slug Tenants.slug_tail count_where
creates = refl

provisions : (provision_admin ports operator (codes "t1") admin (codes "u1") 6 created).0 ≡ ok user
unfolding create provision_admin assert_can can Tenants.create Tenants.is_slug Tenants.slug_tail
    Tenants.find_by_id find_where count_where ◌===◌ Users.create insert_user_with_membership to_user
    membership_role normalize_email trim trim_start trim_end is_space
provisions = refl

verifies : (codes "pw" === codes "pw") ≡ true
unfolding ◌===◌
verifies = refl

no_row : count_where (has_id (codes "k")) [] ≡ 0
unfolding count_where
no_row = refl

provisioned_admin_logs_in_example :
    is_ok
      (login ports 3600
        (record { tenant_slug = codes "acme"; email = codes "A@b"; password = codes "pw" })
        provisioned
        fresh
        []).0
    ≡ true
provisioned_admin_logs_in_example =
    provisioned_admin_logs_in ports 3600 operator operator creation admin (codes "t1") (codes "u1")
      5 6 empty tenant user fresh [] creates provisions verifies no_row
