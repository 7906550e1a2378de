-- ===== src/TenantService/Onboarding.antt =====
-- A new tenant comes to work: the operator creates it and provisions its admin, who logs in.
use logalot.Auth.Login.{IsAuthentic, login_ok_iff}
use logalot.RefreshTokens.{Rows, has_id}
use logalot.Auth.{Fresh, login}
use mathlib.Core.Path.{subst}
use logalot.Users.Insert.{grown, find_credentials_by_email-inserted}
use logalot.Tenants.{Tenant, TenantStatus}
use logalot.Users.{insert_user_with_membership, User, violates_unique, active_status}
use logalot.Ports.{Directory, TenantContext, Ports}
use logalot.Authorize.{assert_can}
use logalot.Tenants
use logalot.Users
use logalot.Base.{
  [], some, false, inl, inr, Text, ℕ, ◌≡◌, count_where, ◌===◌, ◌||◌, ◌++◌, ◌∷◌, Option-cases, arith,
  find_where-append_new, count_where_mono, text_eq_iff, refl, true,
}
use logalot.Domain.Errors.{ok, is_ok}
use logalot.Domain.Roles.{Role}
use logalot.TenantService.{
  create, provision_admin, CreateTenantCommand, ProvisionAdminCommand, admin_of,
}

-- What the success of a creation shows.
create_ok :
    (ctx : TenantContext) (cmd : CreateTenantCommand) (new_id : Text) (now : ℕ) (dir : Directory)
    (tenant : Tenant)
    → (create ctx cmd new_id now dir).0 ≡ ok tenant
    → (tenant.id ≡ new_id)
      × (tenant.status ≡ TenantStatus.active)
      × (tenant.public_id ≡ cmd.public_id)
      × (count_where (λ r. (r.public_id === cmd.public_id) || (r.id === new_id)) dir.tenants ≡ 0)
      × ((create ctx cmd new_id now dir).1 ≡ record dir { tenants = dir.tenants ++ tenant ∷ [] })
unfolding create assert_can Tenants.create
create_ok ctx cmd new_id now dir tenant h =
    (ground arith, ground arith, ground arith, ground arith, ground arith)

-- What the success of a provisioning shows.
provision_ok :
    (p : Ports) (ctx : TenantContext) (tenant_id : Text) (cmd : ProvisionAdminCommand)
    (new_id : Text) (now : ℕ) (dir : Directory) (user : User)
    → (provision_admin p ctx tenant_id cmd new_id now dir).0 ≡ ok user
    → (violates_unique tenant_id (admin_of p cmd) new_id dir.users ≡ false)
      × ((provision_admin p ctx tenant_id cmd new_id now dir).1
          ≡ record dir { users = grown tenant_id (admin_of p cmd) new_id now dir.users })
unfolding provision_admin assert_can Users.create insert_user_with_membership
provision_ok p ctx tenant_id cmd new_id now dir user h =
    elim (Option-cases (Tenants.find_by_id tenant_id dir.tenants)) [
      | inl e ↦ absurd (ground (arith, e))
      | inr (tenant, e) ↦ (ground (arith, e), ground (arith, e))
    ]

new_tenant_found :
    (dir : Directory) (slug : Text) (tenant : Tenant)
    → tenant.public_id ≡ slug
    → count_where (λ r. (r.public_id === slug) || (r.id === tenant.id)) dir.tenants ≡ 0
    → Tenants.find_by_public_id slug (dir.tenants ++ tenant ∷ []) ≡ some tenant
unfolding Tenants.find_by_public_id
new_tenant_found dir slug tenant e new =
    find_where-append_new (λ r. r.public_id === slug) dir.tenants tenant
      (omega (
        arith,
        new,
        count_where_mono (λ r. r.public_id === slug)
            (λ (r : Tenant). (r.public_id === slug) || (r.id === tenant.id)) dir.tenants
            (λ r h. ground arith),
      ))
      ((text_eq_iff tenant.public_id slug).1 e)

-- Once a tenant is created and its admin provisioned, by whatever callers, the admin can log in with
-- the tenant's slug, the email and the password: the login succeeds, where the hasher verifies the
-- password against its own hash and the id for the refresh token is new.
pub provisioned_admin_logs_in :
    (p : Ports) (ttl : ℕ) (creator operator : TenantContext) (cmd : CreateTenantCommand)
    (admin : ProvisionAdminCommand) (tenant_id user_id : Text) (now later : ℕ) (dir : Directory)
    (tenant : Tenant) (user : User) (fresh : Fresh) (rows : Rows)
    → (create creator cmd tenant_id now dir).0 ≡ ok tenant
    → (provision_admin p operator tenant.id admin user_id later
        (create creator cmd tenant_id now dir).1).0
      ≡ ok user
    → p.verify admin.password (p.hash admin.password) ≡ true
    → count_where (has_id fresh.new_id) rows ≡ 0
    → let after =
        (provision_admin p operator tenant.id admin user_id later
          (create creator cmd tenant_id now dir).1).1 in
      is_ok
        (login p ttl
          (record { tenant_slug = cmd.public_id; email = admin.email; password = admin.password })
          after
          fresh
          rows).0
      ≡ true
provisioned_admin_logs_in p ttl creator operator cmd admin tenant_id user_id now later dir tenant
      user fresh rows h k verified new =
    let (id, active, slug, free, made) = create_ok creator cmd tenant_id now dir tenant h in
    let (unique, provisioned) =
      provision_ok p operator tenant.id admin user_id later (create creator cmd tenant_id now dir).1
        user k in
    let authentic : IsAuthentic p
        (record { tenant_slug = cmd.public_id; email = admin.email; password = admin.password })
        (record {
          tenants = dir.tenants ++ tenant ∷ [];
          users = grown tenant.id (admin_of p admin) user_id later dir.users;
        })
        (record { tenant_id = tenant.id; user_id = user_id; role = Role.tenant_admin }) =
      record {
        tenant = tenant;
        by_slug = new_tenant_found dir cmd.public_id tenant slug (rw id free);
        tenant_is_active = rw active refl;
        account = record {
          id = user_id;
          password_hash = p.hash admin.password;
          status = active_status;
          role = some Role.tenant_admin;
        };
        by_email =
            find_credentials_by_email-inserted tenant.id (admin_of p admin) user_id later dir.users
              (subst
                (λ (d : Directory).
                  violates_unique tenant.id (admin_of p admin) user_id d.users ≡ false)
                made unique);
        verified = verified;
        active = refl;
        role = refl;
        same_tenant = refl;
        same_user = refl;
      } in
    rw (provisioned, made)
      ((login_ok_iff p ttl
          (record { tenant_slug = cmd.public_id; email = admin.email; password = admin.password })
          (record {
            tenants = dir.tenants ++ tenant ∷ [];
            users = grown tenant.id (admin_of p admin) user_id later dir.users;
          })
          fresh rows).1
        ((_, authentic), new))
