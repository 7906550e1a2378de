-- ===== src/UserService.antt =====
-- services/control-plane/src/app/user-service.ts: the commands on the users of a tenant.
pub mod Isolation
use logalot.Authorize.{assert_can}
use logalot.Domain.Email.{normalize_email}
use logalot.Domain.Roles.{MembershipRole}
use logalot.Users.{membership_role, NewUser, User, UserPatch, Users}
use logalot.Ports.{Ports, TenantContext}
use logalot.Users
use logalot.Base.{none, some, true, false, [], if◌then◌else◌, Text, Option, ℕ, is_empty, List}
use logalot.Domain.Errors.{text, ok, err, Result, not_found}
use logalot.Domain.Rbac.{Operation}
use logalot.Domain.Action.{◌>>=◌, ◌>>◌, Action, lift, pure}

pub record CreateUserCommand : Type 0 where
  pub email : Text
  pub password : Text
  pub display_name : Option Text
  pub role : MembershipRole

-- `displayName: null` and a missing one are the same to the repository's COALESCE.
pub record UpdateUserCommand : Type 0 where
  pub display_name : Option Text
  pub status : Option Text
  pub role : Option MembershipRole
  pub password : Option Text

abbrev pub created_user : Ports → CreateUserCommand → NewUser
created_user p cmd = record {
  email = normalize_email p.nfc p.lower cmd.email;
  password_hash = p.hash cmd.password;
  display_name = cmd.display_name;
  role = cmd.role;
}

unfoldable pub create : Ports → TenantContext → CreateUserCommand → Text → ℕ → Action Users User
create p ctx cmd new_id now = do
  lift (assert_can ctx Operation.user_create)
  Users.create ctx.tenant_id (created_user p cmd) new_id now

unfoldable pub list : TenantContext → Action Users (List User)
list ctx db = (lift (assert_can ctx Operation.user_list) >> pure (Users.list ctx.tenant_id db)) db

-- A missing user is a 404.
abbrev pub found_user : Option User → Result User
found_user none = err (not_found (text "user not found"))
found_user (some user) = ok user

unfoldable pub get : TenantContext → Text → Action Users User
get ctx id db =
    (lift (assert_can ctx Operation.user_read)
        >> lift (found_user (Users.find_by_id ctx.tenant_id id db)))
      db

-- `cmd.password ? … : undefined`, where an empty password is false
abbrev pub new_hash : Ports → Option Text → Option Text
new_hash p none = none
new_hash p (some password) = if is_empty password then none else some (p.hash password)

abbrev pub patch_of : Ports → UpdateUserCommand → UserPatch
patch_of p cmd = record {
  display_name = cmd.display_name;
  status = cmd.status;
  role = cmd.role;
  password_hash = new_hash p cmd.password;
}

abbrev pub update_user : Ports → TenantContext → Text → UpdateUserCommand → Action Users User
update_user p ctx id cmd db =
    let end = Users.update ctx.tenant_id id (patch_of p cmd) db in (found_user end.0, end.1)

unfoldable pub update : Ports → TenantContext → Text → UpdateUserCommand → Action Users User
update p ctx id cmd = lift (assert_can ctx Operation.user_update) >> update_user p ctx id cmd

abbrev pub remove_user : TenantContext → Text → Action Users (Unit {0})
remove_user ctx id db =
    let end = Users.delete ctx.tenant_id id db in
    (if end.0 then ok tt else err (not_found (text "user not found")), end.1)

unfoldable pub remove : TenantContext → Text → Action Users (Unit {0})
remove ctx id = lift (assert_can ctx Operation.user_delete) >> remove_user ctx id
