-- ===== src/Http/Tests.antt =====
-- A tenant's admin and member at the protected routes, and a login.
use logalot.Http.Cascade.{cascade_user, forget_authors}
use logalot.Domain.Split.{join}
use logalot.Domain.Credentials.{assemble_refresh_token, ParsedInviteToken, assemble_invite_token}
use logalot.Domain.Email.{normalize_email, trim, trim_start, trim_end, is_space}
use logalot.Named.{delete_row}
use logalot.Authorize.{assert_can}
use logalot.Base.{
  none, some, true, false, [], ◌∷◌, refl, codes, Text, ◌===◌, ◌≡◌, ◌≢◌, ◌++◌, count_where,
  delete_where, find_where, ◌↔◌,
}
use logalot.Http.{JwtPayload, authenticate, bearer, is_one_line, verify_access, require_operation}
use logalot.Http.World.{World, FreshValues, Request, Contracts, Deps, Body}
use logalot.Http.Routes.{Route, serve, handle, post_login}
use logalot.Http.Denied.{Denied, handle-Denied, change_is_authorised}
use logalot.Http.Google.{route_token_hash, route_token_hash_iff}
use logalot.Domain.Credentials.Laws.{IsField}
use logalot.Http.Session.{login_authenticates, IsSigned, claims_of_session, role_text}
use logalot.Ports.{Ports, TenantContext, SessionTokens}
use logalot.Tenants
use logalot.Dashboards
use logalot.UserService
use logalot.Users
use logalot.RefreshTokens.{create, RefreshTokenRow}
use logalot.Auth.{login, login_check, login_record, decide_login, mint_refresh_token}
use logalot.Tenants.{Tenant, TenantStatus}
use logalot.Users.{
  UserRow, MembershipRow, active_status, find_credentials_by_email, to_auth_record, membership_role,
}
use logalot.Auth.{LoginCommand, Principal}
use logalot.Auth.Login.{IsAuthentic}
use logalot.Dashboards.{Dashboard, DashboardLayout}
use logalot.Domain.Roles.{Role, MembershipRole}
use logalot.Domain.Rbac.{Operation, can}
use logalot.Domain.Errors.{Result, ok}

-- A token is the role that it is for, and names the one user.
abbrev ports : Ports
ports = record {
  sha256 = λ s. s;
  hash = λ s. s;
  verify = λ s h. s === h;
  issue_access = λ claims. record { token = role_text claims.role; expires_in_seconds = 900 };
  nfc = λ s. s;
  lower = λ s. s;
  is_uuid = λ s. true;
}

abbrev jwt_verify : Text → Result JwtPayload
jwt_verify token =
    ok (record { tenant_id = some (codes "t1"); sub = some (codes "u1"); role = some token })

abbrev tenant : Tenant
tenant = record {
  id = codes "t1";
  public_id = codes "acme";
  name = codes "Acme";
  status = TenantStatus.active;
  created_at = 0;
}

abbrev user : UserRow
user = record {
  id = codes "u1";
  tenant_id = codes "t1";
  email = codes "a@b.c";
  password_hash = codes "pw";
  display_name = none;
  status = active_status;
  is_platform_operator = false;
  created_at = 0;
}

abbrev membership : MembershipRow
membership = record { tenant_id = codes "t1"; user_id = codes "u1"; role = MembershipRole.member }

abbrev board : Text → Text → Dashboard
board id tenant_id = record {
  id = id;
  tenant_id = tenant_id;
  name = codes "errors";
  description = none;
  layout = record { panels = [] };
  created_by = none;
  created_at = 1;
  updated_at = 1;
}

abbrev world : World
world = record {
  dir = record {
    tenants = tenant ∷ [];
    users = record { users = user ∷ []; memberships = membership ∷ [] };
  };
  tokens = [];
  identities = [];
  keys = [];
  policies = [];
  rules = [];
  queries = [];
  dashboards = board (codes "d1") (codes "t1") ∷ board (codes "d2") (codes "t2") ∷ [];
  invites = record { invites = []; audit = []; sent = [] };
}

abbrev command : LoginCommand
command = record { tenant_slug = codes "acme"; email = codes "a@b.c"; password = codes "pw" }

abbrev contracts : Contracts
contracts = record {
  uuid = λ s. some s;
  key_id = λ s. none;
  create_tenant = λ s. none;
  update_tenant = λ s. none;
  provision_admin = λ s. none;
  create_user = λ s. none;
  update_user = λ s. none;
  create_api_key = λ s. none;
  upsert_retention = λ s. none;
  create_alert_rule = λ s. none;
  update_alert_rule = λ s. none;
  create_saved_query = λ s. none;
  update_saved_query = λ s. none;
  create_dashboard = λ s. none;
  update_dashboard = λ s. none;
  create_invite = λ s. none;
  login = λ s. some command;
  refresh_token = λ s. none;
}

abbrev deps : Deps
deps = record {
  ports = ports;
  jwt_verify = jwt_verify;
  contracts = contracts;
  invite_config = record { ttl_seconds = 60; max_outstanding_per_tenant = 5; accept_base_url = [] };
  refresh_ttl_seconds = 3600;
}

abbrev fresh : FreshValues
fresh = record {
  new_id = codes "n1";
  now = 100;
  material = record { key_id = codes "i1"; secret = codes "s1" };
  invite = record { secret = codes "s1"; now = 100; new_id = codes "n1"; created_at = 100 };
  session = record { family_id = codes "f1"; secret = codes "s1"; new_id = codes "k1"; now = 100 };
}

-- The admin deletes a dashboard.
abbrev deletion : Request
deletion = record {
  authorization = some (codes "Bearer tenant_admin");
  id = codes "d1";
  body = [];
  fresh = fresh;
}

abbrev admin : TenantContext
admin = record { tenant_id = codes "t1"; principal_id = codes "u1"; role = Role.tenant_admin }

abbrev member : TenantContext
member = record { tenant_id = codes "t1"; principal_id = codes "u1"; role = Role.member }

abbrev session_of : Text → Text → RefreshTokenRow
session_of tenant_id user_id = record {
  id = user_id;
  tenant_id = tenant_id;
  family_id = codes "f1";
  user_id = user_id;
  token_hash = [];
  expires_at = 900;
  rotated_at = none;
  revoked_at = none;
}

-- Two tenants with a session each, and the admin of one deletes the user.
abbrev peopled : World
peopled = record world {
  tokens = session_of (codes "t1") (codes "u1") ∷ session_of (codes "t2") (codes "u2") ∷ [];
}

abbrev removal : Request
removal = record deletion { id = codes "u1" }

removal_ends_sessions :
    (serve deps Route.delete_user removal peopled).1.tokens
    ≡ session_of (codes "t2") (codes "u2") ∷ []
unfolding serve authenticate bearer is_one_line verify_access require_operation can handle
    UserService.remove assert_can Users.delete count_where delete_where ◌===◌ cascade_user
    forget_authors
removal_ends_sessions = refl

deletion_changes : (serve deps Route.delete_dashboard deletion world).1 ≢ world
unfolding serve authenticate bearer is_one_line verify_access require_operation can handle
    Dashboards.remove assert_can delete_row count_where delete_where ◌===◌
deletion_changes e =
    let h : board (codes "d2") (codes "t2") ∷ [] ≡ world.dashboards = λ i. (e i).dashboards in cc h

change_is_authorised_example :
    (ctx : TenantContext) × (authenticate jwt_verify deletion.authorization ≡ ok ctx)
    × (can ctx.role Operation.dashboard_delete ≡ true)
change_is_authorised_example =
    change_is_authorised deps Route.delete_dashboard deletion world deletion_changes

member_may_not : can Role.member Operation.invite_create ≡ false
unfolding can
member_may_not = refl

handle-Denied_example :
    Denied member Operation.invite_create world
      (handle deps Route.post_invites member deletion world)
handle-Denied_example = handle-Denied deps Route.post_invites member deletion world member_may_not

abbrev tokens : SessionTokens
tokens = record {
  access_token = codes "member";
  refresh_token = codes "lgr_t1_k1_s1";
  expires_in = 900;
  role = Role.member;
  tenant_id = codes "t1";
  user_id = codes "u1";
}

signed : IsSigned deps (claims_of_session tokens)
unfolding is_one_line
signed = record { accepted = refl; one_line = refl; filled = refl }

login_answers : (post_login deps deletion world).0.body ≡ Body.session tokens
unfolding post_login login login_check login_record decide_login Tenants.find_by_public_id
    find_credentials_by_email find_where ◌===◌ to_auth_record membership_role normalize_email trim
    trim_start trim_end is_space mint_refresh_token create count_where assemble_refresh_token join
login_answers = refl

login_authenticates_example :
    (cmd : LoginCommand) × (who : Principal) × (contracts.login deletion.body ≡ some cmd)
    × IsAuthentic ports cmd world.dir who
    × (authenticate jwt_verify (some (codes "Bearer " ++ tokens.access_token))
        ≡ ok (record { tenant_id = who.tenant_id; principal_id = who.user_id; role = who.role }))
login_authenticates_example = login_authenticates deps deletion world tokens signed login_answers

abbrev link : Text
link = codes "lginv_acme_s1"

route_token_hash_iff_example : (route_token_hash ports.sha256 (some link) ≡ some (codes "s1")) ↔ (
    (t : ParsedInviteToken) × (link ≡ assemble_invite_token t.public_id t.secret)
    × IsField t.public_id
    × (t.secret ≢ [])
    × (ports.sha256 t.secret ≡ codes "s1"))
route_token_hash_iff_example = route_token_hash_iff ports.sha256 link (codes "s1")
