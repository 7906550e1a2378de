-- ===== src/Http/World.antt =====
-- What the routes work on: the request, the schemas of packages/contracts, and the tables behind the
-- services.
use logalot.Base.{Text, List, ℕ, Option}
use logalot.Http.{Failure, JwtPayload}
use logalot.Domain.Action.{Action}
use logalot.Domain.Errors.{Result}
use logalot.Domain.Credentials.{KeyMaterial}
use logalot.Ports.{Ports, Directory, SessionTokens}
use logalot.Tenants.{Tenant, TenantPatch}
use logalot.Users.{User, Users}
use logalot.RefreshTokens.{Rows}
use logalot.OAuthIdentities.{Identities}
use logalot.ApiKeys.{ApiKeys, ApiKeyRecord}
use logalot.ApiKeyService.{IssueApiKeyCommand}
use logalot.UserService.{CreateUserCommand, UpdateUserCommand}
use logalot.TenantService.{CreateTenantCommand, ProvisionAdminCommand}
use logalot.Retention.{Policies, RetentionPolicy, UpsertRetentionCommand}
use logalot.AlertRules.{AlertRules, AlertRule, AlertRulePatch}
use logalot.AlertRuleService.{CreateAlertRuleCommand}
use logalot.SavedQueries.{SavedQueries, SavedQuery, SavedQueryPatch, CreateSavedQueryCommand}
use logalot.Dashboards.{Dashboards, Dashboard, DashboardPatch, CreateDashboardCommand}
use logalot.Invites.{Invite}
use logalot.InviteService.{InviteState, InviteConfig, FreshInvite, CreateInviteCommand}
use logalot.Auth.{LoginCommand, Fresh}

-- The tables, the audit trail of the invites and the messages handed to the mail sender.
pub record World : Type 0 where
  pub dir : Directory
  pub tokens : Rows
  pub identities : Identities
  pub keys : ApiKeys
  pub policies : Policies
  pub rules : AlertRules
  pub queries : SavedQueries
  pub dashboards : Dashboards
  pub invites : InviteState

-- What the generators, the clock and the database yield while a request is served.
pub record FreshValues : Type 0 where
  pub new_id : Text
  pub now : ℕ
  pub material : KeyMaterial
  pub invite : FreshInvite
  pub session : Fresh

pub record Request : Type 0 where
  pub authorization : Option Text
  pub id : Text
  pub body : Text
  pub fresh : FreshValues

-- The schemas, on a path parameter or on the text of a body; `none` where one does not fit.
-- What fits is given as the command that the handler makes of it.
pub record Contracts : Type 0 where
  pub uuid : Text → Option Text
  pub key_id : Text → Option Text
  pub create_tenant : Text → Option CreateTenantCommand
  pub update_tenant : Text → Option TenantPatch
  pub provision_admin : Text → Option ProvisionAdminCommand
  pub create_user : Text → Option CreateUserCommand
  pub update_user : Text → Option UpdateUserCommand
  pub create_api_key : Text → Option IssueApiKeyCommand
  pub upsert_retention : Text → Option UpsertRetentionCommand
  pub create_alert_rule : Text → Option CreateAlertRuleCommand
  pub update_alert_rule : Text → Option AlertRulePatch
  pub create_saved_query : Text → Option CreateSavedQueryCommand
  pub update_saved_query : Text → Option SavedQueryPatch
  pub create_dashboard : Text → Option CreateDashboardCommand
  pub update_dashboard : Text → Option DashboardPatch
  pub create_invite : Text → Option CreateInviteCommand
  pub login : Text → Option LoginCommand
  pub refresh_token : Text → Option Text

pub record Deps : Type 0 where
  pub ports : Ports
  pub jwt_verify : Text → Result JwtPayload
  pub contracts : Contracts
  pub invite_config : InviteConfig
  pub refresh_ttl_seconds : ℕ

pub data Body : Type 0 where
  empty : Body
  failure : Failure → Body
  session : SessionTokens → Body
  tenant : Tenant → Body
  tenants : List Tenant → Body
  user : User → Body
  users : List User → Body
  issued_key : ApiKeyRecord → Text → Body
  api_keys : List ApiKeyRecord → Body
  retention : RetentionPolicy → Body
  alert_rule : AlertRule → Body
  alert_rules : List AlertRule → Body
  saved_query : SavedQuery → Body
  saved_queries : List SavedQuery → Body
  dashboard : Dashboard → Body
  dashboards : List Dashboard → Body
  invite : Invite → Text → Body
  invites : List Invite → Body

pub record Response : Type 0 where
  pub code : ℕ
  pub body : Body

-- A service's method, on its part of the world.
module _ {A : Type 0} where
  abbrev pub on_dir : Action Directory A → Action World A
  on_dir m w = let end = m w.dir in (end.0, record w { dir = end.1 })

  abbrev pub on_accounts : Action Users A → Action World A
  on_accounts m w =
      let end = m w.dir.users in (end.0, record w { dir = record w.dir { users = end.1 } })

  abbrev pub on_tokens : Action Rows A → Action World A
  on_tokens m w = let end = m w.tokens in (end.0, record w { tokens = end.1 })

  abbrev pub on_keys : Action ApiKeys A → Action World A
  on_keys m w = let end = m w.keys in (end.0, record w { keys = end.1 })

  abbrev pub on_policies : Action Policies A → Action World A
  on_policies m w = let end = m w.policies in (end.0, record w { policies = end.1 })

  abbrev pub on_rules : Action AlertRules A → Action World A
  on_rules m w = let end = m w.rules in (end.0, record w { rules = end.1 })

  abbrev pub on_queries : Action SavedQueries A → Action World A
  on_queries m w = let end = m w.queries in (end.0, record w { queries = end.1 })

  abbrev pub on_dashboards : Action Dashboards A → Action World A
  on_dashboards m w = let end = m w.dashboards in (end.0, record w { dashboards = end.1 })

  abbrev pub on_invites : Action InviteState A → Action World A
  on_invites m w = let end = m w.invites in (end.0, record w { invites = end.1 })
