-- ===== src/Http/Routes.antt =====
-- services/control-plane/src/adapters/http/routes.ts: the protected routes, and the public ones of the
-- authentication service. The limits on the rate of requests, the logs and the health checks are left
-- out; the routes of the Google login are in Google.
use logalot.Http.{authenticate, require_operation, parse, error_handler}
use logalot.Http.Handlers
use logalot.Http.Handlers.{reply, no_content}
use logalot.Http.World.{World, Request, Deps, Body, Response, on_tokens}
use logalot.Auth
use logalot.Ports.{TenantContext}
use logalot.Domain.Rbac.{Operation}
use logalot.Domain.Action.{◌>>=◌, Action, lift}
use logalot.Domain.Errors.{ok, err, Result}

pub data Route : Type 0 where
  post_tenants get_tenants get_tenant patch_tenant delete_tenant post_admin post_users get_users
        get_user patch_user delete_user post_api_keys get_api_keys delete_api_key get_retention
        put_retention post_alert_rules get_alert_rules get_alert_rule patch_alert_rule
        delete_alert_rule post_saved_queries get_saved_queries get_saved_query patch_saved_query
        delete_saved_query post_dashboards get_dashboards get_dashboard patch_dashboard
        delete_dashboard post_invites get_invites revoke_invite :
      Route

-- The operation that a route's guard tests.
abbrev pub operation_of : Route → Operation
operation_of Route.post_tenants = Operation.tenant_create
operation_of Route.get_tenants = Operation.tenant_list
operation_of Route.get_tenant = Operation.tenant_read
operation_of Route.patch_tenant = Operation.tenant_update
operation_of Route.delete_tenant = Operation.tenant_delete
operation_of Route.post_admin = Operation.tenant_provision_admin
operation_of Route.post_users = Operation.user_create
operation_of Route.get_users = Operation.user_list
operation_of Route.get_user = Operation.user_read
operation_of Route.patch_user = Operation.user_update
operation_of Route.delete_user = Operation.user_delete
operation_of Route.post_api_keys = Operation.apikey_create
operation_of Route.get_api_keys = Operation.apikey_list
operation_of Route.delete_api_key = Operation.apikey_revoke
operation_of Route.get_retention = Operation.retention_read
operation_of Route.put_retention = Operation.retention_update
operation_of Route.post_alert_rules = Operation.alert_create
operation_of Route.get_alert_rules = Operation.alert_list
operation_of Route.get_alert_rule = Operation.alert_read
operation_of Route.patch_alert_rule = Operation.alert_update
operation_of Route.delete_alert_rule = Operation.alert_delete
operation_of Route.post_saved_queries = Operation.savedquery_create
operation_of Route.get_saved_queries = Operation.savedquery_list
operation_of Route.get_saved_query = Operation.savedquery_read
operation_of Route.patch_saved_query = Operation.savedquery_update
operation_of Route.delete_saved_query = Operation.savedquery_delete
operation_of Route.post_dashboards = Operation.dashboard_create
operation_of Route.get_dashboards = Operation.dashboard_list
operation_of Route.get_dashboard = Operation.dashboard_read
operation_of Route.patch_dashboard = Operation.dashboard_update
operation_of Route.delete_dashboard = Operation.dashboard_delete
operation_of Route.post_invites = Operation.invite_create
operation_of Route.get_invites = Operation.invite_list
operation_of Route.revoke_invite = Operation.invite_revoke

-- The handler of each route.
unfoldable pub handle : Deps → Route → TenantContext → Request → Action World Response
handle d Route.post_tenants ctx req = Handlers.post_tenants d ctx req
handle d Route.get_tenants ctx req = Handlers.get_tenants d ctx req
handle d Route.get_tenant ctx req = Handlers.get_tenant d ctx req
handle d Route.patch_tenant ctx req = Handlers.patch_tenant d ctx req
handle d Route.delete_tenant ctx req = Handlers.delete_tenant d ctx req
handle d Route.post_admin ctx req = Handlers.post_admin d ctx req
handle d Route.post_users ctx req = Handlers.post_users d ctx req
handle d Route.get_users ctx req = Handlers.get_users d ctx req
handle d Route.get_user ctx req = Handlers.get_user d ctx req
handle d Route.patch_user ctx req = Handlers.patch_user d ctx req
handle d Route.delete_user ctx req = Handlers.delete_user d ctx req
handle d Route.post_api_keys ctx req = Handlers.post_api_keys d ctx req
handle d Route.get_api_keys ctx req = Handlers.get_api_keys d ctx req
handle d Route.delete_api_key ctx req = Handlers.delete_api_key d ctx req
handle d Route.get_retention ctx req = Handlers.get_retention d ctx req
handle d Route.put_retention ctx req = Handlers.put_retention d ctx req
handle d Route.post_alert_rules ctx req = Handlers.post_alert_rules d ctx req
handle d Route.get_alert_rules ctx req = Handlers.get_alert_rules d ctx req
handle d Route.get_alert_rule ctx req = Handlers.get_alert_rule d ctx req
handle d Route.patch_alert_rule ctx req = Handlers.patch_alert_rule d ctx req
handle d Route.delete_alert_rule ctx req = Handlers.delete_alert_rule d ctx req
handle d Route.post_saved_queries ctx req = Handlers.post_saved_queries d ctx req
handle d Route.get_saved_queries ctx req = Handlers.get_saved_queries d ctx req
handle d Route.get_saved_query ctx req = Handlers.get_saved_query d ctx req
handle d Route.patch_saved_query ctx req = Handlers.patch_saved_query d ctx req
handle d Route.delete_saved_query ctx req = Handlers.delete_saved_query d ctx req
handle d Route.post_dashboards ctx req = Handlers.post_dashboards d ctx req
handle d Route.get_dashboards ctx req = Handlers.get_dashboards d ctx req
handle d Route.get_dashboard ctx req = Handlers.get_dashboard d ctx req
handle d Route.patch_dashboard ctx req = Handlers.patch_dashboard d ctx req
handle d Route.delete_dashboard ctx req = Handlers.delete_dashboard d ctx req
handle d Route.post_invites ctx req = Handlers.post_invites d ctx req
handle d Route.get_invites ctx req = Handlers.get_invites d ctx req
handle d Route.revoke_invite ctx req = Handlers.revoke_invite d ctx req

-- What the transport makes of a handler's outcome.
abbrev pub respond : Result Response × World → Response × World
respond (ok response, w) = (response, w)
respond (err e, w) =
    let failure = error_handler e in
    (record { code = failure.code; body = Body.failure failure }, w)

-- A protected route: both preHandlers, and then the handler.
abbrev pub guarded : Deps → Route → Request → Action World Response
guarded d route req = do
  ctx ← lift (authenticate d.jwt_verify req.authorization)
  allowed ← lift (require_operation (operation_of route) ctx)
  handle d route ctx req

unfoldable pub serve : Deps → Route → Request → World → Response × World
serve d route req w = respond (guarded d route req w)

-- The public routes.
unfoldable pub post_login : Deps → Request → World → Response × World
post_login d req w = respond (
    (do
      body ← lift (parse (d.contracts.login req.body))
      λ w.
          (reply 200 Body.session
              (on_tokens (Auth.login d.ports d.refresh_ttl_seconds body w.dir req.fresh.session)))
            w)
      w)

unfoldable pub post_refresh : Deps → Request → World → Response × World
post_refresh d req w = respond (
    (do
      token ← lift (parse (d.contracts.refresh_token req.body))
      λ w.
          (reply 200 Body.session (
              on_tokens (Auth.refresh d.ports d.refresh_ttl_seconds w.dir token req.fresh.session)))
            w)
      w)

unfoldable pub post_logout : Deps → Request → World → Response × World
post_logout d req w = respond (
    (do
      token ← lift (parse (d.contracts.refresh_token req.body))
      reply 204 no_content (on_tokens (Auth.logout d.ports token req.fresh.now)))
      w)
