-- ===== src/Http/Denied.antt =====
-- What the services refuse by themselves.
use logalot.Base.{false, ◌≡◌, ◌⊎◌, arith, true, inl, inr, ◌≢◌, Bool-cases}
use logalot.Http.{require_operation, authenticate}
use logalot.Http.World.{World, Request, Deps, Response}
use logalot.Http.Routes.{Route, handle, operation_of, serve}
use logalot.TenantService
use logalot.UserService
use logalot.ApiKeyService
use logalot.Retention
use logalot.AlertRuleService
use logalot.SavedQueries
use logalot.Dashboards
use logalot.InviteService
use logalot.Authorize.{assert_can}
use logalot.Ports.{TenantContext}
use logalot.Domain.Rbac.{Operation, can}
use logalot.Domain.Errors.{
  ok, err, Result, forbidden, validation, role_may_not, text, Error, Result-cases,
}

-- The error of a role that may not, or of a request that fits no schema; and nothing has changed.
abbrev pub Denied : TenantContext → Operation → World → Result Response × World → Type 0
Denied ctx op w outcome =
    (outcome ≡ (err (forbidden (role_may_not ctx.role op)), w))
    ⊎ (outcome ≡ (err (validation (text "request validation failed")), w))

-- The guard at the edge and the check in the service are one: behind each route, a role that the
-- guard would turn away is turned away by the service itself, with the same error, unless the request
-- fits no schema, and no table has changed.
pub handle-Denied :
    (d : Deps) (route : Route) (ctx : TenantContext) (req : Request) (w : World)
    → can ctx.role (operation_of route) ≡ false
    → Denied ctx (operation_of route) w (handle d route ctx req w)
unfolding handle assert_can AlertRuleService.create AlertRuleService.get AlertRuleService.list
    AlertRuleService.remove AlertRuleService.update ApiKeyService.issue ApiKeyService.list
    ApiKeyService.revoke Dashboards.create Dashboards.get Dashboards.list Dashboards.remove
    Dashboards.update InviteService.create InviteService.list InviteService.revoke Retention.get
    Retention.upsert SavedQueries.create SavedQueries.get SavedQueries.list SavedQueries.remove
    SavedQueries.update TenantService.create TenantService.get TenantService.list
    TenantService.provision_admin TenantService.remove TenantService.update UserService.create
    UserService.get UserService.list UserService.remove UserService.update
handle-Denied d Route.post_tenants ctx req w h = ground arith
handle-Denied d _ ctx req w h = ground arith

refused_unchanged :
    (d : Deps) (route : Route) (req : Request) (w : World) (ctx : TenantContext)
    → authenticate d.jwt_verify req.authorization ≡ ok ctx
    → can ctx.role (operation_of route) ≡ false
    → (serve d route req w).1 ≡ w
unfolding serve require_operation
refused_unchanged d route req w ctx known refused = ground (arith, known, refused)

unknown_unchanged :
    (d : Deps) (route : Route) (req : Request) (w : World) (e : Error)
    → authenticate d.jwt_verify req.authorization ≡ err e
    → (serve d route req w).1 ≡ w
unfolding serve
unknown_unchanged d route req w e known = ground (arith, known)

-- A request of a protected route that changes anything has a bearer token that the token service
-- accepts, and the role in the token may perform the route's operation.
pub change_is_authorised :
    (d : Deps) (route : Route) (req : Request) (w : World)
    → (serve d route req w).1 ≢ w
    → (ctx : TenantContext) × (authenticate d.jwt_verify req.authorization ≡ ok ctx)
      × (can ctx.role (operation_of route) ≡ true)
change_is_authorised d route req w changed =
    elim (Result-cases (authenticate d.jwt_verify req.authorization)) [
      | inl (ctx, known) ↦ elim (Bool-cases (can ctx.role (operation_of route))) [
        | inl allowed ↦ (ctx, known, allowed)
        | inr refused ↦ absurd (changed (refused_unchanged d route req w ctx known refused))
      ]
      | inr (e, unknown) ↦ absurd (changed (unknown_unchanged d route req w e unknown))
    ]
