-- ===== src/Http/Isolation/Serve.antt =====
-- A request of one tenant's principal leaves alone what every other tenant has.
use logalot.Http.World.{World}
use logalot.Http.Handlers
use logalot.Http.Denied.{Denied}
use logalot.UserService.Isolation
use logalot.TenantService
use logalot.UserService
use logalot.ApiKeyService
use logalot.Retention
use logalot.AlertRuleService
use logalot.SavedQueries
use logalot.Dashboards
use logalot.InviteService
