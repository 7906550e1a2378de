-- ===== src/Http/Handlers.antt =====
-- services/control-plane/src/adapters/http/routes.ts: the handlers of the protected routes.
use logalot.Http.Cascade.{cascade_tenant, cascade_user}
use logalot.Domain.Errors.{ok}
use logalot.Base.{ℕ}
use logalot.Http.{parse}
use logalot.Http.World.{
  World, Request, Deps, Body, Response, on_dir, on_accounts, on_keys, on_policies, on_rules,
  on_queries, on_dashboards, on_invites,
}
use logalot.TenantService
use logalot.UserService
use logalot.ApiKeyService
use logalot.ApiKeyService.{IssuedApiKey}
use logalot.Retention
use logalot.AlertRuleService
use logalot.SavedQueries
use logalot.Dashboards
use logalot.InviteService
use logalot.InviteService.{IssuedInvite}
use logalot.Ports.{TenantContext}
use logalot.Domain.Action.{◌>>=◌, Action, lift, pure, ◌>>◌}

-- `reply.code(…).send(…)`
abbrev pub reply : {A : Type 0} → ℕ → (A → Body) → Action World A → Action World Response
reply code body m = m >>= λ a. pure (record { code = code; body = body a })

abbrev pub no_content : Unit {0} → Body
no_content _ = Body.empty

-- The plaintext of a key is in this answer and in no other.
abbrev pub issued : IssuedApiKey → Body
issued key = Body.issued_key key.issued key.plaintext

abbrev pub invited : IssuedInvite → Body
invited i = Body.invite i.invite i.invite_url

-- What the foreign keys do in the transaction of a deletion that has found its row.
abbrev pub apply_to : (World → World) → Action World (Unit {0})
apply_to f w = (ok tt, f w)

abbrev pub post_tenants : Deps → TenantContext → Request → Action World Response
post_tenants d ctx req = do
  body ← lift (parse (d.contracts.create_tenant req.body))
  reply 201 Body.tenant (on_dir (TenantService.create ctx body req.fresh.new_id req.fresh.now))

abbrev pub get_tenants : Deps → TenantContext → Request → Action World Response
get_tenants d ctx req = reply 200 Body.tenants (on_dir (TenantService.list ctx))

abbrev pub get_tenant : Deps → TenantContext → Request → Action World Response
get_tenant d ctx req = do
  id ← lift (parse (d.contracts.uuid req.id))
  reply 200 Body.tenant (on_dir (TenantService.get ctx id))

abbrev pub patch_tenant : Deps → TenantContext → Request → Action World Response
patch_tenant d ctx req = do
  id ← lift (parse (d.contracts.uuid req.id))
  body ← lift (parse (d.contracts.update_tenant req.body))
  reply 200 Body.tenant (on_dir (TenantService.update ctx id body))

abbrev pub delete_tenant : Deps → TenantContext → Request → Action World Response
delete_tenant d ctx req = do
  id ← lift (parse (d.contracts.uuid req.id))
  λ w.
      (reply 204 no_content
          (on_dir (TenantService.remove ctx id) >> apply_to (cascade_tenant id w.dir.users.users)))
        w

abbrev pub post_admin : Deps → TenantContext → Request → Action World Response
post_admin d ctx req = do
  id ← lift (parse (d.contracts.uuid req.id))
  body ← lift (parse (d.contracts.provision_admin req.body))
  reply 201 Body.user
      (on_dir (TenantService.provision_admin d.ports ctx id body req.fresh.new_id req.fresh.now))

abbrev pub post_users : Deps → TenantContext → Request → Action World Response
post_users d ctx req = do
  body ← lift (parse (d.contracts.create_user req.body))
  reply 201 Body.user
      (on_accounts (UserService.create d.ports ctx body req.fresh.new_id req.fresh.now))

abbrev pub get_users : Deps → TenantContext → Request → Action World Response
get_users d ctx req = reply 200 Body.users (on_accounts (UserService.list ctx))

abbrev pub get_user : Deps → TenantContext → Request → Action World Response
get_user d ctx req = do
  id ← lift (parse (d.contracts.uuid req.id))
  reply 200 Body.user (on_accounts (UserService.get ctx id))

abbrev pub patch_user : Deps → TenantContext → Request → Action World Response
patch_user d ctx req = do
  id ← lift (parse (d.contracts.uuid req.id))
  body ← lift (parse (d.contracts.update_user req.body))
  reply 200 Body.user (on_accounts (UserService.update d.ports ctx id body))

abbrev pub delete_user : Deps → TenantContext → Request → Action World Response
delete_user d ctx req = do
  id ← lift (parse (d.contracts.uuid req.id))
  reply 204 no_content
      (on_accounts (UserService.remove ctx id) >> apply_to (cascade_user ctx.tenant_id id))

abbrev pub post_api_keys : Deps → TenantContext → Request → Action World Response
post_api_keys d ctx req = do
  body ← lift (parse (d.contracts.create_api_key req.body))
  λ w.
      (reply 201 issued (
          on_keys
            (ApiKeyService.issue d.ports ctx body w.dir.tenants req.fresh.material req.fresh.now)))
        w

abbrev pub get_api_keys : Deps → TenantContext → Request → Action World Response
get_api_keys d ctx req = reply 200 Body.api_keys (on_keys (ApiKeyService.list ctx))

abbrev pub delete_api_key : Deps → TenantContext → Request → Action World Response
delete_api_key d ctx req = do
  id ← lift (parse (d.contracts.key_id req.id))
  reply 204 no_content (on_keys (ApiKeyService.revoke ctx id req.fresh.now))

abbrev pub get_retention : Deps → TenantContext → Request → Action World Response
get_retention d ctx req = reply 200 Body.retention (on_policies (Retention.get ctx))

abbrev pub put_retention : Deps → TenantContext → Request → Action World Response
put_retention d ctx req = do
  body ← lift (parse (d.contracts.upsert_retention req.body))
  reply 200 Body.retention (on_policies (Retention.upsert ctx body req.fresh.now))

abbrev pub post_alert_rules : Deps → TenantContext → Request → Action World Response
post_alert_rules d ctx req = do
  body ← lift (parse (d.contracts.create_alert_rule req.body))
  reply 201 Body.alert_rule
      (on_rules (AlertRuleService.create ctx body req.fresh.new_id req.fresh.now))

abbrev pub get_alert_rules : Deps → TenantContext → Request → Action World Response
get_alert_rules d ctx req = reply 200 Body.alert_rules (on_rules (AlertRuleService.list ctx))

abbrev pub get_alert_rule : Deps → TenantContext → Request → Action World Response
get_alert_rule d ctx req = do
  id ← lift (parse (d.contracts.uuid req.id))
  reply 200 Body.alert_rule (on_rules (AlertRuleService.get ctx id))

abbrev pub patch_alert_rule : Deps → TenantContext → Request → Action World Response
patch_alert_rule d ctx req = do
  id ← lift (parse (d.contracts.uuid req.id))
  body ← lift (parse (d.contracts.update_alert_rule req.body))
  reply 200 Body.alert_rule (on_rules (AlertRuleService.update ctx id body req.fresh.now))

abbrev pub delete_alert_rule : Deps → TenantContext → Request → Action World Response
delete_alert_rule d ctx req = do
  id ← lift (parse (d.contracts.uuid req.id))
  reply 204 no_content (on_rules (AlertRuleService.remove ctx id))

abbrev pub post_saved_queries : Deps → TenantContext → Request → Action World Response
post_saved_queries d ctx req = do
  body ← lift (parse (d.contracts.create_saved_query req.body))
  reply 201 Body.saved_query
      (on_queries (SavedQueries.create ctx body req.fresh.new_id req.fresh.now))

abbrev pub get_saved_queries : Deps → TenantContext → Request → Action World Response
get_saved_queries d ctx req = reply 200 Body.saved_queries (on_queries (SavedQueries.list ctx))

abbrev pub get_saved_query : Deps → TenantContext → Request → Action World Response
get_saved_query d ctx req = do
  id ← lift (parse (d.contracts.uuid req.id))
  reply 200 Body.saved_query (on_queries (SavedQueries.get ctx id))

abbrev pub patch_saved_query : Deps → TenantContext → Request → Action World Response
patch_saved_query d ctx req = do
  id ← lift (parse (d.contracts.uuid req.id))
  body ← lift (parse (d.contracts.update_saved_query req.body))
  reply 200 Body.saved_query (on_queries (SavedQueries.update ctx id body req.fresh.now))

abbrev pub delete_saved_query : Deps → TenantContext → Request → Action World Response
delete_saved_query d ctx req = do
  id ← lift (parse (d.contracts.uuid req.id))
  reply 204 no_content (on_queries (SavedQueries.remove ctx id))

abbrev pub post_dashboards : Deps → TenantContext → Request → Action World Response
post_dashboards d ctx req = do
  body ← lift (parse (d.contracts.create_dashboard req.body))
  reply 201 Body.dashboard
      (on_dashboards (Dashboards.create ctx body req.fresh.new_id req.fresh.now))

abbrev pub get_dashboards : Deps → TenantContext → Request → Action World Response
get_dashboards d ctx req = reply 200 Body.dashboards (on_dashboards (Dashboards.list ctx))

abbrev pub get_dashboard : Deps → TenantContext → Request → Action World Response
get_dashboard d ctx req = do
  id ← lift (parse (d.contracts.uuid req.id))
  reply 200 Body.dashboard (on_dashboards (Dashboards.get ctx id))

abbrev pub patch_dashboard : Deps → TenantContext → Request → Action World Response
patch_dashboard d ctx req = do
  id ← lift (parse (d.contracts.uuid req.id))
  body ← lift (parse (d.contracts.update_dashboard req.body))
  reply 200 Body.dashboard (on_dashboards (Dashboards.update ctx id body req.fresh.now))

abbrev pub delete_dashboard : Deps → TenantContext → Request → Action World Response
delete_dashboard d ctx req = do
  id ← lift (parse (d.contracts.uuid req.id))
  reply 204 no_content (on_dashboards (Dashboards.remove ctx id))

abbrev pub post_invites : Deps → TenantContext → Request → Action World Response
post_invites d ctx req = do
  body ← lift (parse (d.contracts.create_invite req.body))
  λ w.
      (reply 201 invited (
          on_invites (
            InviteService.create d.ports d.invite_config ctx body w.dir.tenants w.dir.users.users
              req.fresh.invite)))
        w

abbrev pub get_invites : Deps → TenantContext → Request → Action World Response
get_invites d ctx req = reply 200 Body.invites (on_invites (InviteService.list ctx))

abbrev pub revoke_invite : Deps → TenantContext → Request → Action World Response
revoke_invite d ctx req = do
  id ← lift (parse (d.contracts.uuid req.id))
  reply 204 no_content (on_invites (InviteService.revoke ctx id req.fresh.now))
