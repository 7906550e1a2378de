-- ===== src/Http/Isolation/Deletion.antt =====
-- What the deletion of a user leaves to the other tenants: the foreign keys of Http.Cascade.
use logalot.Http.Handlers.{apply_to}
use logalot.Http.Isolation.View.{seen, Keeps}
use logalot.Http.World.{World}
use logalot.Http.Cascade.{
  cascade_user, forget_authors, names, unsigned_key, unsigned_policy, unsigned_rule, unsigned_query,
  unsigned_dashboard, unsigned_invite,
}
use logalot.Named
use logalot.Domain.Action.{◌>>◌, Action}
use logalot.Domain.Action.Laws.{bind-keeps}
use logalot.AlertRules.{alert_rules}
use logalot.SavedQueries.{saved_queries}
use logalot.Dashboards.{dashboards}
use logalot.RefreshTokens.{RefreshTokenRow}
use logalot.OAuthIdentities.{OAuthIdentity, has_user}
use logalot.ApiKeys.{ApiKeyRow}
use logalot.Invites.{InviteRow}
use logalot.Retention.{owned}
use logalot.Base.{
  refl, Text, ◌≢◌, ◌≡◌, ◌===◌, select-delete_other, ◌&&◌, arith, text_eq_iff, map-select-update,
}

-- The foreign keys of a deleted user reach the sessions of its own tenant, and the authors of any.
pub cascade_user-seen :
    (t u id : Text) (w : World) → t ≢ u → seen u (cascade_user t id w) ≡ seen u w
unfolding seen cascade_user forget_authors
cascade_user-seen t u id w other =
    let gone = λ (author : Text). author === id in
    let tokens =
      select-delete_other (λ (r : RefreshTokenRow). r.tenant_id === u)
        (λ r. (r.tenant_id === t) && (r.user_id === id)) w.tokens
        (λ r e. ground (arith, other, text_eq_iff r.tenant_id t, text_eq_iff r.tenant_id u)) in
    let identities =
      select-delete_other (λ (r : OAuthIdentity). r.tenant_id === u) (has_user t id) w.identities
        (λ r e. ground (arith, other, text_eq_iff r.tenant_id t, text_eq_iff r.tenant_id u)) in
    let keys =
      map-select-update (λ (r : ApiKeyRow). r.tenant_id === u) (λ r. names gone r.created_by)
        unsigned_key unsigned_key w.keys (λ r. (refl, refl)) in
    let policies =
      map-select-update (owned u) (λ r. names gone r.updated_by) unsigned_policy unsigned_policy
        w.policies (λ r. (refl, refl)) in
    let rules =
      map-select-update (Named.visible alert_rules u) (λ r. names gone r.created_by) unsigned_rule
        unsigned_rule w.rules (λ r. (refl, refl)) in
    let queries =
      map-select-update (Named.visible saved_queries u) (λ r. names gone r.created_by)
        unsigned_query unsigned_query w.queries (λ r. (refl, refl)) in
    let dashboards =
      map-select-update (Named.visible dashboards u) (λ r. names gone r.created_by)
        unsigned_dashboard unsigned_dashboard w.dashboards (λ r. (refl, refl)) in
    let invites =
      map-select-update (λ (r : InviteRow). r.tenant_id === u) (λ r. names gone r.created_by)
        unsigned_invite unsigned_invite w.invites.invites (λ r. (refl, refl)) in
    λ i. record (seen u w) {
      tokens = tokens i;
      identities = identities i;
      keys = keys i;
      policies = policies i;
      rules = rules i;
      queries = queries i;
      dashboards = dashboards i;
      invites = invites i;
    }

-- A deletion of a user, and what follows it.
pub cascade_user-Keeps :
    (t u id : Text) (m : Action World (Unit {0}))
    → t ≢ u
    → Keeps u m
    → Keeps u (m >> apply_to (cascade_user t id))
unfolding Keeps
cascade_user-Keeps t u id m other h w =
    bind-keeps (seen u) m (λ _. apply_to (cascade_user t id)) w (h w)
      (λ a after. cascade_user-seen t u id after other)
