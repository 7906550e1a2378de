-- ===== src/Http/Cascade.antt =====
-- migrations/000005, 000006, 000007, 000008, 000009, 000012, 000017 and 000018: what the foreign keys do to the
-- other tables when a user or a tenant is deleted. They are followed below row-level security, so in
-- the rows of every tenant.
use logalot.OAuthIdentities.{has_user}
use logalot.Http.World.{World}
use logalot.ApiKeys.{ApiKeyRow}
use logalot.Retention.{RetentionRow}
use logalot.AlertRules.{AlertRule}
use logalot.SavedQueries.{SavedQuery}
use logalot.Dashboards.{Dashboard}
use logalot.Invites.{InviteRow}
use logalot.Users.{UserRow}
use logalot.Base.{
  none, some, false, Text, Option, Bool, List, ◌===◌, ◌&&◌, update_where, delete_where, ltb,
  count_where,
}

-- The rows without their author.
abbrev pub unsigned_key : ApiKeyRow → ApiKeyRow
unsigned_key r = record r { created_by = none }

abbrev pub unsigned_policy : RetentionRow → RetentionRow
unsigned_policy r = record r { updated_by = none }

abbrev pub unsigned_rule : AlertRule → AlertRule
unsigned_rule r = record r { created_by = none }

abbrev pub unsigned_query : SavedQuery → SavedQuery
unsigned_query r = record r { created_by = none }

abbrev pub unsigned_dashboard : Dashboard → Dashboard
unsigned_dashboard r = record r { created_by = none }

abbrev pub unsigned_invite : InviteRow → InviteRow
unsigned_invite r = record r { created_by = none }

-- Whether a column names one of the users that are gone; NULL names none.
abbrev pub names : (Text → Bool) → Option Text → Bool
names gone none = false
names gone (some author) = gone author

-- ON DELETE SET NULL on each column that refers to `users(id)`.
unfoldable pub forget_authors : (Text → Bool) → World → World
forget_authors gone w = record w {
  keys = update_where (λ r. names gone r.created_by) unsigned_key w.keys;
  policies = update_where (λ r. names gone r.updated_by) unsigned_policy w.policies;
  rules = update_where (λ r. names gone r.created_by) unsigned_rule w.rules;
  queries = update_where (λ r. names gone r.created_by) unsigned_query w.queries;
  dashboards = update_where (λ r. names gone r.created_by) unsigned_dashboard w.dashboards;
  invites = record w.invites {
    invites = update_where (λ r. names gone r.created_by) unsigned_invite w.invites.invites;
  };
}

-- A deleted user's sessions and Google accounts go with it.
unfoldable pub cascade_user : Text → Text → World → World
cascade_user tenant_id id w = record (forget_authors (λ author. author === id) w) {
  tokens = delete_where (λ r. (r.tenant_id === tenant_id) && (r.user_id === id)) w.tokens;
  identities = delete_where (has_user tenant_id id) w.identities;
}

-- `user_id` is one of the tenant's users.
abbrev pub is_of_tenant : Text → List UserRow → Text → Bool
is_of_tenant tenant_id users user_id =
    ltb 0 (count_where (λ u. (u.tenant_id === tenant_id) && (u.id === user_id)) users)

-- A deleted tenant's rows go from every table; `users` are those before the deletion.
unfoldable pub cascade_tenant : Text → List UserRow → World → World
cascade_tenant id users w =
    let left = forget_authors (is_of_tenant id users) w in
    record left {
      tokens = delete_where (λ r. r.tenant_id === id) left.tokens;
      identities = delete_where (λ r. r.tenant_id === id) left.identities;
      keys = delete_where (λ r. r.tenant_id === id) left.keys;
      policies = delete_where (λ r. r.tenant_id === id) left.policies;
      rules = delete_where (λ r. r.tenant_id === id) left.rules;
      queries = delete_where (λ r. r.tenant_id === id) left.queries;
      dashboards = delete_where (λ r. r.tenant_id === id) left.dashboards;
      invites = record left.invites {
        invites = delete_where (λ r. r.tenant_id === id) left.invites.invites;
      };
    }
