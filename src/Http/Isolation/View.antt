-- ===== src/Http/Isolation/View.antt =====
-- What the tables show to one tenant, and what a request changes of it.
use logalot.OAuthIdentities.{OAuthIdentity, Identities}
use logalot.Ports.{Directory}
use logalot.Http.Cascade.{
  unsigned_key, unsigned_policy, unsigned_rule, unsigned_query, unsigned_dashboard, unsigned_invite,
}
use logalot.InviteService.{InviteState}
use logalot.Base.{refl, ◌≡◌, Text, List, ℕ, select_where, Option, none, some, ◌===◌, map}
use logalot.Http.{parse}
use logalot.Http.World.{
  World, Body, on_accounts, on_keys, on_policies, on_rules, on_queries, on_dashboards, on_invites,
}
use logalot.Http.Handlers.{reply}
use logalot.Http.Isolation.Tables.{keys_of, policies_of, invites_of}
use logalot.Domain.Action.{◌>>=◌, Action, lift, pure}
use logalot.Domain.Action.Laws.{bind-keeps}
use logalot.Named
use logalot.Tenants.{Tenants}
use logalot.Users.{UserRow, MembershipRow, Users}
use logalot.UserService.Isolation.{users_of, memberships_of, Same}
use logalot.ApiKeys.{ApiKeyRow, ApiKeys}
use logalot.Retention.{RetentionRow, Policies}
use logalot.Invites.{InviteRow}
use logalot.RefreshTokens.{Rows, RefreshTokenRow}
use logalot.AlertRules.{AlertRule, alert_rules, AlertRules}
use logalot.SavedQueries.{SavedQuery, saved_queries, SavedQueries}
use logalot.Dashboards.{Dashboard, dashboards, Dashboards}

-- The registry of tenants, and the rows that each table has for a tenant. The authors of the rows are
-- left out: a row keeps its author only until that user is deleted.
pub record View : Type 0 where
  pub tenants : Tenants
  pub tokens : List RefreshTokenRow
  pub identities : List OAuthIdentity
  pub users : List UserRow
  pub memberships : List MembershipRow
  pub keys : List ApiKeyRow
  pub policies : List RetentionRow
  pub rules : List AlertRule
  pub queries : List SavedQuery
  pub dashboards : List Dashboard
  pub invites : List InviteRow

abbrev pub tokens_of : Text → Rows → List RefreshTokenRow
tokens_of u rows = select_where (λ r. r.tenant_id === u) rows

abbrev pub identities_of : Text → Identities → List OAuthIdentity
identities_of u rows = select_where (λ r. r.tenant_id === u) rows

unfoldable pub seen : Text → World → View
seen u w = record {
  tenants = w.dir.tenants;
  tokens = tokens_of u w.tokens;
  identities = identities_of u w.identities;
  users = users_of u w.dir.users;
  memberships = memberships_of u w.dir.users;
  keys = map unsigned_key (keys_of u w.keys);
  policies = map unsigned_policy (policies_of u w.policies);
  rules = map unsigned_rule (select_where (Named.visible alert_rules u) w.rules);
  queries = map unsigned_query (select_where (Named.visible saved_queries u) w.queries);
  dashboards = map unsigned_dashboard (select_where (Named.visible dashboards u) w.dashboards);
  invites = map unsigned_invite (invites_of u w.invites);
}

-- What an action leaves as it is, seen by a tenant.
unfoldable pub Keeps : {A : Type 0} → Text → Action World A → Type 0
Keeps u m = (w : World) → seen u (m w).1 ≡ seen u w

pub all-Keeps :
    {A : Type 0} (u : Text) (m : Action World A)
    → ((w : World) → seen u (m w).1 ≡ seen u w)
    → Keeps u m
unfolding Keeps
all-Keeps u m h = h

-- A schema in front of a handler changes nothing.
pub parsed-Keeps :
    {A B : Type 0} (u : Text) (o : Option A) (f : A → Action World B)
    → ((a : A) → Keeps u (f a))
    → Keeps u (lift (parse o) >>= f)
unfolding Keeps
parsed-Keeps u none f h w = refl
parsed-Keeps u (some a) f h w = h a w

-- Nor does the answer after it.
pub reply-Keeps :
    {A : Type 0} (u : Text) (code : ℕ) (body : A → Body) (m : Action World A)
    → Keeps u m
    → Keeps u (reply code body m)
unfolding Keeps
reply-Keeps u code body m h w =
    bind-keeps (seen u) m (λ a. pure (record { code = code; body = body a })) w (h w) (λ a t. refl)

-- A handler that looks up the registry.
pub tenants-Keeps :
    {A : Type 0} (u : Text) (f : Tenants → Action World A)
    → ((tenants : Tenants) → Keeps u (f tenants))
    → Keeps u (λ w. f w.dir.tenants w)
unfolding Keeps
tenants-Keeps u f h w = h w.dir.tenants w

pub dir-Keeps :
    {A : Type 0} (u : Text) (f : Directory → Action World A)
    → ((dir : Directory) → Keeps u (f dir))
    → Keeps u (λ w. f w.dir w)
unfolding Keeps
dir-Keeps u f h w = h w.dir w

module _ {A : Type 0} (u : Text) where
  pub accounts-Keeps :
      (m : Action Users A) → ((db : Users) → Same u (m db).1 db) → Keeps u (on_accounts m)
  unfolding seen Keeps
  accounts-Keeps m h w i = record (seen u w) {
    users = (h w.dir.users).0 i;
    memberships = (h w.dir.users).1 i;
  }

  pub keys-Keeps :
      (m : Action ApiKeys A)
      → ((rows : ApiKeys) → keys_of u (m rows).1 ≡ keys_of u rows)
      → Keeps u (on_keys m)
  unfolding seen Keeps
  keys-Keeps m h w i = record (seen u w) { keys = map unsigned_key (h w.keys i) }

  pub policies-Keeps :
      (m : Action Policies A)
      → ((rows : Policies) → policies_of u (m rows).1 ≡ policies_of u rows)
      → Keeps u (on_policies m)
  unfolding seen Keeps
  policies-Keeps m h w i = record (seen u w) { policies = map unsigned_policy (h w.policies i) }

  pub rules-Keeps :
      (m : Action AlertRules A)
      → ((rows : AlertRules)
          → select_where (Named.visible alert_rules u) (m rows).1
            ≡ select_where (Named.visible alert_rules u) rows)
      → Keeps u (on_rules m)
  unfolding seen Keeps
  rules-Keeps m h w i = record (seen u w) { rules = map unsigned_rule (h w.rules i) }

  pub queries-Keeps :
      (m : Action SavedQueries A)
      → ((rows : SavedQueries)
          → select_where (Named.visible saved_queries u) (m rows).1
            ≡ select_where (Named.visible saved_queries u) rows)
      → Keeps u (on_queries m)
  unfolding seen Keeps
  queries-Keeps m h w i = record (seen u w) { queries = map unsigned_query (h w.queries i) }

  pub dashboards-Keeps :
      (m : Action Dashboards A)
      → ((rows : Dashboards)
          → select_where (Named.visible dashboards u) (m rows).1
            ≡ select_where (Named.visible dashboards u) rows)
      → Keeps u (on_dashboards m)
  unfolding seen Keeps
  dashboards-Keeps m h w i = record (seen u w) {
    dashboards = map unsigned_dashboard (h w.dashboards i);
  }

  pub invites-Keeps :
      (m : Action InviteState A)
      → ((rows : InviteState) → invites_of u (m rows).1 ≡ invites_of u rows)
      → Keeps u (on_invites m)
  unfolding seen Keeps
  invites-Keeps m h w i = record (seen u w) { invites = map unsigned_invite (h w.invites i) }
