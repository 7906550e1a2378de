-- ===== src/OAuthIdentities.antt =====
-- services/control-plane/src/adapters/postgres/oauth-identity-repository.ts: the links of users to
-- Google accounts, each statement in a transaction of the armed tenant. `oauth_provider` has one
-- value, 'google', and is left out, as are the timestamps but `last_login_at`.
pub mod Pinned
use logalot.Domain.Errors.{ok, err, Error, conflict, Result, text}
use logalot.Base.{
  none, some, [], if◌then◌else◌, Text, List, Option, ℕ, Bool, find_where, update_where, ◌===◌, ◌||◌,
  ltb, ◌&&◌, count_where, ◌++◌, ◌∷◌,
}

pub record OAuthIdentity : Type 0 where
  pub id : Text
  pub tenant_id : Text
  pub user_id : Text
  pub provider_sub : Text
  pub email : Text
  pub last_login_at : Option ℕ

pub record OAuthIdentityRef : Type 0 where
  pub id : Text
  pub user_id : Text

pub record NewOAuthIdentity : Type 0 where
  pub user_id : Text
  pub provider_sub : Text
  pub email : Text

abbrev pub Identities : Type 0
Identities = List OAuthIdentity

-- WHERE provider = $1 AND provider_sub = $2
abbrev pub has_sub : Text → Text → OAuthIdentity → Bool
has_sub tenant_id provider_sub r = (r.tenant_id === tenant_id) && (r.provider_sub === provider_sub)

abbrev pub has_user : Text → Text → OAuthIdentity → Bool
has_user tenant_id user_id r = (r.tenant_id === tenant_id) && (r.user_id === user_id)

-- The two UNIQUE constraints of migrations/000017_oauth_identities.up.sql, and the primary key.
abbrev pub takes_unique : Text → NewOAuthIdentity → Text → OAuthIdentity → Bool
takes_unique tenant_id input new_id r =
    has_sub tenant_id input.provider_sub r
    || has_user tenant_id input.user_id r
    || (r.id === new_id)

abbrev pub new_identity : Text → NewOAuthIdentity → Text → OAuthIdentity
new_identity tenant_id input new_id = record {
  id = new_id;
  tenant_id = tenant_id;
  user_id = input.user_id;
  provider_sub = input.provider_sub;
  email = input.email;
  last_login_at = none;
}

abbrev pub to_ref : OAuthIdentity → OAuthIdentityRef
to_ref r = record { id = r.id; user_id = r.user_id }

abbrev pub already_linked : Error
already_linked = conflict (text "user is already linked to a different identity for this provider")

-- The re-SELECT after ROLLBACK TO SAVEPOINT.
abbrev pub resolve : Option OAuthIdentity → Result OAuthIdentityRef
resolve none = err already_linked
resolve (some r) = ok (to_ref r)

-- linkFirstWithClient, and `linkFirst`, which is the same in a transaction of its own.
unfoldable pub link_first :
    Text → NewOAuthIdentity → Text → Identities → Result OAuthIdentityRef × Identities
link_first tenant_id input new_id rows =
    if ltb 0 (count_where (takes_unique tenant_id input new_id) rows)
    then (resolve (find_where (has_sub tenant_id input.provider_sub) rows), rows)
    else let row = new_identity tenant_id input new_id in (ok (to_ref row), rows ++ row ∷ [])

abbrev pub some_ref : Option OAuthIdentity → Option OAuthIdentityRef
some_ref none = none
some_ref (some r) = some (to_ref r)

unfoldable pub find_by_provider_sub : Text → Text → Identities → Option OAuthIdentityRef
find_by_provider_sub tenant_id provider_sub rows =
    some_ref (find_where (has_sub tenant_id provider_sub) rows)

abbrev pub set_last_login : ℕ → OAuthIdentity → OAuthIdentity
set_last_login now r = record r { last_login_at = some now }

unfoldable pub touch_last_login : Text → Text → ℕ → Identities → Identities
touch_last_login tenant_id id now rows =
    update_where (λ r. (r.tenant_id === tenant_id) && (r.id === id)) (set_last_login now) rows

unfoldable pub find_by_id : Text → Text → Identities → Option OAuthIdentity
find_by_id tenant_id id rows = find_where (λ r. (r.tenant_id === tenant_id) && (r.id === id)) rows
