-- ===== src/SavedQueries.antt =====
-- services/control-plane/src/adapters/postgres/saved-query-repository.ts and app/saved-query-service.ts:
-- saved queries. The constraints are those of migrations/000007_saved_queries.up.sql, but its foreign
-- keys. A time range, which nothing here reads, is the text of its JSON.
pub mod Steps
pub mod Names
use logalot.Authorize.{assert_can}
use logalot.Ports.{TenantContext}
use logalot.Domain.Action.{◌>>=◌, ◌>>◌, Action, lift, pure}
use logalot.Domain.Rbac.{Operation}
use logalot.Domain.Errors.{ok, err, Result, not_found, text, naming, Message}
use logalot.Named.{
  NamedTable, insert_row, update_row, delete_row, find_row, list_rows, catch_unique,
}
use logalot.Base.{
  none, some, true, false, if◌then◌else◌, Text, List, ℕ, Option, Bool, ◌&&◌, or_else, is_none,
}

pub record SavedQueryFilters : Type 0 where
  pub service : Option Text
  pub level : Option Text
  pub labels : Option (List (Text × Text))

-- A row, and its projection, which has the same fields.
pub record SavedQuery : Type 0 where
  pub id : Text
  pub tenant_id : Text
  pub name : Text
  pub description : Option Text
  pub query_text : Text
  pub filters : SavedQueryFilters
  pub time_range : Text
  pub created_by : Option Text
  pub created_at : ℕ
  pub updated_at : ℕ

pub record NewSavedQuery : Type 0 where
  pub name : Text
  pub description : Option Text
  pub query_text : Text
  pub filters : SavedQueryFilters
  pub time_range : Text
  pub created_by : Option Text

-- A field that the patch does not have is `none`; a description may be set to null.
pub record SavedQueryPatch : Type 0 where
  pub name : Option Text
  pub description : Option (Option Text)
  pub query_text : Option Text
  pub filters : Option SavedQueryFilters
  pub time_range : Option Text

abbrev pub SavedQueries : Type 0
SavedQueries = List SavedQuery

abbrev pub saved_queries : NamedTable SavedQuery
saved_queries = record {
  tenant_id = λ r. r.tenant_id;
  id = λ r. r.id;
  name = λ r. r.name;
  created_at = λ r. r.created_at;
}

abbrev pub new_query : Text → NewSavedQuery → Text → ℕ → SavedQuery
new_query tenant_id input new_id now = record {
  id = new_id;
  tenant_id = tenant_id;
  name = input.name;
  description = input.description;
  query_text = input.query_text;
  filters = input.filters;
  time_range = input.time_range;
  created_by = input.created_by;
  created_at = now;
  updated_at = now;
}

unfoldable pub insert :
    Text → NewSavedQuery → Text → ℕ → SavedQueries → Result SavedQuery × SavedQueries
insert tenant_id input new_id now = insert_row saved_queries (new_query tenant_id input new_id now)

-- The columns that the patch sets, and the trigger on updated_at.
abbrev pub patched : SavedQueryPatch → ℕ → SavedQuery → SavedQuery
patched patch now r = record r {
  name = or_else patch.name r.name;
  description = or_else patch.description r.description;
  query_text = or_else patch.query_text r.query_text;
  filters = or_else patch.filters r.filters;
  time_range = or_else patch.time_range r.time_range;
  updated_at = now;
}

-- `sets.length === 0`
abbrev pub sets_nothing : SavedQueryPatch → Bool
sets_nothing patch =
    is_none patch.name
    && is_none patch.description
    && is_none patch.query_text
    && is_none patch.filters
    && is_none patch.time_range

unfoldable pub update_query :
    Text → Text → SavedQueryPatch → ℕ → SavedQueries → Result (Option SavedQuery) × SavedQueries
update_query tenant_id id patch now rows =
    if sets_nothing patch
    then (ok (find_row saved_queries tenant_id id rows), rows)
    else update_row saved_queries tenant_id id (patched patch now) rows

pub record CreateSavedQueryCommand : Type 0 where
  pub name : Text
  pub description : Option Text
  pub query_text : Text
  pub filters : SavedQueryFilters
  pub time_range : Text

abbrev pub query_missing : Message
query_missing = text "saved query not found"

abbrev pub found_query : Option SavedQuery → Result SavedQuery
found_query none = err (not_found query_missing)
found_query (some query) = ok query

abbrev pub input_of : TenantContext → CreateSavedQueryCommand → NewSavedQuery
input_of ctx cmd = record {
  name = cmd.name;
  description = cmd.description;
  query_text = cmd.query_text;
  filters = cmd.filters;
  time_range = cmd.time_range;
  created_by = some ctx.principal_id;
}

abbrev pub create_query :
    TenantContext → CreateSavedQueryCommand → Text → ℕ → Action SavedQueries SavedQuery
create_query ctx cmd new_id now rows =
    let end = insert ctx.tenant_id (input_of ctx cmd) new_id now rows in
    (catch_unique (naming "a saved query named '" cmd.name "' already exists") end.0, end.1)

unfoldable pub create :
    TenantContext → CreateSavedQueryCommand → Text → ℕ → Action SavedQueries SavedQuery
create ctx cmd new_id now =
    lift (assert_can ctx Operation.savedquery_create) >> create_query ctx cmd new_id now

unfoldable pub list : TenantContext → Action SavedQueries (List SavedQuery)
list ctx rows =
    (lift (assert_can ctx Operation.savedquery_list)
        >> pure (list_rows saved_queries ctx.tenant_id rows))
      rows

unfoldable pub get : TenantContext → Text → Action SavedQueries SavedQuery
get ctx id rows =
    (lift (assert_can ctx Operation.savedquery_read)
        >> lift (found_query (find_row saved_queries ctx.tenant_id id rows)))
      rows

abbrev pub patch_query :
    TenantContext → Text → SavedQueryPatch → ℕ → Action SavedQueries (Option SavedQuery)
patch_query ctx id patch now rows =
    let end = update_query ctx.tenant_id id patch now rows in
    (catch_unique (text "a saved query with that name already exists") end.0, end.1)

unfoldable pub update : TenantContext → Text → SavedQueryPatch → ℕ → Action SavedQueries SavedQuery
update ctx id patch now = do
  lift (assert_can ctx Operation.savedquery_update)
  updated ← patch_query ctx id patch now
  lift (found_query updated)

abbrev pub remove_query : TenantContext → Text → Action SavedQueries (Unit {0})
remove_query ctx id rows =
    let end = delete_row saved_queries ctx.tenant_id id rows in
    (if end.0 then ok tt else err (not_found query_missing), end.1)

unfoldable pub remove : TenantContext → Text → Action SavedQueries (Unit {0})
remove ctx id = lift (assert_can ctx Operation.savedquery_delete) >> remove_query ctx id
