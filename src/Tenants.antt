-- ===== src/Tenants.antt =====
-- services/control-plane/src/adapters/postgres/tenant-repository.ts: the registry of tenants, which
-- has no row-level security.
use logalot.Base.{
  Bool, true, false, Option, List, [], ◌∷◌, ◌++◌, Text, ◌===◌, ltb, ◌||◌, or_else, if◌then◌else◌,
  find_where, count_where, update_where, delete_where, ℕ, order_desc, leb, ◌==◌, ◌&&◌, not, length,
}
use logalot.Domain.Errors.{Result, ok, err, conflict, naming, pg_error}

pub data TenantStatus : Type 0 where
  active suspended deleted : TenantStatus

abbrev pub is_active : TenantStatus → Bool
is_active TenantStatus.active = true
is_active TenantStatus.suspended = false
is_active TenantStatus.deleted = false

pub record Tenant : Type 0 where
  pub id : Text
  pub public_id : Text
  pub name : Text
  pub status : TenantStatus
  pub created_at : ℕ

pub record TenantPatch : Type 0 where
  pub name : Option Text
  pub status : Option TenantStatus

abbrev pub Tenants : Type 0
Tenants = List Tenant

unfoldable pub find_by_id : Text → Tenants → Option Tenant
find_by_id id tenants = find_where (λ r. r.id === id) tenants

unfoldable pub find_by_public_id : Text → Tenants → Option Tenant
find_by_public_id public_id tenants = find_where (λ r. r.public_id === public_id) tenants

abbrev pub is_alnum : ℕ → Bool
is_alnum c = (leb 97 c && leb c 122) || (leb 48 c && leb c 57)

-- `[a-z0-9-]*[a-z0-9]$`
unfoldable pub slug_tail : Text → Bool
slug_tail [] = false
slug_tail (c ∷ []) = is_alnum c
slug_tail (c ∷ d ∷ cs) = (is_alnum c || (c == 45)) && slug_tail (d ∷ cs)

-- CHECK tenants_public_id_format: `^[a-z0-9][a-z0-9-]{1,38}[a-z0-9]$`
unfoldable pub is_slug : Text → Bool
is_slug [] = false
is_slug (c ∷ cs) = is_alnum c && (slug_tail cs && (leb 2 (length cs) && leb (length cs) 39))

-- INSERT INTO tenants: the CHECK on the slug, which is an error of the driver, and then the slug is
-- unique, and so is the id, `new_id`, that the database makes.
unfoldable pub create : Text → Text → Text → ℕ → Tenants → Result Tenant × Tenants
create public_id name new_id now tenants =
    if not (is_slug public_id)
    then (err (pg_error 23514), tenants)
    else if ltb 0 (count_where (λ r. (r.public_id === public_id) || (r.id === new_id)) tenants)
    then (err (conflict (naming "tenant slug '" public_id "' already exists")), tenants)
    else let row : Tenant = record {
      id = new_id;
      public_id = public_id;
      name = name;
      status = TenantStatus.active;
      created_at = now;
    } in
      (ok row, tenants ++ row ∷ [])

abbrev pub patched : TenantPatch → Tenant → Tenant
patched patch r = record r {
  name = or_else patch.name r.name;
  status = or_else patch.status r.status;
}

unfoldable pub update : Text → TenantPatch → Tenants → Option Tenant × Tenants
unfolding find_by_id
update id patch tenants =
    let rows = update_where (λ r. r.id === id) (patched patch) tenants in (find_by_id id rows, rows)

unfoldable pub delete : Text → Tenants → Bool × Tenants
delete id tenants =
    (ltb 0 (count_where (λ r. r.id === id) tenants), delete_where (λ r. r.id === id) tenants)

unfoldable pub list : Tenants → List Tenant
list tenants = order_desc (λ r. r.created_at) tenants
