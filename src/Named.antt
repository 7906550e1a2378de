-- ===== src/Named.antt =====
-- Tables whose rows have a name that is unique in their tenant (saved_queries, dashboards, alert_rules):
-- the statements that their repositories share, under row-level security, and the constraints
-- PRIMARY KEY (id) and UNIQUE (tenant_id, name).
pub mod Unique
pub mod Isolation
use logalot.Domain.Errors.{Result, ok, err, pg_error, Error, Message, conflict}
use logalot.Base.{
  none, some, [], if◌then◌else◌, Text, List, ℕ, Option, Bool, true, false, ◌===◌, not, ltb, ◌&&◌,
  ◌||◌, ◌==◌, count_where, update_where, delete_where, find_where, select_where, order_desc, ◌++◌,
  ◌∷◌,
}

pub record NamedTable (R : Type 0) : Type 0 where
  pub tenant_id : R → Text
  pub id : R → Text
  pub name : R → Text
  pub created_at : R → ℕ

-- `isUniqueViolation`, and the ConflictError that the services throw for it.
abbrev pub is_unique_violation : Error → Bool
is_unique_violation (pg_error code) = code == 23505
is_unique_violation _ = false

abbrev pub catch_unique {ℓ} : {A : Type ℓ} → Message → Result A → Result A
catch_unique message (ok a) = ok a
catch_unique message (err e) = err (if is_unique_violation e then conflict message else e)

module _ {R : Type 0} (k : NamedTable R) where
  abbrev pub visible : Text → R → Bool
  visible t r = k.tenant_id r === t

  abbrev pub has_name : Text → Text → R → Bool
  has_name t name r = (k.tenant_id r === t) && (k.name r === name)

  -- WHERE id = $1, as the armed tenant sees it
  abbrev pub is_row : Text → Text → R → Bool
  is_row t id r = (k.tenant_id r === t) && (k.id r === id)

  abbrev pub violates_insert : R → R → Bool
  violates_insert r x = has_name (k.tenant_id r) (k.name r) x || (k.id x === k.id r)

  unfoldable pub insert_row : R → List R → Result R × List R
  insert_row r rows =
      if ltb 0 (count_where (violates_insert r) rows)
      then (err (pg_error 23505), rows)
      else (ok r, rows ++ r ∷ [])

  -- A row other than the updated one that has the new name.
  abbrev pub violates_update : Text → Text → R → R → Bool
  violates_update t id r x = has_name (k.tenant_id r) (k.name r) x && not (is_row t id x)

  unfoldable pub update_row : Text → Text → (R → R) → List R → Result (Option R) × List R
  update_row t id f rows = elim (find_where (is_row t id) rows) [
    | none ↦ (ok none, rows)
    | some r ↦
        if ltb 0 (count_where (violates_update t id (f r)) rows)
        then (err (pg_error 23505), rows)
        else (ok (some (f r)), update_where (is_row t id) f rows)
  ]

  unfoldable pub delete_row : Text → Text → List R → Bool × List R
  delete_row t id rows = (ltb 0 (count_where (is_row t id) rows), delete_where (is_row t id) rows)

  unfoldable pub find_row : Text → Text → List R → Option R
  find_row t id rows = find_where (is_row t id) rows

  -- SELECT … ORDER BY created_at DESC
  unfoldable pub list_rows : Text → List R → List R
  list_rows t rows = order_desc k.created_at (select_where (visible t) rows)
