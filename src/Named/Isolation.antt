-- ===== src/Named/Isolation.antt =====
-- What the statements of one tenant leave to another.
use logalot.Domain.Errors.{Result}
use logalot.Base.{
  refl, inl, inr, Text, List, ◌≢◌, select_where, ◌≡◌, select-delete_other, arith,
  select-update_other, text_eq_iff, select-append_other, Option-cases, find_where, if_both, Option,
  ltb, count_where,
}
use logalot.Named.{NamedTable, visible, is_row, insert_row, update_row, delete_row, violates_update}

-- The rows that a tenant sees are the same.
abbrev pub SameRows : {R : Type 0} → NamedTable R → Text → List R → List R → Type 0
SameRows k u after before = select_where (visible k u) after ≡ select_where (visible k u) before

module _ {R : Type 0} (k : NamedTable R) (t u : Text) (other : t ≢ u) where
  pub insert-SameRows :
      (r : R) (rows : List R) → k.tenant_id r ≡ t → SameRows k u (insert_row k r rows).1 rows
  unfolding insert_row
  insert-SameRows r rows e =
      ground (arith, other, text_eq_iff (k.tenant_id r) u, select-append_other (visible k u) rows r)

  pub delete-SameRows : (id : Text) (rows : List R) → SameRows k u (delete_row k t id rows).1 rows
  unfolding delete_row
  delete-SameRows id rows =
      select-delete_other (visible k u) (is_row k t id) rows
        (λ r e. ground (arith, other, text_eq_iff (k.tenant_id r) t, text_eq_iff (k.tenant_id r) u))

  pub update-SameRows :
      (id : Text) (f : R → R) (rows : List R)
      → ((r : R) → k.tenant_id (f r) ≡ k.tenant_id r)
      → SameRows k u (update_row k t id f rows).1 rows
  unfolding update_row
  update-SameRows id f rows keeps =
      let updated = select-update_other (visible k u) (is_row k t id) f rows (λ r e.
        ground
          (arith, other, keeps r, text_eq_iff (k.tenant_id r) t, text_eq_iff (k.tenant_id r) u)) in
      elim (Option-cases (find_where (is_row k t id) rows)) [
        | inl n ↦ rw (update_row, n) refl
        | inr (r, e) ↦
            rw (update_row, e)
              (if_both (λ (o : Result (Option R) × List R). SameRows k u o.1 rows)
                (ltb 0 (count_where (violates_update k t id (f r)) rows)) _ _ refl updated)
      ]
