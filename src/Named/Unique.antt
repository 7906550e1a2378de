-- ===== src/Named/Unique.antt =====
-- The constraints hold through every statement.
use logalot.Domain.Errors.{Result}
use logalot.Base.{
  refl, some, [], if◌then◌else◌, List, count_where, Text, Bool, find_where, delete_where, ◌===◌,
  ◌≡◌, update_where, ◌≤◌, ◌&&◌, arith, not, ◌∷◌, ◌+◌, update_where_none, inl, inr, text_eq_iff,
  Option-cases, count_where_mono, if_cases, count_where-append, Option, ltb, count-update_same, ap,
  count_where-found, text_eq_refl, find_where_sound, count_where_disjoint,
}
use logalot.Named.{
  NamedTable, has_name, is_row, violates_insert, insert_row, violates_update, update_row,
  delete_row,
}

pub record IsUnique {R : Type 0} (k : NamedTable R) (rows : List R) : Type 0 where
  pub one_id : (id : Text) → count_where (λ r. k.id r === id) rows ≤ 1
  pub one_name : (t name : Text) → count_where (has_name k t name) rows ≤ 1

module _ {ℓ} {A : Type ℓ} where
  count_where_other :
      (q p : A → Bool) (rs : List A)
      → count_where p rs ≡ 0
      → count_where (λ x. q x && not (p x)) rs ≡ count_where q rs
  unfolding count_where
  count_where_other q p [] h = refl
  count_where_other q p (r ∷ rs) h = ground (arith, count_where_other q p rs)

  count-update_one :
      (q p : A → Bool) (f : A → A) (rs : List A) (r : A)
      → count_where p rs ≤ 1
      → find_where p rs ≡ some r
      → count_where q (update_where p f rs)
        ≡ count_where (λ x. q x && not (p x)) rs + (if q (f r) then 1 else 0)
  unfolding count_where find_where update_where
  count-update_one q p f [] r h e = cc
  count-update_one q p f (x ∷ rs) r h e =
      ground
        (arith, count-update_one q p f rs r, update_where_none p f rs, count_where_other q p rs)

  count-delete_le :
      (q p : A → Bool) (rs : List A) → count_where q (delete_where p rs) ≤ count_where q rs
  unfolding count_where delete_where
  count-delete_le q p [] = omega arith
  count-delete_le q p (r ∷ rs) = ground (arith, count-delete_le q p rs)

module _ {R : Type 0} (k : NamedTable R) where
  insert-one_id :
      (r : R) (rows : List R) (id : Text)
      → count_where (λ x. k.id x === id) rows ≤ 1
      → count_where (λ x. k.id x === id) (insert_row k r rows).1 ≤ 1
  unfolding insert_row count_where
  insert-one_id r rows id h = ground (
    arith,
    text_eq_iff (k.id r) id,
    count_where_mono (λ x. k.id x === k.id r) (violates_insert k r) rows (λ x e. ground arith),
    count_where-append (λ x. k.id x === id) rows (r ∷ []),
  )

  insert-one_name :
      (r : R) (rows : List R) (t name : Text)
      → count_where (has_name k t name) rows ≤ 1
      → count_where (has_name k t name) (insert_row k r rows).1 ≤ 1
  unfolding insert_row count_where
  insert-one_name r rows t name h = ground (
    arith,
    text_eq_iff (k.tenant_id r) t,
    text_eq_iff (k.name r) name,
    count_where_mono (has_name k (k.tenant_id r) (k.name r)) (violates_insert k r) rows
        (λ x e. ground arith),
    count_where-append (has_name k t name) rows (r ∷ []),
  )

  pub insert-IsUnique :
      (r : R) (rows : List R) → IsUnique k rows → IsUnique k (insert_row k r rows).1
  insert-IsUnique r rows h = record {
    one_id = λ id. insert-one_id r rows id (h.one_id id);
    one_name = λ t name. insert-one_name r rows t name (h.one_name t name);
  }

  pub delete-IsUnique :
      (t id : Text) (rows : List R) → IsUnique k rows → IsUnique k (delete_row k t id rows).1
  unfolding delete_row
  delete-IsUnique t id rows h = record {
    one_id =
        λ i. omega (arith, h.one_id i, count-delete_le (λ r. k.id r === i) (is_row k t id) rows);
    one_name = λ u name.
        omega (arith, h.one_name u name, count-delete_le (has_name k u name) (is_row k t id) rows);
  }

  module _ (f : R → R) (id_kept : (r : R) → k.id (f r) ≡ k.id r) where
    updated-one_name :
        (t id : Text) (rows : List R) (r : R) (u name : Text)
        → IsUnique k rows
        → find_where (is_row k t id) rows ≡ some r
        → count_where (violates_update k t id (f r)) rows ≡ 0
        → count_where (has_name k u name) (update_where (is_row k t id) f rows) ≤ 1
    updated-one_name t id rows r u name h e z = ground (
      arith,
      text_eq_iff (k.tenant_id (f r)) u,
      text_eq_iff (k.name (f r)) name,
      count-update_one (has_name k u name) (is_row k t id) f rows r,
      count_where_mono (is_row k t id) (λ x. k.id x === id) rows (λ x e. ground arith),
      h.one_id id,
      h.one_name u name,
      count_where_mono (λ x. has_name k u name x && not (is_row k t id x)) (has_name k u name) rows
          (λ x e. ground arith),
    )

    pub update-IsUnique :
        (t id : Text) (rows : List R) → IsUnique k rows → IsUnique k (update_row k t id f rows).1
    unfolding update_row
    update-IsUnique t id rows h = elim (Option-cases (find_where (is_row k t id) rows)) [
      | inl n ↦ rw (update_row, n) h
      | inr (r, e) ↦
          rw (update_row, e)
            (if_cases (λ (o : Result (Option R) × List R). IsUnique k o.1)
              (ltb 0 (count_where (violates_update k t id (f r)) rows)) _ _ (λ _. h)
              (λ free. record {
                one_id = λ i.
                    rw
                      (count-update_same (λ x. k.id x === i) (is_row k t id) f rows
                        (λ x _. ap (λ j. j === i) (id_kept x)))
                      (h.one_id i);
                one_name = λ u name. updated-one_name t id rows r u name h e (ground arith);
              }))
    ]

  -- An update that keeps the row's name violates nothing.
  pub rename_free :
      (t id : Text) (rows : List R) (r r' : R)
      → IsUnique k rows
      → find_where (is_row k t id) rows ≡ some r
      → k.tenant_id r' ≡ k.tenant_id r
      → k.name r' ≡ k.name r
      → count_where (violates_update k t id r') rows ≡ 0
  rename_free t id rows r r' h e a b =
      let named = has_name k (k.tenant_id r') (k.name r') in
      let found : 1 ≤ count_where (λ x. named x && is_row k t id x) rows =
        count_where-found (is_row k t id) (λ x. named x && is_row k t id x) rows r e
          (ground (
            arith,
            a,
            b,
            text_eq_refl (k.tenant_id r),
            text_eq_refl (k.name r),
            find_where_sound (is_row k t id) rows r e,
          )) in
      omega (
        arith,
        found,
        h.one_name (k.tenant_id r') (k.name r'),
        count_where_disjoint (violates_update k t id r') (λ x. named x && is_row k t id x) named
            rows (λ x v. ground arith) (λ x v. ground arith),
      )
