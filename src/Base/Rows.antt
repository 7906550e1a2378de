-- ===== src/Base/Rows.antt =====
-- What a statement leaves to the other rows.
use mathlib.Core.Path.{◌≡◌, refl}
use mathlib.Core.Bool.{Bool, true, false}
use mathlib.Core.List.{List, [], ◌∷◌, ◌++◌, map}
use native.Mathlib.Omega.{arith}
use logalot.Base.Table.{select_where, update_where, delete_where}

module _ {ℓ} {A : Type ℓ} where
  -- An INSERT, an UPDATE and a DELETE leave the rows of a test that none of their rows passes.
  pub select-append_other :
      (p : A → Bool) (rs : List A) (r : A)
      → p r ≡ false
      → select_where p (rs ++ r ∷ []) ≡ select_where p rs
  unfolding select_where
  select-append_other p [] r h = ground arith
  select-append_other p (x ∷ rs) r h = ground (arith, select-append_other p rs r h)

  pub select-update_other :
      (p q : A → Bool) (f : A → A) (rs : List A)
      → ((r : A) → q r ≡ true → (p r ≡ false) × (p (f r) ≡ false))
      → select_where p (update_where q f rs) ≡ select_where p rs
  unfolding select_where update_where
  select-update_other p q f [] h = refl
  select-update_other p q f (r ∷ rs) h = ground (arith, h r, select-update_other p q f rs h)

  pub select-delete_other :
      (p q : A → Bool) (rs : List A)
      → ((r : A) → q r ≡ true → p r ≡ false)
      → select_where p (delete_where q rs) ≡ select_where p rs
  unfolding select_where delete_where
  select-delete_other p q [] h = refl
  select-delete_other p q (r ∷ rs) h = ground (arith, h r, select-delete_other p q rs h)

module _ {ℓ κ} {A : Type ℓ} {B : Type κ} where
  -- An UPDATE of columns that neither the test nor the projection reads.
  pub map-select-update :
      (p q : A → Bool) (f : A → B) (g : A → A) (rs : List A)
      → ((r : A) → (p (g r) ≡ p r) × (f (g r) ≡ f r))
      → map f (select_where p (update_where q g rs)) ≡ map f (select_where p rs)
  unfolding select_where update_where
  map-select-update p q f g [] h = refl
  map-select-update p q f g (r ∷ rs) h =
      ground (arith, (h r).0, (h r).1, map-select-update p q f g rs h)
