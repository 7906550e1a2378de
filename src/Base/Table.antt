-- ===== src/Base/Table.antt =====
-- The statements that a repository sends to its table, on a table as the list of its rows: what the
-- WHERE clause and row-level security let a statement see is its test.
use Prim.Native.Nat.{ℕ, ◌+◌, ◌≤◌}
use mathlib.Core.Path.{◌≡◌, refl, ap, ◌∙◌}
use mathlib.Core.Bool.{Bool, true, false, ◌&&◌}
use mathlib.Core.Option.{Option, none, some}
use mathlib.Core.List.{List, [], ◌∷◌, ◌++◌}
use native.Mathlib.Omega.{arith}
use logalot.Base.Tests.{leb, if◌then◌else◌}
use logalot.Base.Lists.{All}

module _ {ℓ} {A : Type ℓ} where
  -- SELECT … WHERE p
  unfoldable pub select_where : (A → Bool) → List A → List A
  select_where p [] = []
  select_where p (r ∷ rs) = let rest = select_where p rs in if p r then r ∷ rest else rest

  -- `rows[0]` of SELECT … WHERE p
  unfoldable pub find_where : (A → Bool) → List A → Option A
  find_where p [] = none
  find_where p (r ∷ rs) = if p r then some r else find_where p rs

  -- SELECT COUNT(*) … WHERE p, and the `rowCount` of an UPDATE or a DELETE
  unfoldable pub count_where : (A → Bool) → List A → ℕ
  count_where p [] = 0
  count_where p (r ∷ rs) = (if p r then 1 else 0) + count_where p rs

  -- UPDATE … SET f WHERE p
  unfoldable pub update_where : (A → Bool) → (A → A) → List A → List A
  update_where p f [] = []
  update_where p f (r ∷ rs) = (if p r then f r else r) ∷ update_where p f rs

  -- DELETE … WHERE p
  unfoldable pub delete_where : (A → Bool) → List A → List A
  delete_where p [] = []
  delete_where p (r ∷ rs) = let rest = delete_where p rs in if p r then rest else r ∷ rest

  pub count_where-append :
      (p : A → Bool) (xs ys : List A)
      → count_where p (xs ++ ys) ≡ count_where p xs + count_where p ys
  unfolding count_where
  count_where-append p [] ys = omega arith
  count_where-append p (x ∷ xs) ys = omega (arith, count_where-append p xs ys)

  -- Rows that pass a stronger test are no more than those that pass a weaker one.
  pub count_where_mono :
      (p q : A → Bool) (rs : List A)
      → ((r : A) → p r ≡ true → q r ≡ true)
      → count_where p rs ≤ count_where q rs
  unfolding count_where
  count_where_mono p q [] h = omega arith
  count_where_mono p q (r ∷ rs) h = ground (arith, h r, count_where_mono p q rs h)

  -- Two tests that exclude each other count no more together than a test that both imply.
  pub count_where_disjoint :
      (p q s : A → Bool) (rs : List A)
      → ((r : A) → p r ≡ true → (q r ≡ false) × (s r ≡ true))
      → ((r : A) → q r ≡ true → s r ≡ true)
      → count_where p rs + count_where q rs ≤ count_where s rs
  unfolding count_where
  count_where_disjoint p q s [] h k = omega arith
  count_where_disjoint p q s (r ∷ rs) h k =
      ground (arith, h r, k r, count_where_disjoint p q s rs h k)

  -- An update that does not change what `q` tests leaves the count of `q`.
  pub count-update_same :
      (q p : A → Bool) (f : A → A) (rs : List A)
      → ((r : A) → p r ≡ true → q (f r) ≡ q r)
      → count_where q (update_where p f rs) ≡ count_where q rs
  unfolding count_where update_where
  count-update_same q p f [] h = refl
  count-update_same q p f (r ∷ rs) h = ground (arith, h r, count-update_same q p f rs h)

  -- An update that makes no new row pass `q` does not raise the count of `q`.
  pub count-update_le :
      (q p : A → Bool) (f : A → A) (rs : List A)
      → ((r : A) → p r ≡ true → q (f r) ≡ true → q r ≡ true)
      → count_where q (update_where p f rs) ≤ count_where q rs
  unfolding count_where update_where
  count-update_le q p f [] h = omega arith
  count-update_le q p f (r ∷ rs) h = ground (arith, h r, count-update_le q p f rs h)

  -- Where an updated row no longer passes `q`, the count of `q` drops by the rows that are updated.
  pub count-update_drop :
      (q p : A → Bool) (f : A → A) (rs : List A)
      → ((r : A) → p r ≡ true → q (f r) ≡ false)
      → count_where q (update_where p f rs) + count_where (λ r. q r && p r) rs ≡ count_where q rs
  unfolding count_where update_where
  count-update_drop q p f [] k = refl
  count-update_drop q p f (r ∷ rs) k = ground (arith, k r, count-update_drop q p f rs k)

  -- A row that is found is counted.
  pub count_where-found :
      (p q : A → Bool) (rs : List A) (r : A)
      → find_where p rs ≡ some r
      → q r ≡ true
      → 1 ≤ count_where q rs
  unfolding find_where count_where
  count_where-found p q [] r e h = cc
  count_where-found p q (x ∷ rs) r e h = ground (arith, count_where-found p q rs r)

  -- The row found passes the test.
  pub find_where_sound :
      (p : A → Bool) (rs : List A) (r : A) → find_where p rs ≡ some r → p r ≡ true
  unfolding find_where
  find_where_sound p [] r e = cc
  find_where_sound p (x ∷ rs) r e = ground (arith, find_where_sound p rs r)

  pub find_where-none : (p : A → Bool) (rs : List A) → find_where p rs ≡ none → count_where p rs ≡ 0
  unfolding find_where count_where
  find_where-none p [] e = refl
  find_where-none p (x ∷ rs) e = ground (arith, find_where-none p rs)

  pub find_where-append_new :
      (p : A → Bool) (rs : List A) (r : A)
      → count_where p rs ≡ 0
      → p r ≡ true
      → find_where p (rs ++ r ∷ []) ≡ some r
  unfolding find_where count_where
  find_where-append_new p [] r e h = ground arith
  find_where-append_new p (x ∷ rs) r e h = ground (arith, find_where-append_new p rs r)

  -- ORDER BY key DESC; rows of one key keep their order.
  unfoldable pub insert_desc : (A → ℕ) → A → List A → List A
  insert_desc key x [] = x ∷ []
  insert_desc key x (y ∷ ys) = if leb (key y) (key x) then x ∷ y ∷ ys else y ∷ insert_desc key x ys

  unfoldable pub order_desc : (A → ℕ) → List A → List A
  unfolding insert_desc
  order_desc key [] = []
  order_desc key (x ∷ xs) = insert_desc key x (order_desc key xs)

  count_where-insert_desc :
      (p : A → Bool) (key : A → ℕ) (x : A) (rs : List A)
      → count_where p (insert_desc key x rs) ≡ count_where p (x ∷ rs)
  unfolding count_where insert_desc
  count_where-insert_desc p key x [] = refl
  count_where-insert_desc p key x (y ∷ ys) = ground (arith, count_where-insert_desc p key x ys)

  -- Ordering the rows loses none and adds none, whatever test they are counted by.
  pub count_where-order_desc :
      (p : A → Bool) (key : A → ℕ) (rs : List A)
      → count_where p (order_desc key rs) ≡ count_where p rs
  unfolding order_desc count_where
  count_where-order_desc p key [] = refl
  count_where-order_desc p key (x ∷ rs) =
      count_where-insert_desc p key x (order_desc key rs)
      ∙ ap (λ n. (if p x then 1 else 0) + n) (count_where-order_desc p key rs)

  pub count_where-select :
      (p q : A → Bool) (rs : List A)
      → count_where p (select_where q rs) ≡ count_where (λ r. q r && p r) rs
  unfolding count_where select_where
  count_where-select p q [] = refl
  count_where-select p q (r ∷ rs) = ground (arith, count_where-select p q rs)

  pub select_where-All : (q : A → Bool) (rs : List A) → All (λ r. q r ≡ true) (select_where q rs)
  unfolding select_where
  select_where-All q [] = tt
  select_where-All q (r ∷ rs) = ground (arith, select_where-All q rs)

  -- The row found after an update that `p` does not see.
  pub find_where-update :
      (p q : A → Bool) (f : A → A) (rs : List A) (r : A)
      → ((x : A) → p (f x) ≡ p x)
      → find_where p rs ≡ some r
      → find_where p (update_where q f rs) ≡ some (if q r then f r else r)
  unfolding find_where update_where
  find_where-update p q f [] r h e = cc
  find_where-update p q f (x ∷ rs) r h e = ground (arith, h x, find_where-update p q f rs r h)

  pub find_where-append_old :
      (p : A → Bool) (rs ys : List A) (r : A)
      → find_where p rs ≡ some r
      → find_where p (rs ++ ys) ≡ some r
  unfolding find_where
  find_where-append_old p [] ys r e = cc
  find_where-append_old p (x ∷ rs) ys r e = ground (arith, find_where-append_old p rs ys r)

  -- Where at most one row passes `q`, the row that another statement found is found by `q` too.
  pub find_where_unique :
      (p q : A → Bool) (rs : List A) (r : A)
      → count_where q rs ≤ 1
      → find_where p rs ≡ some r
      → q r ≡ true
      → find_where q rs ≡ some r
  unfolding find_where count_where
  find_where_unique p q [] r h e k = cc
  find_where_unique p q (x ∷ rs) r h e k =
      ground (arith, find_where_unique p q rs r, count_where-found p q rs r)

  -- An UPDATE that matches no row changes nothing.
  pub update_where_none :
      (p : A → Bool) (f : A → A) (rs : List A) → count_where p rs ≡ 0 → update_where p f rs ≡ rs
  unfolding count_where update_where
  update_where_none p f [] h = refl
  update_where_none p f (r ∷ rs) h = ground (arith, update_where_none p f rs)
