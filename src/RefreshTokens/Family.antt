-- ===== src/RefreshTokens/Family.antt =====
-- The tokens of one login: a family, of which at most one is live, and which is revoked as a whole.
use logalot.Base.{
  ℕ, ◌+◌, ◌≤◌, ◌≡◌, refl, Bool, true, ◌&&◌, some, List, [], ◌∷◌, Text, ◌===◌, text_eq_iff,
  text_eq_refl, if◌then◌else◌, arith, Bool-cases, inl, inr, count_where, update_where,
  count_where-append, count-update_same, count-update_le, count-update_drop, count_where_mono,
  count_where_disjoint, not, count_where-found, find_where_sound,
}
use logalot.RefreshTokens.{
  RefreshTokenRow, NewRefreshToken, Rows, has_id, is_live, new_row, create, find_by_id, consumable,
  set_rotated, rotate, revocable, set_revoked, revoke_family,
}
use logalot.RefreshTokens.History.{
  StoreOp, rotations, live_id, credit, rotations-le-credit, live-le-has,
}

abbrev pub in_family : Text → Text → RefreshTokenRow → Bool
in_family t family r = (r.tenant_id === t) && ((r.family_id === family) && is_live r)

-- The number of live tokens of a family of the tenant.
abbrev pub live_in : Text → Text → Rows → ℕ
live_in t family rows = count_where (in_family t family) rows

-- No family of any tenant has two live tokens.
pub record OneLive (rows : Rows) : Type 0 where
  pub at : (t family : Text) → live_in t family rows ≤ 1

-- Revoking a family leaves no live token in it.
pub live_in-revoke_family :
    (t family : Text) (now : ℕ) (rows : Rows)
    → live_in t family (revoke_family t family now rows) ≡ 0
unfolding revoke_family
live_in-revoke_family t family now rows = omega (
  arith,
  count-update_drop (in_family t family) (revocable t family) (set_revoked now) rows
      (λ r e. ground arith),
  count_where_mono (in_family t family) (λ r. in_family t family r && revocable t family r) rows
      (λ r e. ground arith),
)

-- A revocation makes no token live, in whatever family.
pub live_in-revoke_le :
    (t u family other : Text) (now : ℕ) (rows : Rows)
    → live_in u other (revoke_family t family now rows) ≤ live_in u other rows
unfolding revoke_family
live_in-revoke_le t u family other now rows =
    count-update_le (in_family u other) (revocable t family) (set_revoked now) rows
      (λ r e h. ground arith)

pub live_in-create :
    (t u family : Text) (input : NewRefreshToken) (new_id : Text) (rows : Rows)
    → live_in u family (create t input new_id rows).1
      ≤ live_in u family rows + (if (t === u) && (input.family_id === family) then 1 else 0)
unfolding create count_where
live_in-create t u family input new_id rows =
    ground (arith, count_where-append (in_family u family) rows (new_row t input new_id ∷ []))

-- Consuming a live token that was found takes one live token from its family.
live_in-consume :
    (t id : Text) (now : ℕ) (rows : Rows) (row : RefreshTokenRow)
    → find_by_id t id rows ≡ some row
    → is_live row ≡ true
    → live_in t row.family_id (update_where (consumable t id) (set_rotated now) rows) + 1
      ≤ live_in t row.family_id rows
unfolding find_by_id
live_in-consume t id now rows row e h = omega (
  arith,
  count-update_drop (in_family t row.family_id) (consumable t id) (set_rotated now) rows
      (λ r f. ground arith),
  count_where-found (λ r. (r.tenant_id === t) && has_id id r)
      (λ r. in_family t row.family_id r && consumable t id r) rows row e
      (ground (
        arith,
        text_eq_refl row.family_id,
        find_where_sound (λ r. (r.tenant_id === t) && has_id id r) rows row e,
      )),
)

live_in-consume_le :
    (t u id family : Text) (now : ℕ) (rows : Rows)
    → live_in u family (update_where (consumable t id) (set_rotated now) rows)
      ≤ live_in u family rows
live_in-consume_le t u id family now rows =
    count-update_le (in_family u family) (consumable t id) (set_rotated now) rows
      (λ r e h. ground arith)

-- A rotation into the family of the presented token leaves every family with no more live tokens.
pub live_in-rotate :
    (t id : Text) (now : ℕ) (s : NewRefreshToken) (new_id : Text) (rows : Rows)
    (row : RefreshTokenRow) (u family : Text)
    → find_by_id t id rows ≡ some row
    → is_live row ≡ true
    → s.family_id ≡ row.family_id
    → live_in u family (rotate t id now s new_id rows).1 ≤ live_in u family rows
unfolding rotate
live_in-rotate t id now s new_id rows row u family e h f = ground (
  arith,
  text_eq_iff t u,
  text_eq_iff s.family_id family,
  live_in-consume t id now rows row e h,
  live_in-consume_le t u id family now rows,
  live_in-create t u family s new_id (update_where (consumable t id) (set_rotated now) rows),
)

-- The row of a token whose family is revoked has no credit left.
revoked-credit :
    (t id : Text) (now : ℕ) (rows : Rows) (row : RefreshTokenRow)
    → count_where (has_id id) rows ≤ 1
    → find_by_id t id rows ≡ some row
    → credit id (revoke_family t row.family_id now rows) ≡ 0
unfolding find_by_id revoke_family
revoked-credit t id now rows row one e = elim (Bool-cases (is_live row)) [
  | inl live ↦ ground (
    arith,
    had,
    same,
    drop,
    live-le-has id rows,
    count_where-found found (λ r. live_id id r && revocable t row.family_id r) rows row e,
    text_eq_refl row.family_id,
    find_where_sound found rows row e,
  )
  | inr dead ↦ ground (
    arith,
    had,
    same,
    drop,
    count_where_disjoint (live_id id) (λ r. has_id id r && not (is_live r)) (has_id id) rows
        (λ r f. ground arith) (λ r f. ground arith),
    count_where-found found (λ r. has_id id r && not (is_live r)) rows row e,
    find_where_sound found rows row e,
  )
]
  where
    found : RefreshTokenRow → Bool
    found = λ r. (r.tenant_id === t) && has_id id r

    had : 1 ≤ count_where (has_id id) rows
    had =
        count_where-found found (has_id id) rows row e
          (ground (arith, find_where_sound found rows row e))

    same :
        count_where (has_id id) (update_where (revocable t row.family_id) (set_revoked now) rows)
        ≡ count_where (has_id id) rows
    same =
        count-update_same (has_id id) (revocable t row.family_id) (set_revoked now) rows
          (λ r f. refl)

    drop :
        count_where (live_id id) (update_where (revocable t row.family_id) (set_revoked now) rows)
          + count_where (λ r. live_id id r && revocable t row.family_id r) rows
        ≡ count_where (live_id id) rows
    drop =
        count-update_drop (live_id id) (revocable t row.family_id) (set_revoked now) rows
          (λ r f. ground arith)

-- Once its family is revoked, no later history rotates a token of it.
pub revoked_never_rotates :
    (t id : Text) (now : ℕ) (rows : Rows) (row : RefreshTokenRow) (ops : List StoreOp)
    → count_where (has_id id) rows ≤ 1
    → find_by_id t id rows ≡ some row
    → rotations id ops (revoke_family t row.family_id now rows) ≡ 0
revoked_never_rotates t id now rows row ops one e = omega (
  arith,
  rotations-le-credit id ops (revoke_family t row.family_id now rows),
  revoked-credit t id now rows row one e,
)
