-- ===== src/RefreshTokens/History.antt =====
-- Histories of the refresh-token table: any sequence of its transactions, in the order in which
-- they commit.
use logalot.Base.{
  ℕ, ◌+◌, ◌≤◌, ◌≡◌, ◌≢◌, refl, Bool, true, ◌&&◌, Option, none, some, List, [], ◌∷◌, Text, ◌===◌,
  text_eq_iff, ◌==◌, if◌then◌else◌, arith, count_where, update_where, count_where-append,
  count-update_same, count-update_le, count-update_drop, count_where_mono,
}
use logalot.Domain.Errors.{Result, ok, err}
use logalot.RefreshTokens.{
  RefreshTokenRow, NewRefreshToken, Rows, has_id, is_live, new_row, create, consumable, set_rotated,
  rotate, revocable, set_revoked, revoke_family,
}

pub data StoreOp : Type 0 where
  create_op : Text → NewRefreshToken → Text → StoreOp
  rotate_op : Text → Text → ℕ → NewRefreshToken → Text → StoreOp
  revoke_op : Text → Text → ℕ → StoreOp

unfoldable pub apply : StoreOp → Rows → Rows
apply (create_op t input new_id) rows = (create t input new_id rows).1
apply (rotate_op t id now successor new_id) rows = (rotate t id now successor new_id rows).1
apply (revoke_op t family now) rows = revoke_family t family now rows

unfoldable pub run : List StoreOp → Rows → Rows
unfolding apply
run [] rows = rows
run (op ∷ ops) rows = run ops (apply op rows)

abbrev rotated : Result (Option Text) → ℕ
rotated (ok (some _)) = 1
rotated (ok none) = 0
rotated (err _) = 0

-- 1 where the transaction rotates the token `id`: it finds it live, and mints a successor.
abbrev pub wins : Text → StoreOp → Rows → ℕ
wins id (rotate_op t presented now successor new_id) rows =
    if presented === id then rotated (rotate t presented now successor new_id rows).0 else 0
wins id _ rows = 0

-- How often a history rotates the token `id`.
abbrev pub rotations : Text → List StoreOp → Rows → ℕ
rotations id [] rows = 0
rotations id (op ∷ ops) rows = wins id op rows + rotations id ops (apply op rows)

abbrev pub live_id : Text → RefreshTokenRow → Bool
live_id id r = has_id id r && is_live r

-- What is left for `id`: a row that is live, or an id that is not taken yet.
abbrev pub credit : Text → Rows → ℕ
credit id rows = if count_where (has_id id) rows == 0 then 1 else count_where (live_id id) rows

pub live-le-has :
    (id : Text) (rows : Rows) → count_where (live_id id) rows ≤ count_where (has_id id) rows
live-le-has id rows = count_where_mono (live_id id) (has_id id) rows (λ r e. ground arith)

create-credit :
    (id t : Text) (input : NewRefreshToken) (new_id : Text) (rows : Rows)
    → credit id (create t input new_id rows).1 ≤ credit id rows
unfolding create count_where
create-credit id t input new_id rows = ground (
  arith,
  text_eq_iff new_id id,
  live-le-has id rows,
  count_where-append (has_id id) rows (new_row t input new_id ∷ []),
  count_where-append (live_id id) rows (new_row t input new_id ∷ []),
)

-- An UPDATE that keeps ids and makes no row live leaves no more credit.
update-credit :
    (id : Text) (p : RefreshTokenRow → Bool) (f : RefreshTokenRow → RefreshTokenRow) (rows : Rows)
    → ((r : RefreshTokenRow) → p r ≡ true → (has_id id (f r) ≡ has_id id r))
    → ((r : RefreshTokenRow) → p r ≡ true → live_id id (f r) ≡ true → live_id id r ≡ true)
    → credit id (update_where p f rows) ≤ credit id rows
update-credit id p f rows same less =
    ground (
      arith,
      count-update_same (has_id id) p f rows same,
      count-update_le (live_id id) p f rows less,
    )

revoke-credit :
    (id t family : Text) (now : ℕ) (rows : Rows)
    → credit id (revoke_family t family now rows) ≤ credit id rows
unfolding revoke_family
revoke-credit id t family now rows =
    update-credit id (revocable t family) (set_revoked now) rows (λ r h. refl)
      (λ r h e. ground arith)

consume-credit :
    (id t presented : Text) (now : ℕ) (rows : Rows)
    → credit id (update_where (consumable t presented) (set_rotated now) rows) ≤ credit id rows
consume-credit id t presented now rows =
    update-credit id (consumable t presented) (set_rotated now) rows (λ r h. refl)
      (λ r h e. ground arith)

-- The consume of `id` itself takes the credit away.
consume_self-credit :
    (id t : Text) (now : ℕ) (rows : Rows)
    → count_where (consumable t id) rows ≢ 0
    → credit id (update_where (consumable t id) (set_rotated now) rows) + 1 ≤ credit id rows
consume_self-credit id t now rows h = ground (
  arith,
  count-update_same (has_id id) (consumable t id) (set_rotated now) rows (λ r e. refl),
  count-update_drop (live_id id) (consumable t id) (set_rotated now) rows (λ r e. ground arith),
  count_where_mono (consumable t id) (λ r. live_id id r && consumable t id r) rows
      (λ r e. ground arith),
  count_where_mono (live_id id) (has_id id) rows (λ r e. ground arith),
)

rotate-credit :
    (id t presented : Text) (now : ℕ) (s : NewRefreshToken) (new_id : Text) (rows : Rows)
    → wins id (rotate_op t presented now s new_id) rows
        + credit id (rotate t presented now s new_id rows).1
      ≤ credit id rows
unfolding rotate
rotate-credit id t presented now s new_id rows = ground (
  arith,
  text_eq_iff presented id,
  consume_self-credit id t now rows,
  consume-credit id t presented now rows,
  create-credit id t s new_id (update_where (consumable t presented) (set_rotated now) rows),
)

step-credit :
    (id : Text) (op : StoreOp) (rows : Rows)
    → wins id op rows + credit id (apply op rows) ≤ credit id rows
unfolding apply
step-credit id (create_op t input new_id) rows = omega (arith, create-credit id t input new_id rows)
step-credit id (rotate_op t presented now s new_id) rows =
    rotate-credit id t presented now s new_id rows
step-credit id (revoke_op t family now) rows = omega (arith, revoke-credit id t family now rows)

pub rotations-le-credit :
    (id : Text) (ops : List StoreOp) (rows : Rows) → rotations id ops rows ≤ credit id rows
rotations-le-credit id [] rows = omega arith
rotations-le-credit id (op ∷ ops) rows =
    omega (arith, step-credit id op rows, rotations-le-credit id ops (apply op rows))

-- In every history of the table, from rows of which at most one has the id, a refresh token is
-- rotated at most once.
pub rotations_at_most_one :
    (id : Text) (ops : List StoreOp) (rows : Rows)
    → count_where (has_id id) rows ≤ 1
    → rotations id ops rows ≤ 1
rotations_at_most_one id ops rows h = ground (
  arith,
  rotations-le-credit id ops rows,
  count_where_mono (live_id id) (has_id id) rows (λ r e. ground arith),
)
