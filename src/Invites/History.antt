-- ===== src/Invites/History.antt =====
-- Histories of the table of invites: any sequence of its transactions, in the order in which they
-- commit.
use logalot.Users.{UserRow}
use logalot.Invites.{
  Invites, revoke, consume, NewInvite, create, InviteRow, Redemption, revocable, set_revoked,
  redeemable, is_pending, takes_unique, set_consumed, new_invite,
}
use logalot.Base.{
  refl, some, true, inl, inr, [], if◌then◌else◌, Text, List, Bytes, ◌∷◌, ℕ, ◌≤◌, ◌+◌, count_where,
  ◌===◌, Bool, ◌==◌, arith, find_where, Option-cases, ◌&&◌, text_eq_iff, ◌≡◌, count_where_mono, not,
  update_where, is_none, count_where-append, count-update_same, find_where_sound, count-update_le,
  count-update_drop, text_eq_refl, count_where-found,
}

pub data InviteOp : Type 0 where
  create_op : Text → NewInvite → Text → ℕ → List UserRow → InviteOp
  consume_op : Text → Redemption → InviteOp
  revoke_op : Text → Text → InviteOp

unfoldable pub apply : InviteOp → Invites → Invites
apply (create_op t input new_id created_at users) rows =
    (create t input new_id created_at users rows).1
apply (consume_op t input) rows = (consume t input rows).1
apply (revoke_op t id) rows = (revoke t id rows).1

unfoldable pub run : List InviteOp → Invites → Invites
unfolding apply
run [] rows = rows
run (op ∷ ops) rows = run ops (apply op rows)

-- 1 where the transaction consumes an invite with the token hash.
abbrev pub redeems : Bytes → InviteOp → Invites → ℕ
redeems hash (consume_op t input) rows =
    if (input.token_hash === hash) && not (is_none (consume t input rows).0) then 1 else 0
redeems hash _ rows = 0

-- How often a history consumes an invite with the token hash.
abbrev pub redemptions : Bytes → List InviteOp → Invites → ℕ
redemptions hash [] rows = 0
redemptions hash (op ∷ ops) rows = redeems hash op rows + redemptions hash ops (apply op rows)

abbrev pub has_hash : Bytes → InviteRow → Bool
has_hash hash r = r.token_hash === hash

abbrev pub open_hash : Bytes → InviteRow → Bool
open_hash hash r = has_hash hash r && is_pending r.status

-- What is left for the hash: a pending invite, or a hash that no invite has yet.
abbrev pub credit : Bytes → Invites → ℕ
credit hash rows =
    if count_where (has_hash hash) rows == 0 then 1 else count_where (open_hash hash) rows

create-credit :
    (hash : Bytes) (t : Text) (input : NewInvite) (new_id : Text) (created_at : ℕ)
    (users : List UserRow) (rows : Invites)
    → credit hash (create t input new_id created_at users rows).1 ≤ credit hash rows
unfolding create count_where
create-credit hash t input new_id created_at users rows = ground (
  arith,
  text_eq_iff input.secret_hash hash,
  count_where_mono (has_hash input.secret_hash) (takes_unique t input new_id) rows
      (λ r e. ground arith),
  count_where_mono (open_hash hash) (has_hash hash) rows (λ r e. ground arith),
  count_where-append (has_hash hash) rows (new_invite t input new_id created_at ∷ []),
  count_where-append (open_hash hash) rows (new_invite t input new_id created_at ∷ []),
)

update-credit :
    (hash : Bytes) (p : InviteRow → Bool) (f : InviteRow → InviteRow) (rows : Invites)
    → ((r : InviteRow) → p r ≡ true → (has_hash hash (f r) ≡ has_hash hash r))
    → ((r : InviteRow) → p r ≡ true → open_hash hash (f r) ≡ true → open_hash hash r ≡ true)
    → credit hash (update_where p f rows) ≤ credit hash rows
update-credit hash p f rows same less = ground (
  arith,
  count-update_same (has_hash hash) p f rows same,
  count-update_le (open_hash hash) p f rows less,
)

revoke-credit :
    (hash : Bytes) (t id : Text) (rows : Invites)
    → credit hash (revoke t id rows).1 ≤ credit hash rows
unfolding revoke
revoke-credit hash t id rows =
    update-credit hash (revocable t id) set_revoked rows (λ r h. refl) (λ r h e. ground arith)

-- A consume that finds its row takes the credit of its hash away.
redeem-credit :
    (t : Text) (input : Redemption) (rows : Invites) (row : InviteRow)
    → find_where (redeemable t input) rows ≡ some row
    → credit input.token_hash (update_where (redeemable t input) (set_consumed input.now) rows) + 1
      ≤ credit input.token_hash rows
redeem-credit t input rows row e = ground (
  arith,
  count-update_same (has_hash input.token_hash) (redeemable t input) (set_consumed input.now) rows
      (λ r h. refl),
  count-update_drop (open_hash input.token_hash) (redeemable t input) (set_consumed input.now) rows
      (λ r h. ground arith),
  count_where-found (redeemable t input) (λ r. open_hash input.token_hash r && redeemable t input r)
      rows row e (ground (arith, find_where_sound (redeemable t input) rows row e)),
  count_where_mono (open_hash input.token_hash) (has_hash input.token_hash) rows
      (λ r h. ground arith),
)

consume-credit :
    (hash : Bytes) (t : Text) (input : Redemption) (rows : Invites)
    → redeems hash (consume_op t input) rows + credit hash (consume t input rows).1
      ≤ credit hash rows
unfolding consume
consume-credit hash t input rows = elim (Option-cases (find_where (redeemable t input) rows)) [
  | inl e ↦ ground (arith, e)
  | inr (row, e) ↦ ground (
    arith,
    e,
    text_eq_iff input.token_hash hash,
    redeem-credit t input rows row e,
    update-credit hash (redeemable t input) (set_consumed input.now) rows (λ r h. refl)
        (λ r h k. ground arith),
  )
]

step-credit :
    (hash : Bytes) (op : InviteOp) (rows : Invites)
    → redeems hash op rows + credit hash (apply op rows) ≤ credit hash rows
unfolding apply
step-credit hash (create_op t input new_id created_at users) rows =
    omega (arith, create-credit hash t input new_id created_at users rows)
step-credit hash (consume_op t input) rows = consume-credit hash t input rows
step-credit hash (revoke_op t id) rows = omega (arith, revoke-credit hash t id rows)

pub redemptions-le-credit :
    (hash : Bytes) (ops : List InviteOp) (rows : Invites)
    → redemptions hash ops rows ≤ credit hash rows
redemptions-le-credit hash [] rows = omega arith
redemptions-le-credit hash (op ∷ ops) rows =
    omega (arith, step-credit hash op rows, redemptions-le-credit hash ops (apply op rows))

-- In every history of the table, from rows of which at most one has the token hash, an invite with
-- that hash is consumed at most once, in whatever tenant and for whatever email.
pub redemptions_at_most_one :
    (hash : Bytes) (ops : List InviteOp) (rows : Invites)
    → count_where (has_hash hash) rows ≤ 1
    → redemptions hash ops rows ≤ 1
redemptions_at_most_one hash ops rows h = ground (
  arith,
  redemptions-le-credit hash ops rows,
  count_where_mono (open_hash hash) (has_hash hash) rows (λ r e. ground arith),
)

-- An invite that is found by its id and tenant and is revoked is never consumed by a later history,
-- where at most one row has its token hash.
pub revoked_never_redeemed :
    (t id : Text) (rows : Invites) (row : InviteRow) (ops : List InviteOp)
    → find_where (revocable t id) rows ≡ some row
    → count_where (has_hash row.token_hash) rows ≤ 1
    → ((revoke t id rows).0 ≡ true) × (redemptions row.token_hash ops (revoke t id rows).1 ≡ 0)
unfolding revoke
revoked_never_redeemed t id rows row ops e one =
    let hash = row.token_hash in
    let after = update_where (revocable t id) set_revoked rows in
    let sound = find_where_sound (revocable t id) rows row e in
    let self = text_eq_refl hash in
    let counted =
      count_where-found (revocable t id) (λ r. open_hash hash r && revocable t id r) rows row e
        (ground (arith, sound, self)) in
    let found = count_where-found (revocable t id) (revocable t id) rows row e sound in
    let same = count-update_same (has_hash hash) (revocable t id) set_revoked rows (λ r h. refl) in
    let drop =
      count-update_drop (open_hash hash) (revocable t id) set_revoked rows (λ r h. ground arith) in
    let le = count_where_mono (open_hash hash) (has_hash hash) rows (λ r h. ground arith) in
    (
      ground (arith, found),
      ground (arith, redemptions-le-credit hash ops after, counted, same, drop, le),
    )
