-- ===== src/Invites/Pending.antt =====
-- The partial unique index: a tenant has at most one pending invite for an email.
use logalot.Users.{UserRow}
use logalot.Base.{
  [], count_where, List, Text, arith, ◌∷◌, ◌≤◌, ℕ, text_eq_iff, count-update_le, count_where_mono,
  count_where-append,
}
use logalot.Invites.History.{apply, run, create_op, consume_op, revoke_op, InviteOp}
use logalot.Invites.{
  create, Invites, consume, revoke, pending_for, NewInvite, Redemption, redeemable, revocable,
  takes_unique, set_consumed, set_revoked, new_invite,
}

pub record OnePending (rows : Invites) : Type 0 where
  pub at : (t email : Text) → count_where (pending_for t email) rows ≤ 1

create-pending :
    (t : Text) (input : NewInvite) (new_id : Text) (created_at : ℕ) (users : List UserRow)
    (rows : Invites) (u email : Text)
    → count_where (pending_for u email) rows ≤ 1
    → count_where (pending_for u email) (create t input new_id created_at users rows).1 ≤ 1
unfolding create count_where
create-pending t input new_id created_at users rows u email h = ground (
  arith,
  text_eq_iff t u,
  text_eq_iff input.email email,
  count_where_mono (pending_for t input.email) (takes_unique t input new_id) rows
      (λ r e. ground arith),
  count_where-append (pending_for u email) rows (new_invite t input new_id created_at ∷ []),
)

consume-pending :
    (t : Text) (input : Redemption) (rows : Invites) (u email : Text)
    → count_where (pending_for u email) (consume t input rows).1
      ≤ count_where (pending_for u email) rows
unfolding consume
consume-pending t input rows u email = ground (
  arith,
  count-update_le (pending_for u email) (redeemable t input) (set_consumed input.now) rows
      (λ r h k. ground arith),
)

revoke-pending :
    (t id : Text) (rows : Invites) (u email : Text)
    → count_where (pending_for u email) (revoke t id rows).1
      ≤ count_where (pending_for u email) rows
unfolding revoke
revoke-pending t id rows u email =
    count-update_le (pending_for u email) (revocable t id) set_revoked rows (λ r h k. ground arith)

step-OnePending : (op : InviteOp) (rows : Invites) → OnePending rows → OnePending (apply op rows)
unfolding apply
step-OnePending (create_op t input new_id created_at users) rows h = record {
  at = λ u email. create-pending t input new_id created_at users rows u email (h.at u email);
}
step-OnePending (consume_op t input) rows h = record {
  at = λ u email. omega (arith, consume-pending t input rows u email, h.at u email);
}
step-OnePending (revoke_op t id) rows h = record {
  at = λ u email. omega (arith, revoke-pending t id rows u email, h.at u email);
}

-- Through any history of the table, no tenant has two pending invites for one email.
pub run-OnePending :
    (ops : List InviteOp) (rows : Invites) → OnePending rows → OnePending (run ops rows)
unfolding run
run-OnePending [] rows h = h
run-OnePending (op ∷ ops) rows h = run-OnePending ops (apply op rows) (step-OnePending op rows h)
