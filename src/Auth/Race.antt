-- ===== src/Auth/Race.antt =====
-- Two requests that present one token at the same time.
use logalot.Auth.Rotation.{finish_ok_rotated}
use logalot.Domain.Errors.{is_ok}
use logalot.RefreshTokens.{Rows, has_id}
use logalot.Auth.{refresh_finish, Fresh, Pending, successor}
use logalot.Ports.{Ports}
use logalot.Base.{
  refl, true, false, inl, inr, [], Text, ℕ, List, ◌++◌, ◌≡◌, ◌∷◌, count_where, ◌+◌, arith, ◌≤◌,
  text_eq_refl, Bool-cases,
}
use logalot.RefreshTokens.History.{
  StoreOp, rotate_op, wins, rotations, run, apply, rotations_at_most_one,
}

-- A rotation that gives a successor is a win of its token.
wins_of_ok :
    (p : Ports) (ttl : ℕ) (fresh : Fresh) (pending : Pending) (rows : Rows)
    → is_ok (refresh_finish p ttl fresh pending rows).0 ≡ true
    → wins pending.row.id
        (rotate_op pending.who.tenant_id pending.row.id fresh.now
          (successor p ttl pending fresh)
          fresh.new_id)
        rows
      ≡ 1
wins_of_ok p ttl fresh pending rows h =
    let (made, e) = finish_ok_rotated p ttl fresh pending rows _ refl h in
    ground (arith, text_eq_refl pending.row.id, e)

-- The table after a rotation that succeeded is the one that the transaction left.
finish_ok_rows :
    (p : Ports) (ttl : ℕ) (fresh : Fresh) (pending : Pending) (rows : Rows)
    → is_ok (refresh_finish p ttl fresh pending rows).0 ≡ true
    → (refresh_finish p ttl fresh pending rows).1
      ≡ apply
          (rotate_op pending.who.tenant_id pending.row.id fresh.now
            (successor p ttl pending fresh)
            fresh.new_id)
          rows
unfolding refresh_finish apply
finish_ok_rows p ttl fresh pending rows h =
    let (made, e) = finish_ok_rotated p ttl fresh pending rows _ refl h in ground (arith, e)

rotations-append_win :
    (id : Text) (ops : List StoreOp) (rows : Rows) (op : StoreOp)
    → rotations id (ops ++ op ∷ []) rows ≡ rotations id ops rows + wins id op (run ops rows)
unfolding run
rotations-append_win id [] rows op = omega arith
rotations-append_win id (o ∷ ops) rows op =
    omega (arith, rotations-append_win id ops (apply o rows) op)

two_wins :
    (id : Text) (first : StoreOp) (ops : List StoreOp) (second : StoreOp) (rows rows' : Rows)
    → rows' ≡ apply first rows
    → rotations id (first ∷ ops ++ second ∷ []) rows
      ≡ wins id first rows + rotations id (ops ++ second ∷ []) rows'
two_wins id first ops second rows rows' e = rw e

-- Of two requests that have both passed the tests of `refresh` on one token, at most one rotates it:
-- once the one has succeeded, the other fails, whatever other transactions on the table commit
-- between the two.
pub race_one_winner :
    (p : Ports) (ttl : ℕ) (fresh other : Fresh) (pending : Pending) (rows : Rows)
    (ops : List StoreOp)
    → count_where (has_id pending.row.id) rows ≤ 1
    → is_ok (refresh_finish p ttl fresh pending rows).0 ≡ true
    → is_ok
        (refresh_finish p ttl other pending (run ops (refresh_finish p ttl fresh pending rows).1)).0
      ≡ false
race_one_winner p ttl fresh other pending rows ops one h =
    let t = pending.who.tenant_id in
    let id = pending.row.id in
    let first = rotate_op t id fresh.now (successor p ttl pending fresh) fresh.new_id in
    let second = rotate_op t id other.now (successor p ttl pending other) other.new_id in
    let rows' = (refresh_finish p ttl fresh pending rows).1 in
    let e = finish_ok_rows p ttl fresh pending rows h in
    elim (Bool-cases (is_ok (refresh_finish p ttl other pending (run ops rows')).0)) [
      | inl won ↦ absurd (
          omega (
            arith,
            wins_of_ok p ttl fresh pending rows h,
            wins_of_ok p ttl other pending (run ops rows') won,
            rotations-append_win id ops rows' second,
            two_wins id first ops second rows rows' e,
            rotations_at_most_one id (first ∷ ops ++ second ∷ []) rows one,
          ))
      | inr lost ↦ lost
    ]
