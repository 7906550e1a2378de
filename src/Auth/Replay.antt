-- ===== src/Auth/Replay.antt =====
-- A token that has been exchanged is of no use: neither later nor in a race.
use logalot.Auth.Rotation.{refresh_accepts, find_by_id-row}
use logalot.Auth.Rejection.{refresh_reuse_revokes}
use logalot.RefreshTokens.Family.{live_in}
use logalot.Auth.Refresh.{IsAcceptable, Presents}
use logalot.Auth.{Fresh, Pending, refresh, invalid_refresh_token, successor}
use logalot.Ports.{Ports, Directory}
use logalot.Domain.Errors.{err}
use logalot.Base.{
  refl, ℕ, Text, count_where, ◌≡◌, some, true, [], update_where, ◌∷◌, ◌++◌, find_where-append_old,
  ◌===◌, ◌&&◌, arith, find_where-update, text_eq_refl,
}
use logalot.RefreshTokens.{
  find_by_id, Rows, has_id, set_rotated, RefreshTokenRow, is_live, new_row, consumable,
}

find_by_id-exchange :
    (t id : Text) (now : ℕ) (rows ys : Rows) (row : RefreshTokenRow)
    → find_by_id t id rows ≡ some row
    → is_live row ≡ true
    → find_by_id t id (update_where (consumable t row.id) (set_rotated now) rows ++ ys)
      ≡ some (set_rotated now row)
unfolding find_by_id
find_by_id-exchange t id now rows ys row e l =
    find_where-append_old (λ r. (r.tenant_id === t) && has_id id r)
      (update_where (consumable t row.id) (set_rotated now) rows) ys (set_rotated now row)
      (ground (
        arith,
        find_where-update (λ r. (r.tenant_id === t) && has_id id r) (consumable t row.id)
            (set_rotated now) rows row (λ x. refl) e,
        find_by_id-row t id rows row e,
        text_eq_refl row.id,
        text_eq_refl row.tenant_id,
      ))

-- After a refresh the presented row is found, marked as rotated.
exchanged_row :
    (p : Ports) (ttl : ℕ) (dir : Directory) (raw : Text) (fresh : Fresh) (rows : Rows)
    (pending : Pending) (h : IsAcceptable p dir raw fresh.now rows pending)
    → count_where (has_id fresh.new_id) rows ≡ 0
    → Presents p raw
        (refresh p ttl dir raw fresh rows).1
        h.parsed
        (set_rotated fresh.now pending.row)
exchanged_row p ttl dir raw fresh rows pending h new = record {
  parses = h.presents.parses;
  found = rw (refresh_accepts p ttl dir raw fresh rows pending h new) (
      rw h.tenant (
        find_by_id-exchange h.parsed.tenant_id h.parsed.token_id fresh.now rows
          (new_row h.parsed.tenant_id (successor p ttl pending fresh) fresh.new_id ∷ []) pending.row
          h.presents.found h.live));
  digest = h.presents.digest;
}

-- A token that has been exchanged and is presented again is rejected, whatever the registry and the
-- users are by then, and no token of its family is live afterwards, its successor included.
pub replay_revokes_family :
    (p : Ports) (ttl : ℕ) (dir later : Directory) (raw : Text) (fresh again : Fresh) (rows : Rows)
    (pending : Pending)
    → IsAcceptable p dir raw fresh.now rows pending
    → count_where (has_id fresh.new_id) rows ≡ 0
    → let rows' = (refresh p ttl dir raw fresh rows).1 in
      ((refresh p ttl later raw again rows').0 ≡ err invalid_refresh_token)
      × (live_in pending.who.tenant_id pending.row.family_id (refresh p ttl later raw again rows').1
          ≡ 0)
replay_revokes_family p ttl dir later raw fresh again rows pending h new = rw h.tenant (
    refresh_reuse_revokes p ttl later raw again (refresh p ttl dir raw fresh rows).1 h.parsed
      (set_rotated fresh.now pending.row) (exchanged_row p ttl dir raw fresh rows pending h new)
      refl)
