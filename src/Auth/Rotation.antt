-- ===== src/Auth/Rotation.antt =====
-- What a refresh does with an acceptable token, and with any other.
use logalot.Domain.Credentials.{assemble_refresh_token, ParsedRefreshToken, parse_refresh_token}
use logalot.Auth.Refresh.{
  IsAcceptable, refresh_prepare_accepts, refresh_prepare-IsAcceptable, safe_parse_ok,
}
use logalot.Auth.{
  refresh, refresh_finish, invalid_refresh_token, Pending, Fresh, session, successor,
  refresh_prepare, safe_parse, check_row, check_user,
}
use logalot.Ports.{Ports, Directory}
use logalot.Base.{
  refl, Text, ◌≡◌, ℕ, some, arith, count_where, true, text_eq_iff, find_where_sound, update_where,
  ◌===◌, ◌&&◌, ◌++◌, ◌∷◌, [], count-update_same, count_where-found, ◌↔◌, inl, inr, Option, none,
  false, ◌⊎◌, Bool,
}
use logalot.Domain.Errors.{Error, ok, Result, is_ok, err, Result-cases, malformed_id}
use logalot.RefreshTokens.{
  create, find_by_id, rotate, Rows, NewRefreshToken, RefreshTokenRow, is_live, has_id, consumable,
  set_rotated, new_row, look_up,
}

rotate_accepts :
    (t id : Text) (now : ℕ) (s : NewRefreshToken) (new_id : Text) (rows : Rows)
    (row : RefreshTokenRow)
    → find_by_id t id rows ≡ some row
    → is_live row ≡ true
    → count_where (has_id new_id) rows ≡ 0
    → rotate t id now s new_id rows ≡ (
      ok (some new_id),
      update_where (consumable t id) (set_rotated now) rows ++ new_row t s new_id ∷ [],
    )
unfolding rotate create find_by_id
rotate_accepts t id now s new_id rows row e l f = ground (
  arith,
  count-update_same (has_id new_id) (consumable t id) (set_rotated now) rows (λ r g. refl),
  count_where-found (λ r. (r.tenant_id === t) && has_id id r) (consumable t id) rows row e
      (ground (arith, find_where_sound (λ r. (r.tenant_id === t) && has_id id r) rows row e)),
)

pub find_by_id-row :
    (t id : Text) (rows : Rows) (row : RefreshTokenRow)
    → find_by_id t id rows ≡ some row
    → (row.tenant_id ≡ t) × (row.id ≡ id)
unfolding find_by_id
find_by_id-row t id rows row e = ground (
  arith,
  text_eq_iff row.tenant_id t,
  text_eq_iff row.id id,
  find_where_sound (λ r. (r.tenant_id === t) && has_id id r) rows row e,
)

-- The presented row, found by the ids that the pending rotation carries.
pub found_pending :
    (p : Ports) (dir : Directory) (raw : Text) (now : ℕ) (rows : Rows) (pending : Pending)
    → IsAcceptable p dir raw now rows pending
    → find_by_id pending.who.tenant_id pending.row.id rows ≡ some pending.row
found_pending p dir raw now rows pending h =
    let (_, same_id) =
      find_by_id-row h.parsed.tenant_id h.parsed.token_id rows pending.row h.presents.found in
    cc (h.presents.found, same_id, h.tenant)

-- An acceptable token is exchanged: the presented row is marked as rotated, a row for its successor
-- is appended with the same family and user, and the answer carries the successor's plaintext and an
-- access token for the user's current role. This wants the id that the database makes to be new.
pub refresh_accepts :
    (p : Ports) (ttl : ℕ) (dir : Directory) (raw : Text) (fresh : Fresh) (rows : Rows)
    (pending : Pending)
    → IsAcceptable p dir raw fresh.now rows pending
    → count_where (has_id fresh.new_id) rows ≡ 0
    → refresh p ttl dir raw fresh rows ≡ (
      ok (
          session p pending.who
            (assemble_refresh_token pending.who.tenant_id fresh.new_id fresh.secret)),
      update_where (consumable pending.who.tenant_id pending.row.id) (set_rotated fresh.now) rows
          ++ new_row pending.who.tenant_id (successor p ttl pending fresh) fresh.new_id ∷ [],
    )
unfolding refresh refresh_finish
refresh_accepts p ttl dir raw fresh rows pending h new = ground (
  arith,
  refresh_prepare_accepts p dir raw fresh.now rows pending h,
  rotate_accepts pending.who.tenant_id pending.row.id fresh.now (successor p ttl pending fresh)
      fresh.new_id rows pending.row (found_pending p dir raw fresh.now rows pending h) h.live new,
)

rotate_ok_new :
    (t id : Text) (now : ℕ) (s : NewRefreshToken) (new_id : Text) (rows : Rows) (made : Text)
    → (rotate t id now s new_id rows).0 ≡ ok (some made)
    → count_where (has_id new_id) rows ≡ 0
unfolding rotate create
rotate_ok_new t id now s new_id rows made e = ground (
  arith,
  count-update_same (has_id new_id) (consumable t id) (set_rotated now) rows (λ r g. refl),
)

pub finish_ok_rotated :
    (p : Ports) (ttl : ℕ) (fresh : Fresh) (pending : Pending) (rows : Rows)
    (o : Result (Option Text))
    → (rotate pending.who.tenant_id pending.row.id fresh.now
        (successor p ttl pending fresh)
        fresh.new_id
        rows).0
      ≡ o
    → is_ok (refresh_finish p ttl fresh pending rows).0 ≡ true
    → (made : Text) × (o ≡ ok (some made))
unfolding refresh_finish
finish_ok_rotated p ttl fresh pending rows (ok (some made)) e h = (made, refl)
finish_ok_rotated p ttl fresh pending rows (ok none) e h = absurd (ground arith)
finish_ok_rotated p ttl fresh pending rows (err x) e h = absurd (ground arith)

finish_ok_new :
    (p : Ports) (ttl : ℕ) (fresh : Fresh) (pending : Pending) (rows : Rows)
    → is_ok (refresh_finish p ttl fresh pending rows).0 ≡ true
    → count_where (has_id fresh.new_id) rows ≡ 0
finish_ok_new p ttl fresh pending rows h =
    let (made, e) = finish_ok_rotated p ttl fresh pending rows _ refl h in
    rotate_ok_new pending.who.tenant_id pending.row.id fresh.now (successor p ttl pending fresh)
      fresh.new_id rows made e

-- `refresh` of a token that `refresh_prepare` has passed or rejected.
pub refresh_prepared :
    (p : Ports) (ttl : ℕ) (dir : Directory) (raw : Text) (fresh : Fresh) (rows : Rows)
    (pending : Pending)
    → refresh_prepare p dir raw fresh.now rows ≡ (ok pending, rows)
    → refresh p ttl dir raw fresh rows ≡ refresh_finish p ttl fresh pending rows
unfolding refresh
refresh_prepared p ttl dir raw fresh rows pending e = ground arith

pub refresh_rejected :
    (p : Ports) (ttl : ℕ) (dir : Directory) (raw : Text) (fresh : Fresh) (rows : Rows) (e : Error)
    → (refresh_prepare p dir raw fresh.now rows).0 ≡ err e
    → refresh p ttl dir raw fresh rows ≡ (err e, (refresh_prepare p dir raw fresh.now rows).1)
unfolding refresh
refresh_rejected p ttl dir raw fresh rows e h = ground arith

-- A refresh succeeds exactly when the token is acceptable (it parses, is found under its tenant, its
-- secret has the stored digest, it is neither rotated nor revoked nor expired, and its tenant and
-- user are active, the user with a role) and the id for its successor is new.
pub refresh_ok_iff :
    (p : Ports) (ttl : ℕ) (dir : Directory) (raw : Text) (fresh : Fresh) (rows : Rows)
    → (is_ok (refresh p ttl dir raw fresh rows).0 ≡ true) ↔ (
        ((pending : Pending) × IsAcceptable p dir raw fresh.now rows pending)
        × (count_where (has_id fresh.new_id) rows ≡ 0))
refresh_ok_iff p ttl dir raw fresh rows = (
  λ h. elim (Result-cases (refresh_prepare p dir raw fresh.now rows).0) [
    | inl (pending, e) ↦
        let acceptable = refresh_prepare-IsAcceptable p dir raw fresh.now rows pending e in
        let prepared = refresh_prepare_accepts p dir raw fresh.now rows pending acceptable in
        (
          (pending, acceptable),
          finish_ok_new p ttl fresh pending rows
              (cc (refresh_prepared p ttl dir raw fresh rows pending prepared)),
        )
    | inr (x, e) ↦ absurd (ground (arith, refresh_rejected p ttl dir raw fresh rows x e))
  ],
  λ h.
      let ((pending, acceptable), new) = h in
      ground (arith, refresh_accepts p ttl dir raw fresh rows pending acceptable new),
)

-- The token parses, but to ids that the database does not read as uuids.
abbrev pub NamesNoUuid : Ports → Text → Type 0
NamesNoUuid p raw =
    (parsed : ParsedRefreshToken) × (parse_refresh_token raw ≡ ok parsed)
    × ((p.is_uuid parsed.tenant_id && p.is_uuid parsed.token_id) ≡ false)

look_up_err :
    (is_uuid : Text → Bool) (t id : Text) (rows : Rows) (e : Error)
    → look_up is_uuid t id rows ≡ err e
    → (e ≡ malformed_id) × ((is_uuid t && is_uuid id) ≡ false)
unfolding look_up
look_up_err is_uuid t id rows e h = (ground arith, ground arith)

prepare_parsed_err :
    (p : Ports) (dir : Directory) (raw : Text) (now : ℕ) (rows : Rows) (e : Error)
    (parsed : ParsedRefreshToken)
    → safe_parse raw ≡ ok parsed
    → (refresh_prepare p dir raw now rows).0 ≡ err e
    → (e ≡ invalid_refresh_token) ⊎ ((e ≡ malformed_id) × NamesNoUuid p raw)
unfolding refresh_prepare check_row check_user
prepare_parsed_err p dir raw now rows e parsed f h =
    elim (Result-cases (look_up p.is_uuid parsed.tenant_id parsed.token_id rows)) [
      | inl (found, g) ↦ inl (ground (arith, f, g))
      | inr (x, g) ↦
          let (same, no_uuid) = look_up_err p.is_uuid parsed.tenant_id parsed.token_id rows x g in
          inr (ground (arith, f, g, same), (parsed, safe_parse_ok raw parsed f, no_uuid))
    ]

pub refresh_prepare_err :
    (p : Ports) (dir : Directory) (raw : Text) (now : ℕ) (rows : Rows) (e : Error)
    → (refresh_prepare p dir raw now rows).0 ≡ err e
    → (e ≡ invalid_refresh_token) ⊎ ((e ≡ malformed_id) × NamesNoUuid p raw)
unfolding refresh_prepare safe_parse
refresh_prepare_err p dir raw now rows e h = elim (Result-cases (safe_parse raw)) [
  | inl (parsed, f) ↦ prepare_parsed_err p dir raw now rows e parsed f h
  | inr (x, f) ↦ inl (ground (arith, f))
]
