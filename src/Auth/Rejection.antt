-- ===== src/Auth/Rejection.antt =====
-- How `refresh` fails: with one message, and with the family of a reused token revoked.
use logalot.RefreshTokens.Family.{live_in, live_in-revoke_family}
use logalot.Auth.Refresh.{
  Presents, refresh_prepare_accepts, refresh_prepare-IsAcceptable, constant_time_equal_iff,
}
use logalot.Auth.Rotation.{refresh_rejected, refresh_prepare_err, refresh_prepared, NamesNoUuid}
use logalot.Domain.Credentials.{ParsedRefreshToken}
use logalot.Base.{◌≡◌, Text, ℕ, ◌⊎◌, arith, Option, inl, false, inr, refl, none, some}
use logalot.Ports.{Ports, Directory}
use logalot.Auth.{
  refresh_finish, refresh, refresh_prepare, invalid_refresh_token, Fresh, safe_parse, Pending,
  check_row, successor,
}
use logalot.Domain.Errors.{Error, pg_error, err, Result, Result-cases, ok, malformed_id}
use logalot.RefreshTokens.{
  create, rotate, NewRefreshToken, Rows, RefreshTokenRow, is_live, revoke_family, look_up,
}

-- A failure of `refresh`: the one message of a bad token, an error of the database on a taken id, or
-- its error on a token whose ids are no uuids.
abbrev pub IsRejection : Ports → Text → Error → Type 0
IsRejection p raw e =
    (e ≡ invalid_refresh_token) ⊎ ((e ≡ pg_error 23505) ⊎ ((e ≡ malformed_id) × NamesNoUuid p raw))

rotate_err :
    (t id : Text) (now : ℕ) (s : NewRefreshToken) (new_id : Text) (rows : Rows) (e : Error)
    → (rotate t id now s new_id rows).0 ≡ err e
    → e ≡ pg_error 23505
unfolding rotate create
rotate_err t id now s new_id rows e h = ground arith

finish_err_of :
    (p : Ports) (ttl : ℕ) (fresh : Fresh) (pending : Pending) (rows : Rows) (e : Error)
    (o : Result (Option Text))
    → (rotate pending.who.tenant_id pending.row.id fresh.now
        (successor p ttl pending fresh)
        fresh.new_id
        rows).0
      ≡ o
    → (refresh_finish p ttl fresh pending rows).0 ≡ err e
    → (e ≡ invalid_refresh_token) ⊎ (e ≡ pg_error 23505)
unfolding refresh_finish
finish_err_of p ttl fresh pending rows e (ok (some made)) f h = absurd (ground arith)
finish_err_of p ttl fresh pending rows e (ok none) f h = inl (ground arith)
finish_err_of p ttl fresh pending rows e (err x) f h = inr (
    ground (
      arith,
      rotate_err pending.who.tenant_id pending.row.id fresh.now (successor p ttl pending fresh)
          fresh.new_id rows x f,
    ))

prepare_err_of :
    (p : Ports) (ttl : ℕ) (dir : Directory) (raw : Text) (fresh : Fresh) (rows : Rows) (e : Error)
    → (refresh p ttl dir raw fresh rows).0 ≡ err e
    → ((x : Error) × (refresh_prepare p dir raw fresh.now rows).0 ≡ err x)
    → IsRejection p raw e
prepare_err_of p ttl dir raw fresh rows e h (x, f) =
    let rejected = refresh_rejected p ttl dir raw fresh rows x f in
    elim (refresh_prepare_err p dir raw fresh.now rows x f) [
      | inl bad ↦ inl (cc (h, rejected, bad))
      | inr (malformed, no_uuid) ↦ inr (inr (cc (h, rejected, malformed), no_uuid))
    ]

widen :
    (p : Ports) (raw : Text) (e : Error)
    → (e ≡ invalid_refresh_token) ⊎ (e ≡ pg_error 23505)
    → IsRejection p raw e
widen p raw e (inl h) = inl h
widen p raw e (inr h) = inr (inl h)

-- Whatever is wrong with a token, its refresh fails with one and the same 401, but for two failures
-- of the database: the id that it makes is taken, or the token parses to a tenant id or a token id
-- that is no uuid.
pub refresh_fails_uniformly :
    (p : Ports) (ttl : ℕ) (dir : Directory) (raw : Text) (fresh : Fresh) (rows : Rows) (e : Error)
    → (refresh p ttl dir raw fresh rows).0 ≡ err e
    → IsRejection p raw e
refresh_fails_uniformly p ttl dir raw fresh rows e h =
    elim (Result-cases (refresh_prepare p dir raw fresh.now rows).0) [
      | inl (pending, f) ↦ widen p raw e (
          finish_err_of p ttl fresh pending rows e _ refl (
            cc (
              h,
              refresh_prepared p ttl dir raw fresh rows pending (
                  refresh_prepare_accepts p dir raw fresh.now rows pending
                    (refresh_prepare-IsAcceptable p dir raw fresh.now rows pending f)),
            )))
      | inr f ↦ prepare_err_of p ttl dir raw fresh rows e h f
    ]

reuse :
    (p : Ports) (ttl : ℕ) (dir : Directory) (raw : Text) (fresh : Fresh) (rows : Rows)
    (parsed : ParsedRefreshToken) (row : RefreshTokenRow)
    → Presents p raw rows parsed row
    → is_live row ≡ false
    → refresh p ttl dir raw fresh rows
      ≡ (err invalid_refresh_token, revoke_family parsed.tenant_id row.family_id fresh.now rows)
unfolding refresh refresh_prepare safe_parse check_row look_up
reuse p ttl dir raw fresh rows parsed row h dead = ground (
  arith,
  h.parses,
  h.found,
  constant_time_equal_iff (p.sha256 parsed.secret) row.token_hash,
  h.digest,
)

-- A token whose row is found with the digest of its secret, but is rotated or revoked already, is
-- reuse: the refresh is rejected, and its whole family is revoked, the live successor included.
pub refresh_reuse_revokes :
    (p : Ports) (ttl : ℕ) (dir : Directory) (raw : Text) (fresh : Fresh) (rows : Rows)
    (parsed : ParsedRefreshToken) (row : RefreshTokenRow)
    → Presents p raw rows parsed row
    → is_live row ≡ false
    → ((refresh p ttl dir raw fresh rows).0 ≡ err invalid_refresh_token)
      × (live_in parsed.tenant_id row.family_id (refresh p ttl dir raw fresh rows).1 ≡ 0)
refresh_reuse_revokes p ttl dir raw fresh rows parsed row h dead =
    let e = reuse p ttl dir raw fresh rows parsed row h dead in
    (cc e, rw e (live_in-revoke_family parsed.tenant_id row.family_id fresh.now rows))
