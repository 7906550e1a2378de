-- ===== src/Auth/Logout.antt =====
-- Logout ends a session, and says nothing of the token that it was given.
use logalot.Domain.Errors.{ok}
use logalot.RefreshTokens.Family.{live_in, live_in-revoke_family, revoked_never_rotates}
use logalot.Auth.Refresh.{Presents, constant_time_equal_iff}
use logalot.Domain.Credentials.{ParsedRefreshToken}
use logalot.Base.{Text, ℕ, List, ◌≡◌, count_where, arith, ◌≤◌, refl}
use logalot.Ports.{Ports}
use logalot.Auth.{logout}
use logalot.RefreshTokens.{Rows, RefreshTokenRow, revoke_family, has_id, look_up}
use logalot.RefreshTokens.History.{StoreOp, rotations}

logout_presented :
    (p : Ports) (raw : Text) (now : ℕ) (rows : Rows) (parsed : ParsedRefreshToken)
    (row : RefreshTokenRow)
    → Presents p raw rows parsed row
    → logout p raw now rows ≡ (ok tt, revoke_family parsed.tenant_id row.family_id now rows)
unfolding logout look_up
logout_presented p raw now rows parsed row h = ground (
  arith,
  h.parses,
  h.found,
  h.digest,
  constant_time_equal_iff (p.sha256 parsed.secret) row.token_hash,
)

-- A logout with a token that stands for a row succeeds and leaves no live token in its family, and no
-- later history of the table rotates the presented token.
pub logout_ends_session :
    (p : Ports) (raw : Text) (now : ℕ) (rows : Rows) (parsed : ParsedRefreshToken)
    (row : RefreshTokenRow) (ops : List StoreOp)
    → Presents p raw rows parsed row
    → count_where (has_id parsed.token_id) rows ≤ 1
    → ((logout p raw now rows).0 ≡ ok tt)
      × (live_in parsed.tenant_id row.family_id (logout p raw now rows).1 ≡ 0)
      × (rotations parsed.token_id ops (logout p raw now rows).1 ≡ 0)
logout_ends_session p raw now rows parsed row ops h one =
    rw (logout_presented p raw now rows parsed row h) (
      refl,
      live_in-revoke_family parsed.tenant_id row.family_id now rows,
      revoked_never_rotates parsed.tenant_id parsed.token_id now rows row ops one h.found,
    )
