-- ===== src/Auth/Histories.antt =====
-- Histories of logins, refreshes and logouts.
use logalot.Auth.Login.{login_writes, login_token, login_unchecked}
use logalot.Domain.Errors.{Result-cases}
use logalot.Auth.Sessions.{live_in-refresh, live_in-logout}
use logalot.RefreshTokens.Family.{live_in, OneLive, live_in-create}
use logalot.RefreshTokens.{Rows}
use logalot.Ports.{Ports, Directory}
use logalot.Auth.{LoginCommand, Fresh, login, refresh, logout, login_check}
use logalot.Base.{
  inl, inr, [], ℕ, Text, List, ◌∷◌, ◌≡◌, ◌≤◌, arith, ◌+◌, text_eq_iff, if◌then◌else◌, ◌===◌,
}

pub data SessionOp : Type 0 where
  login_op : LoginCommand → Directory → Fresh → SessionOp
  refresh_op : Directory → Text → Fresh → SessionOp
  logout_op : Text → ℕ → SessionOp

-- Each call sees the registry and the users of its own time.
unfoldable pub apply : Ports → ℕ → SessionOp → Rows → Rows
apply p ttl (login_op cmd dir fresh) rows = (login p ttl cmd dir fresh rows).1
apply p ttl (refresh_op dir raw fresh) rows = (refresh p ttl dir raw fresh rows).1
apply p ttl (logout_op raw now) rows = (logout p raw now rows).1

unfoldable pub run : Ports → ℕ → List SessionOp → Rows → Rows
unfolding apply
run p ttl [] rows = rows
run p ttl (op ∷ ops) rows = run p ttl ops (apply p ttl op rows)

-- The family id that a login draws names no live token yet.
abbrev pub DrawsNew : SessionOp → Rows → Type 0
DrawsNew (login_op cmd dir fresh) rows = (t : Text) → live_in t fresh.family_id rows ≡ 0
DrawsNew (refresh_op _ _ _) rows = Unit
DrawsNew (logout_op _ _) rows = Unit

abbrev pub AllDrawNew : Ports → ℕ → List SessionOp → Rows → Type 0
AllDrawNew p ttl [] rows = Unit
AllDrawNew p ttl (op ∷ ops) rows = DrawsNew op rows × AllDrawNew p ttl ops (apply p ttl op rows)

login_live :
    (p : Ports) (ttl : ℕ) (cmd : LoginCommand) (dir : Directory) (fresh : Fresh) (rows : Rows)
    (u family : Text)
    → live_in u family (login p ttl cmd dir fresh rows).1
      ≤ live_in u family rows + (if fresh.family_id === family then 1 else 0)
login_live p ttl cmd dir fresh rows u family = elim (Result-cases (login_check p cmd dir)) [
  | inl (who, e) ↦ rw (login_writes p ttl cmd dir fresh rows who e) (
      ground (
        arith,
        live_in-create who.tenant_id u family (login_token p ttl who fresh) fresh.new_id rows,
      ))
  | inr (x, e) ↦ rw (login_unchecked p ttl cmd dir fresh rows x e) (omega arith)
]

step-OneLive :
    (p : Ports) (ttl : ℕ) (op : SessionOp) (rows : Rows)
    → DrawsNew op rows
    → OneLive rows
    → OneLive (apply p ttl op rows)
unfolding apply
step-OneLive p ttl (login_op cmd dir fresh) rows new h = record {
  at = λ t family. ground (
    arith,
    login_live p ttl cmd dir fresh rows t family,
    text_eq_iff fresh.family_id family,
    h.at t family,
    new t,
  );
}
step-OneLive p ttl (refresh_op dir raw fresh) rows new h = record {
  at = λ t family. omega (arith, live_in-refresh p ttl dir raw fresh rows t family, h.at t family);
}
step-OneLive p ttl (logout_op raw now) rows new h = record {
  at = λ t family. omega (arith, live_in-logout p raw now rows t family, h.at t family);
}

-- Through any history of logins, refreshes and logouts, in which each login draws a family id that
-- names no live token, no family of any tenant has two live refresh tokens.
pub run-OneLive :
    (p : Ports) (ttl : ℕ) (ops : List SessionOp) (rows : Rows)
    → AllDrawNew p ttl ops rows
    → OneLive rows
    → OneLive (run p ttl ops rows)
unfolding run
run-OneLive p ttl [] rows new h = h
run-OneLive p ttl (op ∷ ops) rows new h =
    run-OneLive p ttl ops (apply p ttl op rows) new.1 (step-OneLive p ttl op rows new.0 h)
