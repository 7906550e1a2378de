-- ===== src/Http/Google.antt =====
-- services/control-plane/src/adapters/http/routes.ts: the two routes of the Google login, up to the
-- answer. The hash of an invite token is taken here, so that the services never see its secret.
use logalot.Domain.Split.{split_n, split_loop, index_of, starts_with}
use logalot.Base.{
  none, some, [], ◌∷◌, Text, Bytes, Option, ◌≡◌, ◌≢◌, ◌↔◌, inl, inr, arith, refl, ◌∙◌, ap,
}
use logalot.Http.{parse}
use logalot.Ports.{Ports}
use logalot.Oidc.{
  Google, OidcConfig, OidcAuthorizeCommand, OidcCallbackResult, OidcState, FreshFlow,
  begin_authorize,
}
use logalot.Oidc.Callback.{handle_callback}
use logalot.Oidc.{FreshCallback}
use logalot.Tenants.{Tenants}
use logalot.Domain.Credentials.{
  ParsedInviteToken, parse_invite_token, assemble_invite_token, check_invite_token,
}
use logalot.Domain.Credentials.Laws.{IsField, parse_invite_token_iff}
use logalot.Domain.Action.{Action, lift, ◌>>=◌}
use logalot.Domain.Errors.{ok, err, Result, Result-cases, Error}

pub record OidcCallbackBody : Type 0 where
  pub code : Text
  pub state : Text
  pub invite_token : Option Text

abbrev pub hash_parsed : (Text → Bytes) → Result ParsedInviteToken → Option Bytes
hash_parsed sha256 (ok parsed) = some (sha256 parsed.secret)
hash_parsed sha256 (err e) = none

-- A malformed token is as good as none, and so is an empty one.
unfoldable pub route_token_hash : (Text → Bytes) → Option Text → Option Bytes
route_token_hash sha256 none = none
route_token_hash sha256 (some []) = none
route_token_hash sha256 (some (c ∷ cs)) = hash_parsed sha256 (parse_invite_token (c ∷ cs))

unfoldable pub post_authorize :
    Google → OidcConfig → Option OidcAuthorizeCommand → Tenants → FreshFlow → Action OidcState Text
post_authorize g config body tenants fresh = do
  cmd ← lift (parse body)
  begin_authorize g config cmd tenants fresh

unfoldable pub post_callback :
    Ports
    → Google
    → OidcConfig
    → Option OidcCallbackBody
    → FreshCallback
    → Action OidcState OidcCallbackResult
post_callback p g config body fresh = do
  b ← lift (parse body)
  handle_callback p g config
      (record {
        code = b.code;
        state = b.state;
        invite_token_hash = route_token_hash p.sha256 b.invite_token;
      })
      fresh

empty_fails : (t : ParsedInviteToken) → parse_invite_token [] ≢ ok t
unfolding parse_invite_token check_invite_token split_n split_loop index_of starts_with
empty_fails t = λ e. cc e

hash-parsed :
    (sha256 : Text → Bytes) (raw : Text) (t : ParsedInviteToken)
    → parse_invite_token raw ≡ ok t
    → route_token_hash sha256 (some raw) ≡ some (sha256 t.secret)
unfolding route_token_hash
hash-parsed sha256 [] t e = absurd (empty_fails t e)
hash-parsed sha256 (c ∷ cs) t e = λ i. hash_parsed sha256 (e i)

hash-refused :
    (sha256 : Text → Bytes) (raw : Text) (x : Error)
    → parse_invite_token raw ≡ err x
    → route_token_hash sha256 (some raw) ≡ none
unfolding route_token_hash
hash-refused sha256 [] x e = refl
hash-refused sha256 (c ∷ cs) x e = λ i. hash_parsed sha256 (e i)

-- The services are handed a hash exactly if the body has the token of a link, assembled from a public
-- id and a secret, and then it is the hash of the secret.
pub route_token_hash_iff :
    (sha256 : Text → Bytes) (raw : Text) (h : Bytes)
    → (route_token_hash sha256 (some raw) ≡ some h) ↔ (
        (t : ParsedInviteToken) × (raw ≡ assemble_invite_token t.public_id t.secret)
        × IsField t.public_id
        × (t.secret ≢ [])
        × (sha256 t.secret ≡ h))
route_token_hash_iff sha256 raw h = (
  λ given. elim (Result-cases (parse_invite_token raw)) [
    | inl (t, e) ↦
        let (whole, field, filled) = (parse_invite_token_iff raw t).0 e in
        (t, whole, field, filled, ground (arith, given, hash-parsed sha256 raw t e))
    | inr (x, e) ↦ absurd (ground (arith, given, hash-refused sha256 raw x e))
  ],
  λ link.
      let (t, whole, field, filled, hashed) = link in
      hash-parsed sha256 raw t ((parse_invite_token_iff raw t).1 (whole, field, filled))
      ∙ ap some hashed,
)
