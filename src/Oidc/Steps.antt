-- ===== src/Oidc/Steps.antt =====
-- services/control-plane/src/app/oidc-authenticator.ts: steps 1 to 3 of `handleCallback`.
use logalot.Domain.Action.{Action, pure}
use logalot.OAuthState
use logalot.OAuthState.{OAuthStateRecord}
use logalot.Oidc.{OAuthAuditOutcome, OidcState, reject, invalid_state}
use logalot.Base.{
  none, some, true, false, if◌then◌else◌, ℕ, Text, Option, is_empty, Bool, or_else, codes,
}
use logalot.Domain.Errors.{ok, err, Error, Message, Result, unauthorized, text}

abbrev pub take_record : ℕ → Option OAuthStateRecord → Action OidcState OAuthStateRecord
take_record now none st =
    reject none none none OAuthAuditOutcome.reject_invalid_state now invalid_state st
take_record now (some v) st = (ok v, st)

-- Step 1: the record of the state, which is gone from the store whatever follows.
unfoldable pub take_state : Text → ℕ → Action OidcState OAuthStateRecord
take_state state now st =
    let taken = OAuthState.consume state now st.states in
    take_record now taken.0 (record st { states = taken.1 })

pub record Flow : Type 0 where
  pub tenant_id : Text
  pub code_verifier : Text
  pub nonce : Text
  pub return_to : Text

-- A missing text and an empty one are false.
abbrev pub present : Option Text → Option Text
present none = none
present (some t) = if is_empty t then none else some t

abbrev pub flow_of : ℕ → OAuthStateRecord → Option Text → Option Text → Action OidcState Flow
flow_of now v (some code_verifier) (some nonce) = pure (record {
  tenant_id = v.tenant_id;
  code_verifier = code_verifier;
  nonce = nonce;
  return_to = or_else v.meta.return_to (codes "/");
})
flow_of now v _ _ =
    reject (some v.tenant_id) none none OAuthAuditOutcome.reject_invalid_state now
      (unauthorized (text "malformed OAuth state record"))

abbrev pub is_unavailable : Error → Bool
is_unavailable (Error.service_unavailable _) = true
is_unavailable _ = false

-- Steps 2 and 3: an answer of Google's, where an outage is passed on and any other error is a 401.
abbrev pub answered :
    {A : Type 0} → Flow → OAuthAuditOutcome → ℕ → Message → Result A → Action OidcState A
answered flow outcome now m (ok a) = pure a
answered flow outcome now m (err e) =
    reject (some flow.tenant_id) none none outcome now
      (if is_unavailable e then e else unauthorized m)
