-- ===== src/Oidc/Tests.antt =====
-- One flow of one user, and the theorems of the login with Google at it.
use logalot.Oidc.Session.{IsGenuine, callback_ok-IsGenuine}
use logalot.Domain.Email.{normalize_email, trim, trim_start, trim_end, is_space}
use logalot.OAuthIdentities.{link_first, find_by_provider_sub}
use logalot.Domain.Credentials.{assemble_refresh_token}
use logalot.Auth.{mint_refresh_token, session}
use logalot.Oidc.SingleUse.{callback_single_use}
use logalot.Oidc.Identity.{resolve_identity}
use logalot.Oidc.Steps.{take_state}
use logalot.ReturnTo.{sanitize_return_to}
use logalot.ReturnTo.Laws.{IsLocal, sanitize_return_to-IsLocal}
use logalot.Oidc.Callback.{
  handle_callback, use_record, exchange_code, verify_token, admit, admit_user, load_account,
  open_session,
}
use logalot.Users.{
  UserRow, MembershipRow, active_status, find_credentials_by_email, find_credentials_by_id,
  to_auth_record, membership_role,
}
use logalot.OAuthState.{OAuthStateRecord, StateStore, is_for}
use logalot.Oidc.{
  GoogleIdTokenClaims, Google, OidcConfig, OidcState, OidcCallbackCommand, FreshCallback,
  OidcCallbackResult, invalid_state, noted, OAuthAuditOutcome,
}
use logalot.Ports.{Ports}
use logalot.RefreshTokens
use logalot.OAuthState
use logalot.Base.{
  [], none, some, true, false, refl, ◌===◌, codes, ◌∷◌, ◌≡◌, delete_where, count_where, find_where,
}
use logalot.Domain.Errors.{ok, err}
use logalot.Domain.Roles.{Role, MembershipRole}

abbrev ports : Ports
ports = record {
  sha256 = λ s. s;
  hash = λ s. s;
  verify = λ s h. s === h;
  issue_access = λ claims. record { token = claims.principal_id; expires_in_seconds = 900 };
  nfc = λ s. s;
  lower = λ s. s;
  is_uuid = λ s. true;
}

abbrev claims : GoogleIdTokenClaims
claims = record { sub = codes "sub"; email = codes "a@b" }

abbrev google : Google
google = record {
  exchange = λ code uri verifier. ok code;
  verify = λ id_token nonce. ok claims;
  challenge = λ s. s;
  hash_sub = λ s. s;
  encode_query = λ q. [];
}

abbrev config : OidcConfig
config = record {
  client_id = codes "client";
  redirect_uri = codes "https://x/cb";
  auth_endpoint = codes "https://g";
  state_ttl_seconds = 600;
  refresh_ttl_seconds = 3600;
  has_provisioner = true;
}

abbrev value : OAuthStateRecord
value = record {
  state = codes "s";
  tenant_id = codes "t1";
  meta = record {
    provider = some (codes "google");
    code_verifier = some (codes "v");
    nonce = some (codes "n");
    return_to = some (codes "/logs");
  };
  created_at = 0;
}

abbrev store : StateStore
store = record { value = value; expires_at = 600000 } ∷ []

abbrev user : UserRow
user = record {
  id = codes "u1";
  tenant_id = codes "t1";
  email = codes "a@b";
  password_hash = codes "pw";
  display_name = none;
  status = active_status;
  is_platform_operator = false;
  created_at = 0;
}

abbrev membership : MembershipRow
membership = record { tenant_id = codes "t1"; user_id = codes "u1"; role = MembershipRole.member }

abbrev state : OidcState
state = record {
  states = store;
  tables = record {
    invites = [];
    users = record { users = user ∷ []; memberships = membership ∷ [] };
    identities = [];
  };
  tokens = [];
  audit = [];
}

abbrev command : OidcCallbackCommand
command = record { code = codes "code"; state = codes "s"; invite_token_hash = none }

abbrev fresh : FreshCallback
fresh = record {
  session = record { family_id = codes "f"; secret = codes "z"; new_id = codes "k"; now = 1000 };
  made = record { user_id = codes "u9"; identity_id = codes "g1"; created_at = 1 };
  touched = true;
}

abbrev result : OidcCallbackResult
result = record {
  tokens =
      session ports (record { tenant_id = codes "t1"; user_id = codes "u1"; role = Role.member })
        (assemble_refresh_token (codes "t1") (codes "k") (codes "z"));
  return_to = codes "/logs";
}

succeeds : (handle_callback ports google config command fresh state).0 ≡ ok result
unfolding handle_callback use_record exchange_code verify_token admit admit_user take_state
    resolve_identity load_account open_session mint_refresh_token RefreshTokens.create
    OAuthState.consume find_where delete_where count_where ◌===◌ link_first find_by_provider_sub
    find_credentials_by_email find_credentials_by_id to_auth_record membership_role normalize_email
    trim trim_start trim_end is_space
succeeds = refl

callback_ok-IsGenuine_example :
    IsGenuine google config command 1000 state
      (handle_callback ports google config command fresh state).1
      result.tokens
callback_ok-IsGenuine_example =
    callback_ok-IsGenuine ports google config command fresh state result succeeds

callback_single_use_example :
    let after = (handle_callback ports google config command fresh state).1 in
    (after.states ≡ delete_where (is_for (codes "s")) store)
    × (handle_callback ports google config command fresh after ≡ (
      err invalid_state,
      noted none none none OAuthAuditOutcome.reject_invalid_state 1000 after,
    ))
callback_single_use_example =
    callback_single_use ports google config command command fresh fresh state refl

sanitize_return_to-IsLocal_example : IsLocal (sanitize_return_to (some (codes "//evil.example")))
sanitize_return_to-IsLocal_example = sanitize_return_to-IsLocal (some (codes "//evil.example"))
