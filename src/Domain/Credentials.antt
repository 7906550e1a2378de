-- ===== src/Domain/Credentials.antt =====
-- The wire formats of the credentials: services/control-plane/src/domain/api-key.ts, refresh-token.ts
-- and invite.ts. SHA-256 is a parameter: a function from text to bytes.
pub mod Laws
use logalot.Base.{
  ℕ, Bool, true, false, not, ◌||◌, List, [], ◌∷◌, Text, Bytes, codes, ◌===◌, is_empty,
  if◌then◌else◌,
}
use logalot.Domain.Errors.{Result, ok, err, validation, text}
use logalot.Domain.Split.{split_n, join}

-- KEY_SEPARATOR, REFRESH_SEPARATOR and INVITE_SEPARATOR are one character, '_'.
abbrev pub underscore : ℕ
underscore = b'_'

abbrev pub separator : Text
separator = underscore ∷ []

abbrev pub key_prefix : Text
key_prefix = codes "lgk"

abbrev pub key_id_bytes : ℕ
key_id_bytes = 16

abbrev pub secret_bytes : ℕ
secret_bytes = 32

pub record KeyMaterial : Type 0 where
  pub key_id : Text
  pub secret : Text

pub record MintedApiKey : Type 0 where
  pub key_id : Text
  pub secret : Text
  pub plaintext : Text
  pub key_hash : Bytes

pub record ParsedApiKey : Type 0 where
  pub public_id : Text
  pub key_id : Text
  pub secret : Text

unfoldable pub assemble_plaintext : Text → KeyMaterial → Text
assemble_plaintext public_id material =
    join (key_prefix ∷ public_id ∷ material.key_id ∷ material.secret ∷ []) separator

unfoldable pub mint_api_key : (Text → Bytes) → Text → KeyMaterial → MintedApiKey
unfolding assemble_plaintext
mint_api_key sha256 public_id material = record {
  key_id = material.key_id;
  secret = material.secret;
  plaintext = assemble_plaintext public_id material;
  key_hash = sha256 material.secret;
}

-- The checks of parseApiKey on `parts`; any other number of parts is malformed.
unfoldable pub check_api_key : List Text → Result ParsedApiKey
check_api_key (prefix ∷ public_id ∷ key_id ∷ secret ∷ []) =
    if not (prefix === key_prefix) || is_empty public_id || is_empty key_id || is_empty secret
    then err (validation (text "malformed api key"))
    else ok (record { public_id = public_id; key_id = key_id; secret = secret })
check_api_key _ = err (validation (text "malformed api key"))

unfoldable pub parse_api_key : Text → Result ParsedApiKey
unfolding check_api_key
parse_api_key raw = check_api_key (split_n raw separator 4)

abbrev pub refresh_prefix : Text
refresh_prefix = codes "lgr"

pub record ParsedRefreshToken : Type 0 where
  pub tenant_id : Text
  pub token_id : Text
  pub secret : Text

unfoldable pub assemble_refresh_token : Text → Text → Text → Text
assemble_refresh_token tenant_id token_id secret =
    join (refresh_prefix ∷ tenant_id ∷ token_id ∷ secret ∷ []) separator

unfoldable pub check_refresh_token : List Text → Result ParsedRefreshToken
check_refresh_token (prefix ∷ tenant_id ∷ token_id ∷ secret ∷ []) =
    if not (prefix === refresh_prefix) || is_empty tenant_id || is_empty token_id || is_empty secret
    then err (validation (text "malformed refresh token"))
    else ok (record { tenant_id = tenant_id; token_id = token_id; secret = secret })
check_refresh_token _ = err (validation (text "malformed refresh token"))

unfoldable pub parse_refresh_token : Text → Result ParsedRefreshToken
unfolding check_refresh_token
parse_refresh_token raw = check_refresh_token (split_n raw separator 4)

abbrev pub invite_prefix : Text
invite_prefix = codes "lginv"

abbrev pub invite_secret_bytes : ℕ
invite_secret_bytes = 32

pub record InviteToken : Type 0 where
  pub public_id : Text
  pub secret : Text
  pub plaintext : Text

pub record ParsedInviteToken : Type 0 where
  pub public_id : Text
  pub secret : Text

unfoldable pub assemble_invite_token : Text → Text → Text
assemble_invite_token public_id secret = join (invite_prefix ∷ public_id ∷ secret ∷ []) separator

unfoldable pub mint_invite_token : Text → Text → InviteToken
unfolding assemble_invite_token
mint_invite_token public_id secret = record {
  public_id = public_id;
  secret = secret;
  plaintext = assemble_invite_token public_id secret;
}

unfoldable pub check_invite_token : List Text → Result ParsedInviteToken
check_invite_token (prefix ∷ public_id ∷ secret ∷ []) =
    if not (prefix === invite_prefix) || is_empty public_id || is_empty secret
    then err (validation (text "malformed invite token"))
    else ok (record { public_id = public_id; secret = secret })
check_invite_token _ = err (validation (text "malformed invite token"))

unfoldable pub parse_invite_token : Text → Result ParsedInviteToken
unfolding check_invite_token
parse_invite_token raw = check_invite_token (split_n raw separator 3)
