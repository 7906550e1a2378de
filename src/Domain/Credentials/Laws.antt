-- ===== src/Domain/Credentials/Laws.antt =====
-- Each parser accepts exactly what the assembler of its format makes of non-empty fields that hold
-- no separator before the secret.
use logalot.Base.{◌≡◌, refl, ap, ◌∙◌, ◌≢◌, ◌↔◌, List, [], ◌∷◌, Text, Bytes, arith, text_eq_iff}
use logalot.Domain.Errors.{ok}
use logalot.Domain.Split.{split_n, join}
use logalot.Domain.Split.Fields.{Lacks, split_three_iff, split_four_iff}
use logalot.Domain.Credentials.{
  underscore, separator, key_prefix, refresh_prefix, invite_prefix, KeyMaterial, ParsedApiKey,
  assemble_plaintext, mint_api_key, check_api_key, parse_api_key, ParsedRefreshToken,
  assemble_refresh_token, check_refresh_token, parse_refresh_token, ParsedInviteToken,
  assemble_invite_token, check_invite_token, parse_invite_token,
}

-- A field that is not the last of a credential.
abbrev pub IsField : Text → Type 0
IsField t = (t ≢ []) × Lacks underscore t

check_api_key_inv :
    (parts : List Text) (p : ParsedApiKey)
    → check_api_key parts ≡ ok p
    → (parts ≡ key_prefix ∷ p.public_id ∷ p.key_id ∷ p.secret ∷ [])
      × (p.public_id ≢ [])
      × (p.key_id ≢ [])
      × (p.secret ≢ [])
unfolding check_api_key
check_api_key_inv (x ∷ a ∷ b ∷ d ∷ []) p h = ground (arith, text_eq_iff x key_prefix)
check_api_key_inv _ p h = ground arith

check_api_key_ok :
    (p : ParsedApiKey)
    → p.public_id ≢ []
    → p.key_id ≢ []
    → p.secret ≢ []
    → check_api_key (key_prefix ∷ p.public_id ∷ p.key_id ∷ p.secret ∷ []) ≡ ok p
unfolding check_api_key
check_api_key_ok p ha hb hd = ground (arith, text_eq_iff key_prefix key_prefix)

-- parseApiKey accepts a text exactly when it is the credential that assemblePlaintext makes of
-- the parsed fields, where the slug and the key id are not empty and hold no '_', and the secret
-- is not empty.
pub parse_api_key_iff :
    (raw : Text) (p : ParsedApiKey)
    → (parse_api_key raw ≡ ok p) ↔ (
        (raw ≡ assemble_plaintext p.public_id (record { key_id = p.key_id; secret = p.secret }))
        × IsField p.public_id
        × IsField p.key_id
        × (p.secret ≢ []))
unfolding parse_api_key assemble_plaintext join
parse_api_key_iff raw p = (
  λ h.
      let (e, na, nb, nd) = check_api_key_inv (split_n raw separator 4) p h in
      let (f, _, la, lb) =
        (split_four_iff raw key_prefix p.public_id p.key_id p.secret underscore).0 e in
      (f, (na, la), (nb, lb), nd),
  λ h.
      let (f, a, b, nd) = h in
      ap check_api_key (
        (split_four_iff raw key_prefix p.public_id p.key_id p.secret underscore).1
          (f, omega arith, a.1, b.1))
      ∙ check_api_key_ok p a.0 b.0 nd,
)

check_refresh_token_inv :
    (parts : List Text) (p : ParsedRefreshToken)
    → check_refresh_token parts ≡ ok p
    → (parts ≡ refresh_prefix ∷ p.tenant_id ∷ p.token_id ∷ p.secret ∷ [])
      × (p.tenant_id ≢ [])
      × (p.token_id ≢ [])
      × (p.secret ≢ [])
unfolding check_refresh_token
check_refresh_token_inv (x ∷ a ∷ b ∷ d ∷ []) p h = ground (arith, text_eq_iff x refresh_prefix)
check_refresh_token_inv _ p h = ground arith

check_refresh_token_ok :
    (p : ParsedRefreshToken)
    → p.tenant_id ≢ []
    → p.token_id ≢ []
    → p.secret ≢ []
    → check_refresh_token (refresh_prefix ∷ p.tenant_id ∷ p.token_id ∷ p.secret ∷ []) ≡ ok p
unfolding check_refresh_token
check_refresh_token_ok p ha hb hd = ground (arith, text_eq_iff refresh_prefix refresh_prefix)

-- parseRefreshToken accepts a text exactly when it is what assembleRefreshToken makes of the parsed
-- fields, where the tenant id and the token id are not empty and hold no '_', and the secret is not
-- empty.
pub parse_refresh_token_iff :
    (raw : Text) (p : ParsedRefreshToken)
    → (parse_refresh_token raw ≡ ok p) ↔ (
        (raw ≡ assemble_refresh_token p.tenant_id p.token_id p.secret)
        × IsField p.tenant_id
        × IsField p.token_id
        × (p.secret ≢ []))
unfolding parse_refresh_token assemble_refresh_token join
parse_refresh_token_iff raw p = (
  λ h.
      let (e, na, nb, nd) = check_refresh_token_inv (split_n raw separator 4) p h in
      let (f, _, la, lb) =
        (split_four_iff raw refresh_prefix p.tenant_id p.token_id p.secret underscore).0 e in
      (f, (na, la), (nb, lb), nd),
  λ h.
      let (f, a, b, nd) = h in
      ap check_refresh_token (
        (split_four_iff raw refresh_prefix p.tenant_id p.token_id p.secret underscore).1
          (f, omega arith, a.1, b.1))
      ∙ check_refresh_token_ok p a.0 b.0 nd,
)

-- A refresh token that is assembled from fields is parsed back to them.
pub parse-assemble_refresh_token :
    (tenant_id token_id secret : Text)
    → IsField tenant_id
    → IsField token_id
    → secret ≢ []
    → parse_refresh_token (assemble_refresh_token tenant_id token_id secret)
      ≡ ok (record { tenant_id = tenant_id; token_id = token_id; secret = secret })
parse-assemble_refresh_token t i s ht hi hs =
    (parse_refresh_token_iff (assemble_refresh_token t i s)
        (record { tenant_id = t; token_id = i; secret = s })).1
      (refl, ht, hi, hs)

check_invite_token_inv :
    (parts : List Text) (p : ParsedInviteToken)
    → check_invite_token parts ≡ ok p
    → (parts ≡ invite_prefix ∷ p.public_id ∷ p.secret ∷ []) × (p.public_id ≢ []) × (p.secret ≢ [])
unfolding check_invite_token
check_invite_token_inv (x ∷ a ∷ d ∷ []) p h = ground (arith, text_eq_iff x invite_prefix)
check_invite_token_inv _ p h = ground arith

check_invite_token_ok :
    (p : ParsedInviteToken)
    → p.public_id ≢ []
    → p.secret ≢ []
    → check_invite_token (invite_prefix ∷ p.public_id ∷ p.secret ∷ []) ≡ ok p
unfolding check_invite_token
check_invite_token_ok p ha hd = ground (arith, text_eq_iff invite_prefix invite_prefix)

-- parseInviteToken accepts a text exactly when it is what assembleInviteToken makes of the parsed
-- fields, where the slug is not empty and holds no '_', and the secret is not empty.
pub parse_invite_token_iff :
    (raw : Text) (p : ParsedInviteToken)
    → (parse_invite_token raw ≡ ok p)
      ↔ ((raw ≡ assemble_invite_token p.public_id p.secret) × IsField p.public_id × (p.secret ≢ []))
unfolding parse_invite_token assemble_invite_token join
parse_invite_token_iff raw p = (
  λ h.
      let (e, na, nd) = check_invite_token_inv (split_n raw separator 3) p h in
      let (f, _, la) = (split_three_iff raw invite_prefix p.public_id p.secret underscore).0 e in
      (f, (na, la), nd),
  λ h.
      let (f, a, nd) = h in
      ap check_invite_token (
        (split_three_iff raw invite_prefix p.public_id p.secret underscore).1 (f, omega arith, a.1))
      ∙ check_invite_token_ok p a.0 nd,
)

-- The plaintext of a minted key is parsed back to its slug, its key id and its secret, and the hash
-- that is stored is the digest of that secret.
pub parse-mint_api_key :
    (sha256 : Text → Bytes) (public_id : Text) (material : KeyMaterial)
    → IsField public_id
    → IsField material.key_id
    → material.secret ≢ []
    → let minted = mint_api_key sha256 public_id material in
      (p : ParsedApiKey) × (parse_api_key minted.plaintext ≡ ok p)
      × (p.public_id ≡ public_id)
      × (p.key_id ≡ minted.key_id)
      × (minted.key_hash ≡ sha256 p.secret)
unfolding mint_api_key
parse-mint_api_key sha256 public_id m hp hk hs =
    let p : ParsedApiKey = record { public_id = public_id; key_id = m.key_id; secret = m.secret } in
    (
      p,
      (parse_api_key_iff (assemble_plaintext public_id m) p).1 (refl, hp, hk, hs),
      refl,
      refl,
      refl,
    )
