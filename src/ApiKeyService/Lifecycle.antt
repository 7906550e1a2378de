-- ===== src/ApiKeyService/Lifecycle.antt =====
-- services/control-plane/src/app/api-key-service.ts: an API key is issued, found in the table, and
-- revoked. Whether it has expired is the ingest side's test, and not a condition of these statements.
use logalot.Domain.Credentials.Laws.{IsField, parse_api_key_iff}
use logalot.Domain.Credentials.{KeyMaterial, mint_api_key, assemble_plaintext, parse_api_key}
use logalot.Tenants.{Tenants, Tenant}
use logalot.Ports.{TenantContext, Ports}
use logalot.Authorize.{assert_can}
use logalot.Tenants
use logalot.ApiKeys
use logalot.Base.{
  [], refl, some, true, false, Text, count_where, ◌≢◌, ◌≡◌, ℕ, is_empty, ◌∷◌, update_where, ◌≤◌,
  arith, ◌++◌, count-update_drop, count_where_mono, find_where, ◌&&◌, text_eq_refl,
  find_where-append_new, count_where-append, update_where_none, ap, ◌∙◌,
}
use logalot.Domain.Errors.{text, ok, err, not_found}
use logalot.Domain.Rbac.{Operation, can}
use logalot.Domain.Roles.{Role, platform_operator, tenant_admin, member}
use logalot.ApiKeys.{is_unrevoked, set_revoked, NewApiKey, ApiKeys, has_key, new_key, ApiKeyRow}
use logalot.ApiKeyService.{
  issue, revoke, known_tenant, IssueApiKeyCommand, IssuedApiKey, new_api_key,
}

nonempty : (s : Text) → s ≢ [] → is_empty s ≡ false
nonempty [] h = absurd (h refl)
nonempty (c ∷ s) h = refl

issuer_may_revoke :
    (role : Role)
    → can role Operation.apikey_create ≡ true
    → can role Operation.apikey_revoke ≡ true
unfolding can
issuer_may_revoke platform_operator h = absurd (cc)
issuer_may_revoke tenant_admin h = refl
issuer_may_revoke member h = absurd (cc)

-- What the success of an issue shows.
issue_ok :
    (p : Ports) (ctx : TenantContext) (cmd : IssueApiKeyCommand) (tenants : Tenants)
    (material : KeyMaterial) (created_at : ℕ) (rows : ApiKeys) (tenant : Tenant)
    (issued : IssuedApiKey)
    → Tenants.find_by_id ctx.tenant_id tenants ≡ some tenant
    → (issue p ctx cmd tenants material created_at rows).0 ≡ ok issued
    → let minted = mint_api_key p.sha256 tenant.public_id material in
      (can ctx.role Operation.apikey_create ≡ true)
      × (count_where (has_key minted.key_id) rows ≡ 0)
      × (issued.plaintext ≡ minted.plaintext)
      × ((issue p ctx cmd tenants material created_at rows).1
          ≡ rows ++ new_key ctx.tenant_id (new_api_key ctx cmd minted) created_at ∷ [])
unfolding issue assert_can known_tenant ApiKeys.create
issue_ok p ctx cmd tenants material created_at rows tenant issued found h =
    (ground (arith, found), ground (arith, found), ground (arith, found), ground (arith, found))

revoked_none_left :
    (t id : Text) (now : ℕ) (rows : ApiKeys)
    → count_where (is_unrevoked t id) (update_where (is_unrevoked t id) (set_revoked now) rows) ≡ 0
revoked_none_left t id now rows = omega (
  arith,
  count-update_drop (is_unrevoked t id) (is_unrevoked t id) (set_revoked now) rows
      (λ r e. ground arith),
  count_where_mono (is_unrevoked t id) (λ r. is_unrevoked t id r && is_unrevoked t id r) rows
      (λ r e. ground arith),
)

revoke_unrevoked :
    (ctx : TenantContext) (id : Text) (now : ℕ) (rows : ApiKeys)
    → can ctx.role Operation.apikey_revoke ≡ true
    → is_empty id ≡ false
    → 1 ≤ count_where (is_unrevoked ctx.tenant_id id) rows
    → revoke ctx id now rows
      ≡ (ok tt, update_where (is_unrevoked ctx.tenant_id id) (set_revoked now) rows)
unfolding revoke assert_can ApiKeys.revoke
revoke_unrevoked ctx id now rows may some_id unrevoked = ground arith

revoke_gone :
    (ctx : TenantContext) (id : Text) (now : ℕ) (rows : ApiKeys)
    → can ctx.role Operation.apikey_revoke ≡ true
    → is_empty id ≡ false
    → count_where (is_unrevoked ctx.tenant_id id) rows ≡ 0
    → revoke ctx id now rows ≡ (err (not_found (text "api key not found")), rows)
unfolding revoke assert_can ApiKeys.revoke
revoke_gone ctx id now rows may some_id gone =
    ground (arith, update_where_none (is_unrevoked ctx.tenant_id id) (set_revoked now) rows gone)

-- The row of a new key is the one unrevoked row with its id.
new_key-unrevoked :
    (t : Text) (input : NewApiKey) (created_at : ℕ) (rows : ApiKeys)
    → count_where (has_key input.key_id) rows ≡ 0
    → let after = rows ++ new_key t input created_at ∷ [] in
      (find_where (is_unrevoked t input.key_id) after ≡ some (new_key t input created_at))
      × (count_where (is_unrevoked t input.key_id) after ≡ 1)
unfolding count_where
new_key-unrevoked t input created_at rows none_yet =
    let unrevoked = is_unrevoked t input.key_id in
    let le = count_where_mono unrevoked (has_key input.key_id) rows (λ r e. ground arith) in
    let self = text_eq_refl t in
    let same = text_eq_refl input.key_id in
    (
      find_where-append_new unrevoked rows (new_key t input created_at)
          (omega (arith, le, none_yet)) (ground (arith, self, same)),
      ground (
        arith,
        le,
        none_yet,
        self,
        same,
        count_where-append unrevoked rows (new_key t input created_at ∷ []),
      ),
    )

-- A revocation of an unrevoked key, and a second one.
revoke_twice :
    (ctx : TenantContext) (id : Text) (now later : ℕ) (rows : ApiKeys)
    → can ctx.role Operation.apikey_revoke ≡ true
    → is_empty id ≡ false
    → 1 ≤ count_where (is_unrevoked ctx.tenant_id id) rows
    → let end = revoke ctx id now rows in
      (end.0 ≡ ok tt)
      × (count_where (is_unrevoked ctx.tenant_id id) end.1 ≡ 0)
      × (revoke ctx id later end.1 ≡ (err (not_found (text "api key not found")), end.1))
revoke_twice ctx id now later rows may some_id unrevoked =
    let gone = revoked_none_left ctx.tenant_id id now rows in
    rw (revoke_unrevoked ctx id now rows may some_id unrevoked)
      (refl, gone, revoke_gone ctx id later _ may some_id gone)

-- An issued key is found unrevoked, and is revoked once; whether it has expired plays no part. Its
-- plaintext parses to the tenant's slug, the key id and the secret; the table finds one unrevoked row
-- for the key id, with the digest of that secret and the expiry that the command names; the issuer can
-- revoke it, after which no unrevoked row with that id is left, and a second revocation is a 404 that
-- changes nothing. The slug and the key id are not empty and hold no '_', and the secret is not
-- empty.
pub issue_then_revoke :
    (p : Ports) (ctx : TenantContext) (cmd : IssueApiKeyCommand) (tenants : Tenants)
    (material : KeyMaterial) (created_at now later : ℕ) (rows : ApiKeys) (tenant : Tenant)
    (issued : IssuedApiKey)
    → Tenants.find_by_id ctx.tenant_id tenants ≡ some tenant
    → IsField tenant.public_id
    → IsField material.key_id
    → material.secret ≢ []
    → (issue p ctx cmd tenants material created_at rows).0 ≡ ok issued
    → let unrevoked = is_unrevoked ctx.tenant_id material.key_id in
      let after = (issue p ctx cmd tenants material created_at rows).1 in
      let end = revoke ctx material.key_id now after in
      (parse_api_key issued.plaintext
        ≡ ok (record {
          public_id = tenant.public_id;
          key_id = material.key_id;
          secret = material.secret;
        }))
      × ((row : ApiKeyRow) × (find_where unrevoked after ≡ some row)
          × (row.key_hash ≡ p.sha256 material.secret)
          × (row.expires_at ≡ cmd.expires_at)
          × (count_where unrevoked after ≡ 1))
      × ((end.0 ≡ ok tt)
          × (count_where unrevoked end.1 ≡ 0)
          × (revoke ctx material.key_id later end.1
              ≡ (err (not_found (text "api key not found")), end.1)))
unfolding mint_api_key assemble_plaintext
issue_then_revoke p ctx cmd tenants material created_at now later rows tenant issued found slug key
      secret h =
    let minted = mint_api_key p.sha256 tenant.public_id material in
    let input = new_api_key ctx cmd minted in
    let (may, none_yet, plaintext, after) =
      issue_ok p ctx cmd tenants material created_at rows tenant issued found h in
    let (unrevoked, one) = new_key-unrevoked ctx.tenant_id input created_at rows none_yet in
    let some_id : is_empty material.key_id ≡ false = nonempty material.key_id key.0 in
    (
      ap parse_api_key plaintext
          ∙ (parse_api_key_iff minted.plaintext (record {
            public_id = tenant.public_id;
            key_id = material.key_id;
            secret = material.secret;
          })).1
              (refl, slug, key, secret),
      (new_key ctx.tenant_id input created_at, rw after unrevoked, refl, refl, rw after one),
      rw after (
          revoke_twice ctx material.key_id now later
            (rows ++ new_key ctx.tenant_id input created_at ∷ []) (issuer_may_revoke ctx.role may)
            some_id (omega (arith, one))),
    )
