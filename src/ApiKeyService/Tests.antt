-- ===== src/ApiKeyService/Tests.antt =====
-- A tenant whose admin issues one key.
use logalot.Domain.Split.{join}
use logalot.ApiKeyService.Lifecycle.{issue_then_revoke}
use logalot.Domain.Rbac.{can}
use logalot.Authorize.{assert_can}
use logalot.Domain.Credentials.Laws.{IsField}
use logalot.Domain.Credentials.{KeyMaterial, parse_api_key, mint_api_key, assemble_plaintext}
use logalot.Ports.{Ports, TenantContext}
use logalot.Tenants
use logalot.Base.{
  [], none, some, true, refl, codes, find_where, ◌≢◌, take, ◌∷◌, ◌===◌, arith, Bool, ◌≡◌,
  count_where,
}
use logalot.Domain.Errors.{text, ok, err, Result, not_found}
use logalot.Domain.Roles.{Role}
use logalot.Tenants.{Tenant, TenantStatus, Tenants}
use logalot.ApiKeys
use logalot.ApiKeys.{is_unrevoked, ApiKeyRow, ApiKeys, to_record}
use logalot.ApiKeyService.{
  issue, revoke, IssueApiKeyCommand, IssuedApiKey, default_scopes, known_tenant,
}

abbrev ports : Ports
ports = record {
  sha256 = take 32;
  hash = λ s. s;
  verify = λ s h. s === h;
  issue_access = λ claims. record { token = claims.principal_id; expires_in_seconds = 900 };
  nfc = λ s. s;
  lower = λ s. s;
  is_uuid = λ s. true;
}

abbrev ctx : TenantContext
ctx = record { tenant_id = codes "t1"; principal_id = codes "u1"; role = Role.tenant_admin }

abbrev command : IssueApiKeyCommand
command = record { name = codes "ci"; scopes = none; expires_at = none }

abbrev tenant : Tenant
tenant = record {
  id = codes "t1";
  public_id = codes "acme";
  name = codes "Acme";
  status = TenantStatus.active;
  created_at = 0;
}

abbrev tenants : Tenants
tenants = tenant ∷ []

abbrev material : KeyMaterial
material = record { key_id = codes "id"; secret = codes "0123456789abcdef0123456789abcdef" }

abbrev issued : IssuedApiKey
issued = record {
  plaintext = codes "lgk_acme_id_0123456789abcdef0123456789abcdef";
  issued = record {
    id = codes "id";
    tenant_id = codes "t1";
    name = codes "ci";
    scopes = default_scopes;
    created_by = some (codes "u1");
    created_at = 5;
    expires_at = none;
    revoked_at = none;
    last_used_at = none;
  };
}

found : Tenants.find_by_id (codes "t1") tenants ≡ some tenant
unfolding Tenants.find_by_id find_where ◌===◌
found = refl

acme-IsField : IsField (codes "acme")
acme-IsField = (
  λ e. cc e,
  (
    λ e. omega (arith, e),
    (λ e. omega (arith, e), (λ e. omega (arith, e), (λ e. omega (arith, e), tt))),
  ),
)

id-IsField : IsField (codes "id")
id-IsField = (λ e. cc e, (λ e. omega (arith, e), (λ e. omega (arith, e), tt)))

secret_nonempty : material.secret ≢ []
secret_nonempty = λ e. cc e

succeeds : (issue ports ctx command tenants material 5 []).0 ≡ ok issued
unfolding issue assert_can can known_tenant Tenants.find_by_id find_where ◌===◌ ApiKeys.create
    count_where to_record mint_api_key assemble_plaintext join
succeeds = refl

abbrev unrevoked : ApiKeyRow → Bool
unrevoked = is_unrevoked (codes "t1") (codes "id")

abbrev after : ApiKeys
after = (issue ports ctx command tenants material 5 []).1

abbrev end : Result (Unit {0}) × ApiKeys
end = revoke ctx (codes "id") 7 after

issue_then_revoke_example :
    (parse_api_key issued.plaintext
      ≡ ok (record { public_id = codes "acme"; key_id = codes "id"; secret = material.secret }))
    × ((row : ApiKeyRow) × (find_where unrevoked after ≡ some row)
        × (row.key_hash ≡ take 32 material.secret)
        × (row.expires_at ≡ none)
        × (count_where unrevoked after ≡ 1))
    × ((end.0 ≡ ok tt)
        × (count_where unrevoked end.1 ≡ 0)
        × (revoke ctx (codes "id") 8 end.1 ≡ (err (not_found (text "api key not found")), end.1)))
issue_then_revoke_example =
    issue_then_revoke ports ctx command tenants material 5 7 8 [] tenant issued found acme-IsField
      id-IsField secret_nonempty succeeds
