-- ===== src/ApiKeyService.antt =====
-- services/control-plane/src/app/api-key-service.ts: an admin issues, lists and revokes API keys.
pub mod Lifecycle
mod Tests
use logalot.Authorize.{assert_can}
use logalot.Domain.Credentials.{MintedApiKey, KeyMaterial, mint_api_key}
use logalot.Tenants.{Tenant, Tenants}
use logalot.ApiKeys.{ApiKeyRecord, ApiKeys, NewApiKey}
use logalot.Ports.{TenantContext, Ports}
use logalot.Tenants
use logalot.ApiKeys
use logalot.Base.{none, some, true, false, [], Text, List, Option, Bool, ℕ, codes, ◌∷◌, is_empty}
use logalot.Domain.Errors.{ok, err, Result, not_found, text, validation}
use logalot.Domain.Rbac.{Operation}
use logalot.Domain.Action.{◌>>=◌, ◌>>◌, Action, lift, pure, throw_when}

pub record IssueApiKeyCommand : Type 0 where
  pub name : Text
  pub scopes : Option (List Text)
  pub expires_at : Option ℕ

pub record IssuedApiKey : Type 0 where
  pub plaintext : Text
  pub issued : ApiKeyRecord

abbrev pub default_scopes : List Text
default_scopes = codes "ingest:write" ∷ []

-- A missing list and an empty one give the default.
abbrev pub scopes_of : Option (List Text) → List Text
scopes_of none = default_scopes
scopes_of (some []) = default_scopes
scopes_of (some (s ∷ ss)) = s ∷ ss

unfoldable pub known_tenant : Option Tenant → Result Tenant
known_tenant none = err (not_found (text "tenant not found"))
known_tenant (some tenant) = ok tenant

abbrev pub new_api_key : TenantContext → IssueApiKeyCommand → MintedApiKey → NewApiKey
new_api_key ctx cmd minted = record {
  key_id = minted.key_id;
  name = cmd.name;
  key_hash = minted.key_hash;
  scopes = scopes_of cmd.scopes;
  created_by = some ctx.principal_id;
  expires_at = cmd.expires_at;
}

unfoldable pub issue :
    Ports
    → TenantContext
    → IssueApiKeyCommand
    → Tenants
    → KeyMaterial
    → ℕ
    → Action ApiKeys IssuedApiKey
issue p ctx cmd tenants material created_at = do
  lift (assert_can ctx Operation.apikey_create)
  tenant ← lift (known_tenant (Tenants.find_by_id ctx.tenant_id tenants))
  let minted = mint_api_key p.sha256 tenant.public_id material
  issued ← ApiKeys.create ctx.tenant_id (new_api_key ctx cmd minted) created_at
  pure (record { plaintext = minted.plaintext; issued = issued })

unfoldable pub list : TenantContext → Action ApiKeys (List ApiKeyRecord)
list ctx rows =
    (lift (assert_can ctx Operation.apikey_list) >> pure (ApiKeys.list ctx.tenant_id rows)) rows

abbrev pub after_revoke_key : Bool × ApiKeys → Result (Unit {0}) × ApiKeys
after_revoke_key (true, rows) = (ok tt, rows)
after_revoke_key (false, rows) = (err (not_found (text "api key not found")), rows)

abbrev pub revoke_key : TenantContext → Text → ℕ → Action ApiKeys (Unit {0})
revoke_key ctx key_id now rows = after_revoke_key (ApiKeys.revoke ctx.tenant_id key_id now rows)

unfoldable pub revoke : TenantContext → Text → ℕ → Action ApiKeys (Unit {0})
revoke ctx key_id now = do
  lift (assert_can ctx Operation.apikey_revoke)
  throw_when (is_empty key_id) (validation (text "key id is required"))
  revoke_key ctx key_id now
