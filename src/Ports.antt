-- ===== src/Ports.antt =====
-- services/control-plane/src/app/ports.ts and domain/tenant-context.ts: what the services exchange
-- with the code around them. The cryptography, the token service, the Unicode mappings, and the
-- database's test of what it can read as a uuid are not the program's: they are the fields of `Ports`,
-- functions on the values that they are called with.
use logalot.Base.{ℕ, Bool, Text, Bytes}
use logalot.Domain.Roles.{Role}
use logalot.Tenants.{Tenants}
use logalot.Users.{Users}

pub record TenantContext : Type 0 where
  pub tenant_id : Text
  pub principal_id : Text
  pub role : Role

pub record SessionClaims : Type 0 where
  pub tenant_id : Text
  pub principal_id : Text
  pub role : Role

pub record AccessToken : Type 0 where
  pub token : Text
  pub expires_in_seconds : ℕ

-- `tokenType` is the literal 'Bearer' and is left out.
pub record SessionTokens : Type 0 where
  pub access_token : Text
  pub refresh_token : Text
  pub expires_in : ℕ
  pub role : Role
  pub tenant_id : Text
  pub user_id : Text

pub record Ports : Type 0 where
  pub sha256 : Text → Bytes
  pub hash : Text → Text
  pub verify : Text → Text → Bool
  pub issue_access : SessionClaims → AccessToken
  pub nfc : Text → Text
  pub lower : Text → Text
  pub is_uuid : Text → Bool

-- The registry and the users that a session is established against.
pub record Directory : Type 0 where
  pub tenants : Tenants
  pub users : Users
