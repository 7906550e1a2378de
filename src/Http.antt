-- ===== src/Http.antt =====
-- services/control-plane/src/adapters/http: auth-plugin.ts, rbac-guard.ts, validation.ts, the error
-- handler of server.ts, and jose-token-service.ts (adapters/crypto), whose `jwtVerify` is a parameter.
pub mod World
pub mod Cascade
pub mod Handlers
pub mod Routes
pub mod Denied
pub mod Isolation
pub mod Session
pub mod Google
mod Tests
use logalot.Base.{
  none, some, [], ◌∷◌, true, false, if◌then◌else◌, Text, List, ℕ, Option, Bool, String, ◌&&◌, ◌||◌,
  not, ◌==◌, ◌===◌, codes, is_empty, drop, length,
}
use logalot.Domain.Errors.{
  ok, err, Result, Error, Message, text, validation, unauthorized, forbidden, not_found, conflict,
  service_unavailable, pg_error, malformed_id, plain, role_may_not, status,
}
use logalot.Domain.Roles.{Role}
use logalot.Domain.Rbac.{Operation, can}
use logalot.Domain.Split.{starts_with}
use logalot.Ports.{TenantContext, SessionClaims}

-- The payload of a token that `jwtVerify` accepts: `none` where a claim is not a string.
pub record JwtPayload : Type 0 where
  pub tenant_id : Option Text
  pub sub : Option Text
  pub role : Option Text

-- `isRole`
abbrev pub role_of : Text → Option Role
role_of s =
    if s === codes "platform_operator"
    then some Role.platform_operator
    else if s === codes "tenant_admin"
    then some Role.tenant_admin
    else if s === codes "member"
    then some Role.member
    else none

-- What an exception of a token service comes to: `authenticate` catches it.
abbrev pub malformed_claims : Error
malformed_claims = plain (text "malformed token claims")

abbrev pub claims_of : Option Text → Option Text → Option Text → Result SessionClaims
claims_of (some tenant_id) (some principal_id) (some role) = elim (role_of role) [
  | none ↦ err malformed_claims
  | some r ↦ ok (record { tenant_id = tenant_id; principal_id = principal_id; role = r })
]
claims_of (some tenant_id) (some principal_id) none = err malformed_claims
claims_of (some tenant_id) none role = err malformed_claims
claims_of none principal_id role = err malformed_claims

unfoldable pub verify_access : (Text → Result JwtPayload) → Text → Result SessionClaims
verify_access jwt_verify token = elim (jwt_verify token) [
  | err e ↦ err e
  | ok payload ↦ claims_of payload.tenant_id payload.sub payload.role
]

-- `.` of a pattern matches no line terminator.
abbrev pub is_line_terminator : ℕ → Bool
is_line_terminator c = c == 10 || c == 13 || c == 0x2028 || c == 0x2029

unfoldable pub is_one_line : Text → Bool
is_one_line [] = true
is_one_line (c ∷ s) = not (is_line_terminator c) && is_one_line s

-- /^Bearer (.+)$/
unfoldable pub bearer : Text → Option Text
unfolding starts_with is_one_line
bearer header =
    let token = drop (length (codes "Bearer ")) header in
    if starts_with header (codes "Bearer ") && not (is_empty token) && is_one_line token
    then some token
    else none

abbrev pub bearer_of : Option Text → Option Text
bearer_of none = none
bearer_of (some header) = bearer header

abbrev pub context_of : SessionClaims → TenantContext
context_of claims = record {
  tenant_id = claims.tenant_id;
  principal_id = claims.principal_id;
  role = claims.role;
}

-- Whatever the token service throws is the same 401.
abbrev pub verified : Result SessionClaims → Result TenantContext
verified (ok claims) = ok (context_of claims)
verified (err e) = err (unauthorized (text "invalid or expired token"))

unfoldable pub authenticate : (Text → Result JwtPayload) → Option Text → Result TenantContext
authenticate jwt_verify authorization = elim (bearer_of authorization) [
  | none ↦ err (unauthorized (text "missing bearer token"))
  | some token ↦ verified (verify_access jwt_verify token)
]

-- The guard at the edge.
unfoldable pub require_operation : Operation → TenantContext → Result (Unit {0})
require_operation operation ctx =
    if not (can ctx.role operation)
    then err (forbidden (role_may_not ctx.role operation))
    else ok tt

-- What a schema of the contracts makes of its input: `none` where it does not fit.
abbrev pub parse {ℓ} : {A : Type ℓ} → Option A → Result A
parse none = err (validation (text "request validation failed"))
parse (some a) = ok a

-- The answer to an error: its status, its code, and its message, if that may be shown.
pub record Failure : Type 0 where
  pub code : ℕ
  pub error : String
  pub message : Message

unfoldable pub error_handler : Error → Failure
unfolding status
error_handler (validation m) = record {
  code = status (validation m);
  error = "validation_error";
  message = m;
}
error_handler (unauthorized m) = record {
  code = status (unauthorized m);
  error = "unauthorized";
  message = m;
}
error_handler (forbidden m) = record {
  code = status (forbidden m);
  error = "forbidden";
  message = m;
}
error_handler (not_found m) = record {
  code = status (not_found m);
  error = "not_found";
  message = m;
}
error_handler (conflict m) = record { code = status (conflict m); error = "conflict"; message = m }
error_handler (service_unavailable m) = record {
  code = status (service_unavailable m);
  error = "service_unavailable";
  message = m;
}
error_handler (pg_error code) = record {
  code = 500;
  error = "internal_error";
  message = text "internal server error";
}
error_handler malformed_id = record {
  code = 500;
  error = "internal_error";
  message = text "internal server error";
}
error_handler (plain m) = record {
  code = 500;
  error = "internal_error";
  message = text "internal server error";
}
