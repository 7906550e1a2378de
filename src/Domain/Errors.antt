-- ===== src/Domain/Errors.antt =====
-- services/control-plane/src/domain/errors.ts: the error taxonomy, and results of code that throws.
use logalot.Base.{◌≡◌, refl, ◌⊎◌, inl, inr, ℕ, Bool, true, false, String, Text}
use logalot.Domain.Roles.{Role}
use logalot.Domain.Rbac.{Operation}

-- The message of an error: a literal, or the template that the source fills in.
pub data Message : Type 0 where
  text : String → Message
  role_may_not : Role → Operation → Message
  cap_reached : ℕ → Message
  secret_length : ℕ → ℕ → Message
  naming : String → Text → String → Message

-- The classes that extend DomainError; `pg_error` is an error of the driver with its SQLSTATE,
-- `malformed_id` the driver's error on a text that is no uuid, and `plain` any other error.
pub data Error : Type 0 where
  validation unauthorized forbidden not_found conflict service_unavailable : Message → Error
  pg_error : ℕ → Error
  malformed_id : Error
  plain : Message → Error

-- The status that the transport answers with; what is no DomainError is a 500.
unfoldable pub status : Error → ℕ
status (validation _) = 400
status (unauthorized _) = 401
status (forbidden _) = 403
status (not_found _) = 404
status (conflict _) = 409
status (service_unavailable _) = 503
status (pg_error _) = 500
status malformed_id = 500
status (plain _) = 500

pub data Result {ℓ} (A : Type ℓ) : Type ℓ where
  ok : A → Result A
  err : Error → Result A

-- `err instanceof ConflictError`
abbrev pub is_conflict : Error → Bool
is_conflict (conflict _) = true
is_conflict _ = false

abbrev pub is_ok {ℓ} : {A : Type ℓ} → Result A → Bool
is_ok (ok _) = true
is_ok (err _) = false

pub Result-cases {ℓ} :
    {A : Type ℓ} (r : Result A) → ((a : A) × (r ≡ ok a)) ⊎ ((e : Error) × (r ≡ err e))
Result-cases (ok a) = inl (a, refl)
Result-cases (err e) = inr (e, refl)
