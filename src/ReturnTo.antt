-- ===== src/ReturnTo.antt =====
-- services/control-plane/src/app/oidc-authenticator.ts: `sanitizeReturnTo`, which keeps the redirect
-- after a login inside the site.
pub mod Laws
use logalot.Domain.Email.{trim}
use logalot.Base.{
  none, some, true, false, [], if◌then◌else◌, Text, Option, codes, Bool, is_empty, ◌∷◌, length, not,
  ◌==◌, leb, ◌&&◌, ◌||◌, ltb,
}

abbrev pub default_return_to : Text
default_return_to = codes "/"

-- /^\/(?![/\\])/
unfoldable pub starts_inside : Text → Bool
starts_inside [] = false
starts_inside (c ∷ []) = c == b'/'
starts_inside (c ∷ d ∷ v) = (c == b'/') && not ((d == b'/') || (d == b'\\'))

-- The loop over the code units: no C0 control character and no DEL.
unfoldable pub no_control : Text → Bool
no_control [] = true
no_control (c ∷ v) = let rest = no_control v in if leb c 0x1f || (c == 0x7f) then false else rest

unfoldable pub is_valid_return_to : Text → Bool
is_valid_return_to v =
    if (length v == 0) || ltb 2000 (length v)
    then false
    else if not (starts_inside v)
    then false
    else no_control v

-- `if (!value)` holds of a missing and of an empty value.
unfoldable pub sanitize_return_to : Option Text → Text
sanitize_return_to none = default_return_to
sanitize_return_to (some value) =
    if is_empty value
    then default_return_to
    else if not (is_valid_return_to (trim value))
    then default_return_to
    else trim value
