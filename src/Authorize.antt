-- ===== src/Authorize.antt =====
-- services/control-plane/src/app/authorize.ts: the check of a command's role against the matrix.
use logalot.Domain.Rbac.{Operation, can}
use logalot.Ports.{TenantContext}
use logalot.Domain.Errors.{ok, err, Result, forbidden, role_may_not}
use logalot.Base.{if◌then◌else◌, not}

unfoldable pub assert_can : TenantContext → Operation → Result (Unit {0})
assert_can ctx operation =
    if not (can ctx.role operation)
    then err (forbidden (role_may_not ctx.role operation))
    else ok tt
