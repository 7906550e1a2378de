-- ===== src/Domain/Tests.antt =====
-- The two matrices at a role and an operation.
use logalot.Domain.Rbac.Ui.{ui_can, UiOperation}
use logalot.Domain.Roles.{Role}
use logalot.Domain.Rbac.Laws.{ui_can-eq-can}
use logalot.Domain.Rbac.{can, Operation}
use logalot.Base.{◌≡◌}

ui_can-eq-can_example :
    ui_can Role.member UiOperation.user_create ≡ can Role.member Operation.user_create
ui_can-eq-can_example = ui_can-eq-can Role.member UiOperation.user_create
