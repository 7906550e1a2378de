-- ===== src/Domain.antt =====
-- The domain layer of the control plane: services/control-plane/src/domain.
pub mod Roles
pub mod Rbac
pub mod Errors
pub mod Split
pub mod Credentials
pub mod Email
pub mod Action
mod Tests
