-- ===== src/Core.antt =====
-- toad/internal/core: the product state of the roles, the controller that owns it, the recovery
-- decision and the recovery transaction.
pub mod Model
pub mod Controller
pub mod Observe
pub mod Events
pub mod Aggregate
pub mod Reconciler
pub mod Recovery
pub mod Engine
pub mod RoleExecutor
