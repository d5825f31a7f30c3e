-- ===== src/Public.antt =====
-- internal/controller/publicresource/controller.go, with internal/controller/resolve/resolve.go.
pub mod Env
pub mod Requests
pub mod Batch
pub mod Create
pub mod Update
pub mod Reconcile
pub mod Find
pub mod Outcomes
pub mod Ready
pub mod Cleanup
pub mod Adoption
pub mod Order
pub mod Tests
