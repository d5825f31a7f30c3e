-- ===== src/Private.antt =====
-- internal/controller/privateresource/controller.go.
pub mod Env
pub mod Resource
pub mod Reconcile
pub mod Requests
pub mod Find
pub mod Cleanup
pub mod Pushed
pub mod Ready
pub mod Tests
