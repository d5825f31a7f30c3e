-- ===== src/Site.antt =====
-- internal/controller/newtsite.
pub mod Container
pub mod Deployment
pub mod Env
pub mod Create
pub mod Leftover
pub mod Discovery
pub mod Scan
pub mod Run
pub mod Resolve
pub mod Reconcile
pub mod Branches
pub mod Ready
pub mod Outcomes
pub mod Cleanup
pub mod First
pub mod Garbage
pub mod Hardening
pub mod Local
pub mod Machine
pub mod Secrets
pub mod Follows
pub mod PodEnv
pub mod Tests
