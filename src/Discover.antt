-- ===== src/Discover.antt =====
-- internal/autodiscover/autodiscover.go: PublicResources from annotated routes and services.
pub mod Objects
pub mod Annotations
pub mod Rules
pub mod Auth
pub mod Targets
pub mod Names
pub mod Specs
pub mod Services
pub mod Ensure
pub mod Tests
