-- ===== src/Types.antt =====
-- The custom resources (api/v1alpha1) and the Kubernetes object metadata that the program reads.
-- A pointer or an absent optional is `Option`; a nil and an empty slice are both the empty list.
pub mod Meta
pub mod Public
pub mod Private
pub mod Pod
pub mod Site
