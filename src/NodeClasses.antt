-- ===== src/NodeClasses.antt =====
-- LinodeNodeClass of pkg/apis/v1alpha1, and the controllers of pkg/controllers/nodeclass on it.
pub mod Types
pub mod Checks
pub mod Validation
pub mod Verdicts
pub mod Finalizer
pub mod Kept
