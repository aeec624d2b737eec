-- ===== src/Controllers.antt =====
-- The controllers of pkg/controllers, and the drift check of pkg/cloudprovider/drift.go.
pub mod State
pub mod Drift
pub mod InPlace
pub mod Tagging
pub mod Hashes
pub mod Garbage
pub mod Plans
