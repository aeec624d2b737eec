-- ===== src/CloudProvider.antt =====
-- The cloud provider that Karpenter calls: pkg/cloudprovider/cloudprovider.go.
pub mod Types
pub mod Find
pub mod Provider
pub mod Ready
pub mod Ids
