-- ===== src/InstanceTypes.antt =====
-- The instance types that the program offers to Karpenter: pkg/providers/instancetype and
-- pkg/providers/instancetype/offering.
pub mod Types
pub mod Requirements
pub mod Gpus
pub mod Signals
pub mod Resolve
pub mod Offers
pub mod Store
pub mod Refresh
