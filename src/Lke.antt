-- ===== src/Lke.antt =====
-- The LKE provider, pkg/providers/lke/lke.go, with the client interface of pkg/linode/sdk.go.
pub mod State
pub mod Start
pub mod Pools
pub mod Claims
pub mod Lookup
pub mod Create
pub mod Delete
pub mod Query
pub mod Keeps
pub mod Locks
