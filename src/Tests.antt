-- ===== src/Tests.antt =====
-- Concrete runs: a small cluster in place of the Linode API, and the theorems at work on it.
pub mod World
mod Runs
mod Provider
mod Texts
mod Caches
mod Cluster
mod Maxima
mod Plans
mod Nodes
mod Classes
