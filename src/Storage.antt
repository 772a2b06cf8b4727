-- ===== src/Storage.antt =====
-- The storage backends of mcvirt/storage, on the nodes of a cluster.
pub mod Backend
pub mod Volume
pub mod Cluster
pub mod Nodes
pub mod Factory
mod Tests
