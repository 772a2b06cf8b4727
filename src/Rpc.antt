-- ===== src/Rpc.antt =====
-- The package mcvirt/rpc: how an exposed method is run, on which nodes, and how it is rolled back.
pub mod State
pub mod Transaction
pub mod Function
