-- ===== src/Auth.antt =====
-- The package mcvirt/auth: who may do what, and how a caller proves who he is.
pub mod Session
pub mod Users
pub mod Groups
pub mod Membership
pub mod Permission
pub mod Elevation
pub mod Removal
mod Tests
