-- ===== src/Drbd.antt =====
-- DRBD-backed hard drives: mcvirt/virtual_machine/hard_drive/drbd.py and mcvirt/node/drbd.py.
pub mod States
pub mod Resource
pub mod Roles
pub mod Sync
pub mod Allocation
mod Tests
