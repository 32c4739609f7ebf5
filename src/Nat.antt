-- ===== src/Nat.antt =====
-- nat.py: the address translation.
pub mod Table
pub mod Track
pub mod Packet
pub mod Handler
pub mod Index
pub mod Kept
pub mod Reachable
pub mod Inbound
pub mod Collect
mod Tests
