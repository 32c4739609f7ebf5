-- ===== src/Dhcp.antt =====
-- dhcp.py: leases of addresses, with an ARP probe before an address is offered.
pub mod State
pub mod Release
pub mod Probe
pub mod Allocate
pub mod Packet
pub mod Server
pub mod Invariant
mod Tests
