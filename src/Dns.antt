-- ===== src/Dns.antt =====
-- dns_server.py: the name server for the hosts that DHCP registers.
pub mod Records
pub mod Name
pub mod Message
pub mod Frame
mod Tests
