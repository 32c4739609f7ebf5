-- ===== src/Topology.antt =====
-- The view of the network that ControllerApp, controller.py, keeps: hosts, links, and the adjacency
-- built from them, under the events of the topology discovery, the ports and the packets.
pub mod State
mod Adjacency
pub mod Events
pub mod Probe
pub mod Consistent
pub mod Kept
pub mod Learned
pub mod Reachable
pub mod Named
mod Routes
mod Left
mod Learn
pub mod Print
mod Printed
pub mod Flows
mod Installed
mod Tests
