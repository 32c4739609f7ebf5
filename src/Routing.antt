-- ===== src/Routing.antt =====
-- The routing half of ControllerApp, controller.py: the graph of switches, the shortest paths over it
-- by both algorithms, and the hop that the flow tables take from them.
pub mod Graph
pub mod Walk
mod Relax
pub mod Dijkstra
mod Tree
mod Measure
mod Start
pub mod BellmanFord
mod Pigeonhole
mod Simple
pub mod Path
mod Tests
