-- ===== src/Topology/State.antt =====
-- The state of ControllerApp, controller.py, and `_update_topology`. A Datapath or OfCtl object is
-- a number.
use cs305_2026spring_project.Prelude.{ℕ, List, [], ◌∷◌, map, Text, nat_eq, text_eq}
use cs305_2026spring_project.Prelude.Table.{Dict, insert}
use cs305_2026spring_project.Routing.Graph.{Network, pair_eq, row}

-- A value of self.hosts.
pub record Host : Type 0 where
  pub ip : Text
  pub dpid : ℕ
  pub port : ℕ

-- An item of self.links.
pub record Link : Type 0 where
  pub src_dpid : ℕ
  pub dst_dpid : ℕ
  pub src_port : ℕ
  pub dst_port : ℕ

abbrev pub Adjacency : Type 0
Adjacency = Dict ℕ (Dict ℕ ℕ)

-- The fields of the application, with `DHCPServer._all_datapaths`.
pub record Controller : Type 0 where
  pub hosts : Dict Text Host
  pub switches : Dict ℕ ℕ
  pub ofctls : Dict ℕ ℕ
  pub all_datapaths : Dict ℕ ℕ
  pub links : List Link
  pub adjacency : Adjacency
  pub ip_to_mac : Dict Text Text
  pub mac_to_ip : Dict Text Text
  pub port_to_mac : Dict (ℕ × ℕ) Text
  pub link_weights : Dict (ℕ × ℕ) ℕ
  pub routing_algorithm : Text

-- `self.adjacency[u][v] = port`
unfoldable pub set_port : ℕ → ℕ → ℕ → Adjacency → Adjacency
set_port u v port adj = insert u (insert v port (row adj u)) adj

-- The loop of `_update_topology`.
unfoldable pub add_links : List Link → Adjacency → Adjacency
add_links [] adj = adj
add_links (l ∷ ls) adj =
    add_links ls
      (set_port l.dst_dpid l.src_dpid l.dst_port (set_port l.src_dpid l.dst_dpid l.src_port adj))

unfoldable pub update_topology : Controller → Controller
update_topology c = record c { adjacency = add_links c.links [] }

-- What the search for routes reads.
unfoldable pub network : Controller → Network
network c = record {
  switches = map (λ (entry : ℕ × ℕ). entry.0) c.switches;
  adjacency = c.adjacency;
  link_weights = c.link_weights;
  routing_algorithm = c.routing_algorithm;
}
