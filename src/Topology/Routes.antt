-- ===== src/Topology/Routes.antt =====
-- The routes over the view of the network that ControllerApp, controller.py, keeps.
use mathlib.Core.List.{Memᴰ}
use Prim.Native.Nat.{min, max}
use cs305_2026spring_project.Prelude.{
  ℕ, ◌≡◌, sym, subst, ◌≤◌, inl, inr, some, [], ◌∷◌, map, Text, nat_eq, Option-cases, arith,
}
use cs305_2026spring_project.Prelude.Table.{Dict, lookup, lookup-cons}
use cs305_2026spring_project.Routing.Graph.{IsClosed, pair_eq, row, edge_weight}
use cs305_2026spring_project.Routing.Walk.{Reached}
use cs305_2026spring_project.Routing.Path.Back.{IsPositive}
use cs305_2026spring_project.Routing.Path.NextHop.{Edge-port}
use cs305_2026spring_project.Routing.Path.Delivery.{Delivers, delivers}
use cs305_2026spring_project.Topology.State.{Link, Controller, update_topology, network}
use cs305_2026spring_project.Topology.Adjacency.{Joins, update_topology-IsSymmetric}
use cs305_2026spring_project.Topology.Consistent.{Registered}
use cs305_2026spring_project.Topology.Kept.{IsConsistent}
use cs305_2026spring_project.Topology.Reachable.{Reachable, reachable-IsConsistent}

key_in :
    (x datapath : ℕ) (d : Dict ℕ ℕ)
    → lookup x d ≡ some datapath
    → Memᴰ x (map (λ (entry : ℕ × ℕ). entry.0) d)
unfolding lookup
key_in x datapath [] e = cc
key_in x datapath ((y, v) ∷ d) e = elim (lookup-cons x y v d e) [
  | inl (same, _) ↦ Memᴰ.head (sym same)
  | inr (_, later) ↦ Memᴰ.tail (key_in x datapath d later)
]

pub registered_in : (x : ℕ) (c : Controller) → Registered x c → Memᴰ x (network c).switches
unfolding network
registered_in x c (datapath, e) = key_in x datapath c.switches e

joined-Registered :
    (u v : ℕ) (l : Link) (c : Controller)
    → Joins u v l
    → Registered l.src_dpid c × Registered l.dst_dpid c
    → Registered v c
joined-Registered u v l c (inl (s, d)) (a, b) = subst (λ x. Registered x c) d b
joined-Registered u v l c (inr (d, s)) (a, b) = subst (λ x. Registered x c) s a

-- A consistent view Has links between registered switches only.
pub network-IsClosed : (c : Controller) → IsConsistent c → IsClosed (network c)
unfolding network update_topology
network-IsClosed c i u v edge =
    let (port, e) = Edge-port (network c) u v edge in
    let e' : lookup v (row (update_topology c).adjacency u) ≡ some port =
      subst (λ adj. lookup v (row adj u) ≡ some port) i.current e in
    let ((l, m, joins), back) = update_topology-IsSymmetric c u v port e' in
    registered_in v c (joined-Registered u v l c joins (i.placed.joined l m))

-- Every configured weight is at least 1.
abbrev pub HasWeights : Controller → Type 0
HasWeights c = (pair : ℕ × ℕ) (w : ℕ) → lookup pair c.link_weights ≡ some w → 1 ≤ w

pub network-IsPositive : (c : Controller) → HasWeights c → IsPositive (network c)
unfolding edge_weight network
network-IsPositive c h u v = elim (Option-cases (lookup (min u v, max u v) c.link_weights)) [
  | inl e ↦ rw (e, edge_weight) (omega arith)
  | inr (w, e) ↦ rw (e, edge_weight) (h (min u v, max u v) w e)
]

-- In every state reached by handled events at registered switches, with configured weights of at
-- least 1, a packet at a registered switch from which a walk leads to a switch comes there after
-- finitely many hops, each of them the port that _get_next_hop answers at the switch where the
-- packet is.
pub reachable-Delivers :
    (gateways : Dict Text Text) (weights : Dict (ℕ × ℕ) ℕ) (algorithm : Text) (c : Controller)
    (src dst k : ℕ)
    → Reachable gateways weights algorithm c
    → HasWeights c
    → Registered src c
    → Reached (network c) src dst k
    → Delivers (network c) dst src
reachable-Delivers gateways weights algorithm c src dst k r h at_src reached =
    delivers (network c) src dst k
      (network-IsClosed c (reachable-IsConsistent gateways weights algorithm c r))
      (network-IsPositive c h) (registered_in src c at_src) reached
