-- ===== src/Routing/Path/Delivery.antt =====
-- The hops that each switch computes for itself by _get_next_hop of controller.py, followed one after
-- the other.
use mathlib.Core.List.{Memᴰ}
use cs305_2026spring_project.Prelude.{
  ℕ, zero, suc, ◌≡◌, refl, subst, inl, inr, ◌+◌, ◌<◌, some, Bool-cases, nat_beq, arith, nat_eq,
}
use cs305_2026spring_project.Prelude.Table.{lookup}
use cs305_2026spring_project.Routing.Graph.{Network, IsClosed, ports}
use cs305_2026spring_project.Routing.Walk.{Reached}
use cs305_2026spring_project.Routing.Path.{get_next_hop}
use cs305_2026spring_project.Routing.Path.Route.{Route-Reached}
use cs305_2026spring_project.Routing.Path.Back.{IsPositive}
use cs305_2026spring_project.Routing.Path.NextHop.{get_next_hop_shortest, port-Edge}

-- A packet at the switch comes to `dst`, when every switch on its way sends it to the port that
-- _get_next_hop answers there.
pub data Delivers (net : Network) (dst : ℕ) : ℕ → Type 0 where
  arrived : Delivers net dst dst
  forwarded :
      (at_switch hop port fuel : ℕ)
      → get_next_hop fuel net at_switch dst ≡ some (some port)
      → lookup hop (ports net at_switch) ≡ some port
      → Delivers net dst hop
      → Delivers net dst at_switch

module _ (net : Network) (closed : IsClosed net) (positive : IsPositive net) (dst : ℕ) where
  -- Every hop is nearer by the weight of its edge.
  Delivers-within :
      (bound src k : ℕ)
      → Memᴰ src net.switches
      → Reached net src dst k
      → k < bound
      → Delivers net dst src
  Delivers-within zero src k src_in reached lt = absurd (omega arith)
  Delivers-within (suc bound) src k src_in (i, walk) lt = elim (Bool-cases (nat_beq src dst)) [
    | inl here ↦ subst (Delivers net dst) (ground arith) arrived
    | inr other ↦
        let (fuel, answers) =
          get_next_hop_shortest net src dst k closed positive src_in (ground arith) (i, walk) in
        let (hop, port, m, xs, e, port_is, route, least) = answers 0 in
        let edge = port-Edge net src hop port port_is in
        let nearer = Route-Reached net hop hop xs dst 0 m (0, (refl, refl)) route in
        forwarded src hop port (fuel + 0) e port_is (
          Delivers-within bound hop (0 + m) (closed src hop edge) nearer
            (omega (arith, least i k walk, positive src hop)))
  ]

-- With positive weights, when every link leads to a registered switch, a packet at a registered
-- switch from which a walk leads to `dst` comes there after finitely many hops, each of them the port
-- that _get_next_hop answers at the switch where the packet is.
pub delivers :
    (net : Network) (src dst k : ℕ)
    → IsClosed net
    → IsPositive net
    → Memᴰ src net.switches
    → Reached net src dst k
    → Delivers net dst src
delivers net src dst k closed positive src_in reached =
    Delivers-within net closed positive dst (suc k) src k src_in reached (omega arith)
