-- ===== src/Routing/Graph.antt =====
-- The graph that the routes are computed on: self.switches, self.adjacency and self.link_weights of
-- ControllerApp, controller.py, and the distances and predecessors of a search.
use Prim.Native.Nat.{min, max}
use cs305_2026spring_project.Prelude.{
  ℕ, ◌≡◌, ◌↔◌, Bool, true, ◌&&◌, ltb, nat_beq, Option, none, some, List, [], map, Comparable, Text,
  arith, nat_eq,
}
use cs305_2026spring_project.Prelude.Table.{Dict, lookup}
use mathlib.Core.List.{Memᴰ}

-- `dist[v]`: a number, or float('inf').
pub data Cost : Type 0 where
  finite : ℕ → Cost
  infinite : Cost

-- `alt < dist[v]`
unfoldable pub below : ℕ → Cost → Bool
below n (finite k) = ltb n k
below n infinite = true

pub pair_beq_iff : (p q : ℕ × ℕ) → ((nat_beq p.0 q.0 && nat_beq p.1 q.1) ≡ true) ↔ (p ≡ q)
pair_beq_iff (a, b) (c, d) = ground arith

instance abbrev pub pair_eq : Comparable (ℕ × ℕ)
pair_eq = record { same = λ p q. nat_beq p.0 q.0 && nat_beq p.1 q.1; same_iff = pair_beq_iff }

-- The keys of self.switches, self.adjacency[u][v] = port of u towards v, self.link_weights and
-- self.routing_algorithm.
pub record Network : Type 0 where
  pub switches : List ℕ
  pub adjacency : Dict ℕ (Dict ℕ ℕ)
  pub link_weights : Dict (ℕ × ℕ) ℕ
  pub routing_algorithm : Text

-- `self.adjacency[u]`, a defaultdict.
unfoldable pub row : Dict ℕ (Dict ℕ ℕ) → ℕ → Dict ℕ ℕ
row adjacency u = elim (lookup u adjacency) [ none ↦ [] | some d ↦ d ]

abbrev pub ports : Network → ℕ → Dict ℕ ℕ
ports net u = row net.adjacency u

unfoldable pub neighbours : Network → ℕ → List ℕ
neighbours net u = map (λ entry. entry.0) (ports net u)

unfoldable pub edge_weight : Network → ℕ → ℕ → ℕ
edge_weight net u v = elim (lookup (min u v, max u v) net.link_weights) [ none ↦ 1 | some w ↦ w ]

abbrev pub Edge : Network → ℕ → ℕ → Type 0
Edge net u v = Memᴰ v (neighbours net u)

-- No link leads to a switch that is not registered.
abbrev pub IsClosed : Network → Type 0
IsClosed net = (u v : ℕ) → Edge net u v → Memᴰ v net.switches

-- `dist` and `prev` of a search.
pub record Labels : Type 0 where
  pub dist : Dict ℕ Cost
  pub prev : Dict ℕ (Option ℕ)

-- The dicts before the search: every switch at float('inf') with no predecessor, then the source
-- at 0.
unfoldable pub blank : List ℕ → Dict ℕ Cost
blank switches = map (λ d. (d, infinite)) switches

unfoldable pub no_prev : List ℕ → Dict ℕ (Option ℕ)
no_prev switches = map (λ d. (d, none)) switches
