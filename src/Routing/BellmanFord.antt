-- ===== src/Routing/BellmanFord.antt =====
-- _bellman_ford of controller.py.
mod Round
pub mod Correct
use cs305_2026spring_project.Prelude.{
  ℕ, zero, suc, ◌+◌, ◌-◌, Bool, true, false, ◌||◌, Option, none, some, List, [], ◌∷◌, length,
  nat_eq, ◌>>=◌,
}
use cs305_2026spring_project.Prelude.Table.{lookup}
use cs305_2026spring_project.Routing.Graph.{
  Cost, finite, infinite, Network, neighbours, edge_weight, Labels,
}
use cs305_2026spring_project.Routing.Relax.{relax}
use cs305_2026spring_project.Routing.Start.{first_labels}

-- `dist` and `prev` with `updated`.
abbrev pub Pass : Type 0
Pass = Labels × Bool

-- The body of the loop over `self.adjacency[u]`: nothing is less than `float('inf') + weight`.
unfoldable pub edge_with : Network → ℕ → ℕ → Pass → Option Cost → Option Pass
edge_with net u v p none = none
edge_with net u v p (some infinite) = some p
edge_with net u v (l, updated) (some (finite k)) =
    relax u v (k + edge_weight net u v) l >>= λ r. some (r.0, updated || r.1)

unfoldable pub edges : Network → ℕ → List ℕ → Pass → Option Pass
edges net u [] p = some p
edges net u (v ∷ vs) p = edge_with net u v p (lookup u p.0.dist) >>= edges net u vs

-- The body of the loop over `self.switches`.
unfoldable pub vertex_with : Network → ℕ → Pass → Option Cost → Option Pass
vertex_with net u p none = none
vertex_with net u p (some infinite) = some p
vertex_with net u p (some (finite k)) = edges net u (neighbours net u) p

unfoldable pub vertices : Network → List ℕ → Pass → Option Pass
vertices net [] p = some p
vertices net (u ∷ us) p = vertex_with net u p (lookup u p.0.dist) >>= vertices net us

-- `if not updated: break`
unfoldable pub unless_done : (Labels → Option Labels) → Pass → Option Labels
unless_done next (l, true) = next l
unless_done next (l, false) = some l

unfoldable pub rounds : ℕ → Network → Labels → Option Labels
rounds zero net l = some l
rounds (suc n) net l = vertices net net.switches (l, false) >>= unless_done (rounds n net)

-- `none` is a KeyError.
unfoldable pub bellman_ford : Network → ℕ → Option Labels
bellman_ford net src = rounds (length net.switches - 1) net (first_labels net src)
