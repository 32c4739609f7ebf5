-- ===== src/Routing/Walk.antt =====
-- What _dijkstra and _bellman_ford of controller.py are to find: the weights of the walks from the
-- source.
use cs305_2026spring_project.Prelude.{
  ℕ, zero, suc, ◌≡◌, ◌+◌, ◌≤◌, Option, none, some, arith, nat_eq,
}
use cs305_2026spring_project.Prelude.Table.{Dict, lookup}
use cs305_2026spring_project.Routing.Graph.{Cost, finite, infinite, Network, Edge, edge_weight}

-- A walk of `i` edges from the source to `v`, with the sum of its weights.
abbrev pub Walk : Network → ℕ → ℕ → ℕ → ℕ → Type 0
Walk net src zero v n = (v ≡ src) × (n ≡ 0)
Walk net src (suc i) v n =
    (u : ℕ) × (m : ℕ) × Walk net src i u m × Edge net u v × (n ≡ m + edge_weight net u v)

abbrev pub Reached : Network → ℕ → ℕ → ℕ → Type 0
Reached net src v n = (i : ℕ) × Walk net src i v n

-- The distance is a number, at most `n`.
abbrev pub AtMost : Option Cost → ℕ → Type 0
AtMost none n = ⊥
AtMost (some infinite) n = ⊥
AtMost (some (finite k)) n = k ≤ n

-- Every finite distance is the weight of a walk, and no walk weighs less.
pub record IsShortest (net : Network) (src : ℕ) (dist : Dict ℕ Cost) : Type 0 where
  pub attained : (v k : ℕ) → lookup v dist ≡ some (finite k) → Reached net src v k
  pub least : (i v n : ℕ) → Walk net src i v n → AtMost (lookup v dist) n

pub AtMost-le : (o : Option Cost) (m n : ℕ) → AtMost o m → m ≤ n → AtMost o n
AtMost-le none m n h le = h
AtMost-le (some infinite) m n h le = h
AtMost-le (some (finite k)) m n h le = omega arith
