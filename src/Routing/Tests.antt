-- ===== src/Routing/Tests.antt =====
-- A triangle of three switches with the weights of link_weights.json, on which the two algorithms of
-- controller.py run.
use mathlib.Core.List.{Memᴰ}
use cs305_2026spring_project.Prelude.{
  ℕ, zero, suc, ◌≡◌, refl, sym, subst, ◌≢◌, ◌+◌, Bool, true, false, if◌then◌else◌, Option, none,
  some, List, [], ◌∷◌, ◌++◌, map, codes, All, nat_eq, nat_beq, arith,
}
use cs305_2026spring_project.Prelude.Table.{Dict, lookup}
use cs305_2026spring_project.Routing.Graph.{
  Network, Labels, IsClosed, row, ports, neighbours, edge_weight, pair_eq,
}
use cs305_2026spring_project.Routing.Walk.{Reached, IsShortest}
use cs305_2026spring_project.Routing.Dijkstra.{returned, dijkstra}
use cs305_2026spring_project.Routing.Dijkstra.Correct.{dijkstra-IsShortest}
use cs305_2026spring_project.Routing.BellmanFord.{bellman_ford}
use cs305_2026spring_project.Routing.Path.{get_next_hop, build_path}
use cs305_2026spring_project.Routing.Path.Agree.{dijkstra-bellman_ford}
use cs305_2026spring_project.Routing.Path.Route.{Route}
use cs305_2026spring_project.Routing.Path.Back.{IsPositive}
use cs305_2026spring_project.Routing.Path.NextHop.{IsLeast, get_next_hop_shortest}
use cs305_2026spring_project.Routing.Path.Whole.{build_path_shortest, no_route}

abbrev links : Dict ℕ (Dict ℕ ℕ)
links = (1, (2, 1) ∷ (3, 2) ∷ []) ∷ (2, (1, 1) ∷ (3, 2) ∷ []) ∷ (3, (1, 1) ∷ (2, 2) ∷ []) ∷ []

abbrev triangle : Network
triangle = record {
  switches = 1 ∷ 2 ∷ 3 ∷ 4 ∷ [];
  adjacency = links;
  link_weights = ((1, 2), 5) ∷ ((2, 3), 1) ∷ ((1, 3), 10) ∷ [];
  routing_algorithm = codes "dijkstra";
}

rows_in :
    (P : ℕ → Type 0) (u : ℕ) (adj : Dict ℕ (Dict ℕ ℕ))
    → All (λ entry. All P (map (λ (x : ℕ × ℕ). x.0) entry.1)) adj
    → All P (map (λ (x : ℕ × ℕ). x.0) (row adj u))
unfolding row lookup
rows_in P u [] h = tt
rows_in P u ((x, r) ∷ adj) h = pick (nat_beq x u) (lookup u adj) h.0 (rows_in P u adj h.1)
  where
    pick :
        (b : Bool) (o : Option (Dict ℕ ℕ))
        → All P (map (λ (y : ℕ × ℕ). y.0) r)
        → All P (map (λ (y : ℕ × ℕ). y.0) (elim o [ none ↦ [] | some d ↦ d ]))
        → All P
            (map (λ (y : ℕ × ℕ). y.0) (elim (if b then some r else o) [ none ↦ [] | some d ↦ d ]))
    pick true o a b = a
    pick false o a b = b

all_Memᴰ : (P : ℕ → Type 0) (xs : List ℕ) → All P xs → (x : ℕ) → Memᴰ x xs → P x
all_Memᴰ P [] h x m = elim m [ ]
all_Memᴰ P (y ∷ xs) h x (Memᴰ.head e) = subst P (sym e) h.0
all_Memᴰ P (y ∷ xs) h x (Memᴰ.tail m) = all_Memᴰ P xs h.1 x m

abbrev In : ℕ → Type 0
In v = Memᴰ v triangle.switches

abbrev in1 : In 1
in1 = Memᴰ.head refl

abbrev in2 : In 2
in2 = Memᴰ.tail (Memᴰ.head refl)

abbrev in3 : In 3
in3 = Memᴰ.tail (Memᴰ.tail (Memᴰ.head refl))

triangle-IsClosed : IsClosed triangle
unfolding neighbours
triangle-IsClosed u v edge =
    all_Memᴰ In (neighbours triangle u)
      (rows_in In u links ((in2, (in3, tt)), ((in1, (in3, tt)), ((in1, (in2, tt)), tt)))) v edge

triangle-IsPositive : IsPositive triangle
unfolding edge_weight lookup
triangle-IsPositive u v = ground arith

from_one : Reached triangle 1 3 6
unfolding neighbours row lookup edge_weight
from_one = (2, (2, 5, (1, 0, (refl, refl), Memᴰ.head refl, refl), Memᴰ.tail (Memᴰ.head refl), refl))

dijkstra-IsShortest_example :
    (fuel : ℕ) × (l : Labels) × ((more : ℕ) → dijkstra (fuel + more) triangle 1 ≡ returned l)
    × IsShortest triangle 1 l.dist
dijkstra-IsShortest_example = dijkstra-IsShortest triangle 1 triangle-IsClosed

dijkstra-bellman_ford_example :
    (fuel : ℕ) × (l : Labels) × (l' : Labels) × ((more : ℕ)
      → dijkstra (fuel + more) triangle 1 ≡ returned l)
    × (bellman_ford triangle 1 ≡ some l')
    × IsShortest triangle 1 l'.dist
    × ((v : ℕ) → Memᴰ v triangle.switches → lookup v l.dist ≡ lookup v l'.dist)
dijkstra-bellman_ford_example = dijkstra-bellman_ford triangle 1 triangle-IsClosed in1

apart : ◌≢◌ {A = ℕ} 1 3
apart e = omega arith

get_next_hop_shortest_example :
    (enough : ℕ) × ((more : ℕ)
      → (hop port m : ℕ) × (xs : List ℕ) × (get_next_hop (enough + more) triangle 1 3
          ≡ some (some port))
        × (lookup hop (ports triangle 1) ≡ some port)
        × Route triangle hop xs 3 m
        × IsLeast triangle 1 3 (edge_weight triangle 1 hop + m))
get_next_hop_shortest_example =
    get_next_hop_shortest triangle 1 3 6 triangle-IsClosed triangle-IsPositive in1 apart from_one

build_path_shortest_example :
    (enough : ℕ) × ((more : ℕ)
      → (between : List ℕ) × (n : ℕ) × (build_path (enough + more) triangle 1 3
          ≡ some (some between))
        × Route triangle 1 (between ++ (3 ∷ [])) 3 n
        × IsLeast triangle 1 3 n)
build_path_shortest_example =
    build_path_shortest triangle 1 3 6 triangle-IsClosed triangle-IsPositive in1 apart from_one

-- No link leads to 4.
isolated : (k : ℕ) → ¬ Reached triangle 1 4 k
unfolding neighbours
isolated k (zero, (same, nothing)) = omega arith
isolated k (suc i, (u, m, walk, edge, sum)) =
    all_Memᴰ (λ v. v ≢ 4) (neighbours triangle u)
      (rows_in (λ v. v ≢ 4) u links
        (
          ((λ e. omega arith), ((λ e. omega arith), tt)),
          (
            ((λ e. omega arith), ((λ e. omega arith), tt)),
            (((λ e. omega arith), ((λ e. omega arith), tt)), tt),
          ),
        ))
      4 edge refl

no_route_example :
    (enough : ℕ) × ((more : ℕ)
      → (get_next_hop (enough + more) triangle 1 4 ≡ some none)
        × (build_path (enough + more) triangle 1 4 ≡ some none))
no_route_example = no_route triangle 1 4 triangle-IsClosed in1 isolated
