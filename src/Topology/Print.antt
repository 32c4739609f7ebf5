-- ===== src/Topology/Print.antt =====
-- `_print_topology` of controller.py, which searches the paths between all switches and all hosts
-- before it logs them. A search that raises ends the method; the graph that networkx prints is
-- inside a `try` of its own, and none of it is here.
use cs305_2026spring_project.Prelude.{
  ℕ, if◌then◌else◌, Option, none, some, List, [], ◌∷◌, ◌++◌, leb, codes, text_eq, nat_eq, ◌==◌,
  Text, ◌>>=◌,
}
use cs305_2026spring_project.Prelude.Table.{lookup}
use cs305_2026spring_project.Routing.Graph.{Cost, infinite, Network, Labels}
use cs305_2026spring_project.Routing.Dijkstra.{SearchResult, returned, raised, running, dijkstra}
use cs305_2026spring_project.Routing.BellmanFord.{bellman_ford}
use cs305_2026spring_project.Routing.Path.{or_raised, run_algorithm, build_path}
use cs305_2026spring_project.Topology.State.{Host, Controller, network}

-- `sorted(ids)`
unfoldable pub insert_sorted : ℕ → List ℕ → List ℕ
insert_sorted x [] = x ∷ []
insert_sorted x (y ∷ ys) =
    let later = insert_sorted x ys in if leb x y then x ∷ y ∷ ys else y ∷ later

unfoldable pub sorted : List ℕ → List ℕ
sorted [] = []
sorted (x ∷ xs) = insert_sorted x (sorted xs)

-- What is logged of two switches: the path between them, if there is one, and its cost.
pub record PathLine : Type 0 where
  pub source : ℕ
  pub target : ℕ
  pub between : Option (List ℕ)
  pub cost : Cost

-- `dist.get(v, float('inf'))`
unfoldable pub cost_at : Labels → ℕ → Cost
cost_at l v = elim (lookup v l.dist) [ none ↦ infinite | some c ↦ c ]

unfoldable pub cost_from : SearchResult → ℕ → Option Cost
cost_from (returned l) v = some (cost_at l v)
cost_from raised v = none
cost_from (running s) v = none

-- The distance is searched only for a path that exists.
unfoldable pub line_with : SearchResult → ℕ → ℕ → Option (List ℕ) → Option PathLine
line_with outcome a b none =
    some (record { source = a; target = b; between = none; cost = infinite })
line_with outcome a b (some path) = do
  c ← cost_from outcome b
  some (record { source = a; target = b; between = some path; cost = c })

unfoldable pub switch_line : ℕ → Network → ℕ → ℕ → Option PathLine
switch_line fuel net a b = build_path fuel net a b >>= line_with (run_algorithm fuel net a) a b

-- Between hosts the distance is Dijkstra's only for the configured name.
unfoldable pub host_search : ℕ → Network → ℕ → SearchResult
host_search fuel net src =
    if net.routing_algorithm == codes "dijkstra"
    then dijkstra fuel net src
    else or_raised (bellman_ford net src)

unfoldable pub host_line : ℕ → Network → Text × Host → Text × Host → Option PathLine
host_line fuel net (mac, h) (mac', h') =
    build_path fuel net h.dpid h'.dpid >>= line_with (host_search fuel net h.dpid) h.dpid h'.dpid

-- `for b in ids[i + 1:]`
unfoldable pub each : {B : Type 0} → (B → Option PathLine) → List B → Option (List PathLine)
each line [] = some []
each line (b ∷ bs) = do first ← line b; rest ← each line bs; some (first ∷ rest)

-- `for i, a in enumerate(ids)`; there are no pairs of fewer than two.
unfoldable pub pairs : {A : Type 0} → (A → A → Option PathLine) → List A → Option (List PathLine)
pairs line [] = some []
pairs line (a ∷ xs) = do lines ← each (line a) xs; more ← pairs line xs; some (lines ++ more)

unfoldable pub log_switch_paths : ℕ → Controller → Option (List PathLine)
log_switch_paths fuel c = pairs (switch_line fuel (network c)) (sorted (network c).switches)

unfoldable pub log_routing_paths : ℕ → Controller → Option (List PathLine)
log_routing_paths fuel c = pairs (host_line fuel (network c)) c.hosts

unfoldable pub print_topology : ℕ → Controller → Option (List PathLine)
print_topology fuel c = do
  between_switches ← log_switch_paths fuel c
  between_hosts ← log_routing_paths fuel c
  some (between_switches ++ between_hosts)
