-- ===== src/Routing/Dijkstra.antt =====
-- _dijkstra of controller.py, with the heap of heapq as a list in order.
mod Scan
mod Turn
pub mod Correct
use cs305_2026spring_project.Prelude.{
  ℕ, zero, suc, ◌≡◌, ◌+◌, Bool, true, false, ◌&&◌, ◌||◌, if◌then◌else◌, ltb, nat_beq, Option, none,
  some, List, [], ◌∷◌, nat_eq, ◌>>=◌,
}
use cs305_2026spring_project.Prelude.Table.{lookup}
use cs305_2026spring_project.Routing.Graph.{
  Cost, finite, infinite, Network, neighbours, edge_weight, Labels,
}
use cs305_2026spring_project.Routing.Relax.{relax}
use cs305_2026spring_project.Routing.Start.{first_labels}

-- `dist`, `prev` and `pq`.
pub record Search : Type 0 where
  pub labels : Labels
  pub pq : List (ℕ × ℕ)

-- The order of tuples.
unfoldable pub entry_before : ℕ × ℕ → ℕ × ℕ → Bool
entry_before (a, u) (b, v) = ltb a b || (nat_beq a b && ltb u v)

-- `heapq.heappush(pq, entry)`: heappop takes the head.
unfoldable pub heappush : ℕ × ℕ → List (ℕ × ℕ) → List (ℕ × ℕ)
heappush entry [] = entry ∷ []
heappush entry (top ∷ rest) =
    let later = heappush entry rest in
    if entry_before entry top then entry ∷ (top ∷ rest) else top ∷ later

-- `heapq.heappush(pq, (alt, v))`, after a relaxation that lowered.
unfoldable pub pushed : ℕ → ℕ → List (ℕ × ℕ) → Labels × Bool → Search
pushed v alt pq (l, true) = record { labels = l; pq = heappush (alt, v) pq }
pushed v alt pq (l, false) = record { labels = l; pq = pq }

-- The body of the loop over `self.adjacency[u]`.
unfoldable pub visit_edge : Network → ℕ → ℕ → ℕ → Search → Option Search
visit_edge net d u v s =
    let alt = d + edge_weight net u v in relax u v alt s.labels >>= λ r. some (pushed v alt s.pq r)

unfoldable pub visit_edges : Network → ℕ → ℕ → List ℕ → Search → Option Search
visit_edges net d u [] s = some s
visit_edges net d u (v ∷ vs) s = visit_edge net d u v s >>= λ s'. visit_edges net d u vs s'

-- What `d != dist[u]` compares.
unfoldable pub is_cost : ℕ → Cost → Bool
is_cost d (finite k) = nat_beq d k
is_cost d infinite = false

-- The body of `while pq:`, after the pop.
unfoldable pub pop_with : Network → ℕ → ℕ → Search → Option Cost → Option Search
pop_with net d u s none = none
pop_with net d u s (some c) =
    if is_cost d c then visit_edges net d u (neighbours net u) s else some s

unfoldable pub pop_step : Network → ℕ → ℕ → Search → Option Search
pop_step net d u s = pop_with net d u s (lookup u s.labels.dist)

-- A search that Has returned, that Has raised KeyError, or that is still running.
pub data SearchResult : Type 0 where
  returned : Labels → SearchResult
  raised : SearchResult
  running : Search → SearchResult

unfoldable pub resumed : Option Search → SearchResult
resumed none = raised
resumed (some s) = running s

-- One turn of `while pq:`.
unfoldable pub turn_with : Network → Labels → List (ℕ × ℕ) → SearchResult
turn_with net labels [] = returned labels
turn_with net labels ((d, u) ∷ rest) =
    resumed (pop_step net d u (record { labels = labels; pq = rest }))

unfoldable pub turn : Network → Search → SearchResult
turn net s = turn_with net s.labels s.pq

-- The next turn, if there is one.
unfoldable pub go_on : (Search → SearchResult) → SearchResult → SearchResult
go_on next (returned l) = returned l
go_on next raised = raised
go_on next (running s) = next s

unfoldable pub search_loop : ℕ → Network → Search → SearchResult
search_loop zero net s = running s
search_loop (suc fuel) net s = go_on (search_loop fuel net) (turn net s)

-- The search from the source, with `pq` as it begins.
unfoldable pub dijkstra : ℕ → Network → ℕ → SearchResult
dijkstra fuel net src =
    search_loop fuel net (record { labels = first_labels net src; pq = (0, src) ∷ [] })
