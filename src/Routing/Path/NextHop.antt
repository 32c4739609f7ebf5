-- ===== src/Routing/Path/NextHop.antt =====
-- What _get_next_hop of controller.py answers: a port towards a shortest path.
use mathlib.Core.List.{Memᴰ}
use mathlib.Core.List.Memᴰ
use cs305_2026spring_project.Prelude.{
  ℕ, ◌≡◌, refl, sym, ◌∙◌, subst, ap, ◌≢◌, inl, inr, ◌+◌, ◌≤◌, false, some, List, [], ◌∷◌, map,
  Bool-cases, nat_beq, arith, nat_eq,
}
use cs305_2026spring_project.Prelude.Table.{Dict, lookup}
use cs305_2026spring_project.Routing.Graph.{
  Cost, finite, Network, Edge, IsClosed, ports, neighbours, edge_weight, Labels,
}
use cs305_2026spring_project.Routing.Walk.{Walk, Reached, AtMost, IsShortest}
use cs305_2026spring_project.Routing.Tree.{AtMost_finite}
use cs305_2026spring_project.Routing.Dijkstra.{returned}
use cs305_2026spring_project.Routing.Path.{
  run_algorithm, prev_get, first_after, port_at, answered, hop_with, hop_from, get_next_hop,
}
use cs305_2026spring_project.Routing.Path.Agree.{run_algorithm-IsTree}
use cs305_2026spring_project.Routing.Path.Route.{Route}
use cs305_2026spring_project.Routing.Path.Back.{IsPositive, step_back, first_after_lem}

lookup-keys :
    (v : ℕ) (d : Dict ℕ ℕ)
    → Memᴰ v (map (λ entry. entry.0) d)
    → (port : ℕ) × (lookup v d ≡ some port)
unfolding lookup
lookup-keys v [] m = elim m [ ]
lookup-keys v ((x, port) ∷ d) m = elim (Bool-cases (nat_beq x v)) [
  | inl here ↦ (port, rw here refl)
  | inr other ↦ elim (Memᴰ.cases_cons m) [
    | inl same ↦ ground arith
    | inr later ↦ let (port', e) = lookup-keys v d later in (port', rw other e)
  ]
]

-- A neighbour Has a port.
pub Edge-port :
    (net : Network) (u v : ℕ) → Edge net u v → (port : ℕ) × (lookup v (ports net u) ≡ some port)
unfolding neighbours
Edge-port net u v edge = lookup-keys v (ports net u) edge

keys-lookup :
    (v : ℕ) (d : Dict ℕ ℕ) (port : ℕ) → lookup v d ≡ some port → Memᴰ v (map (λ entry. entry.0) d)
unfolding lookup
keys-lookup v [] port e = cc
keys-lookup v ((x, p) ∷ d) port e = elim (Bool-cases (nat_beq x v)) [
  | inl here ↦ Memᴰ.head (ground arith)
  | inr other ↦ Memᴰ.tail (keys-lookup v d port (sym (rw other refl) ∙ e))
]

-- What Has a port is a neighbour.
pub port-Edge : (net : Network) (u v port : ℕ) → lookup v (ports net u) ≡ some port → Edge net u v
unfolding neighbours
port-Edge net u v port e = keys-lookup v (ports net u) port e

-- The route weighs no more than any walk.
abbrev pub IsLeast : Network → ℕ → ℕ → ℕ → Type 0
IsLeast net src dst n = (i k : ℕ) → Walk net src i dst k → n ≤ k

pub shortest_finite :
    {net : Network} {src : ℕ} (dist : Dict ℕ Cost)
    → IsShortest net src dist
    → (dst k : ℕ) → Reached net src dst k
    → (n : ℕ) × (lookup dst dist ≡ some (finite n)) × IsLeast net src dst n
shortest_finite dist s dst k (i, walk) =
    let (n, n_is, le) = AtMost_finite (lookup dst dist) k (s.least i dst k walk) in
    (n, n_is, λ j m walk'. subst (λ o. AtMost o m) n_is (s.least j dst m walk'))

get_next_hop-some :
    (fuel : ℕ) (net : Network) (src dst : ℕ) (l : Labels) (u hop : ℕ)
    → src ≢ dst
    → run_algorithm fuel net src ≡ returned l
    → prev_get l.prev dst ≡ some u
    → first_after fuel l.prev src dst ≡ some hop
    → prev_get l.prev hop ≡ some src
    → get_next_hop fuel net src dst ≡ some (lookup hop (ports net src))
unfolding get_next_hop hop_from hop_with answered port_at
get_next_hop-some fuel net src dst l u hop apart e prev_is back from_src =
    let differ : nat_beq src dst ≡ false = ground arith in
    rw (differ, e, prev_is, back, from_src) refl

-- With positive weights, when every link leads to a registered switch, from a registered switch to
-- another one that it reaches, _get_next_hop with enough fuel returns the port of a neighbour
-- through which a walk of the least weight leads.
pub get_next_hop_shortest :
    (net : Network) (src dst k : ℕ)
    → IsClosed net
    → IsPositive net
    → Memᴰ src net.switches
    → src ≢ dst
    → Reached net src dst k
    → (enough : ℕ) × ((more : ℕ)
        → (hop port m : ℕ) × (xs : List ℕ) × (get_next_hop (enough + more) net src dst
            ≡ some (some port))
          × (lookup hop (ports net src) ≡ some port)
          × Route net hop xs dst m
          × IsLeast net src dst (edge_weight net src hop + m))
get_next_hop_shortest net src dst k closed positive src_in apart reached =
    let (fuel, l, e, t, s) = run_algorithm-IsTree net src closed src_in in
    let (n, n_is, least) = shortest_finite l.dist s dst k reached in
    let back_off : dst ≢ src = λ same. apart (sym same) in
    let (u, j, prev_is, edge, j_is, sum, less) = step_back positive t dst n n_is back_off in
    (
      fuel + n,
      λ more.
          let (hop, m, xs, back, from_src, first, route, bound) =
            first_after_lem positive t ((fuel + n) + more) dst n n_is back_off (omega arith) in
          let (port, port_is) = Edge-port net src hop first in
          let e' = subst (λ f. run_algorithm f net src ≡ returned l) (omega arith) (e (n + more)) in
          (
            hop,
            port,
            m,
            xs,
            get_next_hop-some ((fuel + n) + more) net src dst l u hop apart e' prev_is back from_src
                ∙ ap some port_is,
            port_is,
            route,
            λ i w walk. omega (arith, bound, least i w walk),
          ),
    )
