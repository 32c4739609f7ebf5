-- ===== src/Routing/Path/Agree.antt =====
-- _dijkstra and _bellman_ford of controller.py find the same distances, so that the choice of the
-- algorithm decides between shortest paths only.
use mathlib.Core.List.{Memᴰ}
use cs305_2026spring_project.Prelude.{
  ℕ, ◌≡◌, refl, sym, ◌∙◌, subst, ap, inl, inr, ◌+◌, some, Bool-cases, arith, nat_eq, text_eq, ◌==◌,
  codes,
}
use cs305_2026spring_project.Prelude.Table.{Dict, lookup}
use cs305_2026spring_project.Routing.Graph.{Cost, finite, infinite, Network, IsClosed, Labels}
use cs305_2026spring_project.Routing.Walk.{AtMost, IsShortest}
use cs305_2026spring_project.Routing.Tree.{IsTree}
use cs305_2026spring_project.Routing.Dijkstra.{returned, dijkstra}
use cs305_2026spring_project.Routing.Dijkstra.Correct.{dijkstra-IsTree}
use cs305_2026spring_project.Routing.BellmanFord.{bellman_ford}
use cs305_2026spring_project.Routing.BellmanFord.Correct.{bellman_ford-IsShortest-IsTree}
use cs305_2026spring_project.Routing.Path.{run_algorithm, or_raised}

-- Two tables of the least weights agree where both have an entry.
costs_agree :
    {net : Network} {src : ℕ} (d d' : Dict ℕ Cost)
    → IsShortest net src d
    → IsShortest net src d'
    → (v : ℕ) (c c' : Cost) → lookup v d ≡ some c
    → lookup v d' ≡ some c'
    → c ≡ c'
costs_agree d d' s s' v (finite k) (finite k') e e' =
    let (i, walk) = s.attained v k e in
    let (i', walk') = s'.attained v k' e' in
    let le = subst (λ o. AtMost o k) e' (s'.least i v k walk) in
    let le' = subst (λ o. AtMost o k') e (s.least i' v k' walk') in
    ap finite (omega (arith, le, le'))
costs_agree d d' s s' v (finite k) infinite e e' =
    let (i, walk) = s.attained v k e in absurd (subst (λ o. AtMost o k) e' (s'.least i v k walk))
costs_agree d d' s s' v infinite (finite k') e e' =
    let (i, walk) = s'.attained v k' e' in absurd (subst (λ o. AtMost o k') e (s.least i v k' walk))
costs_agree d d' s s' v infinite infinite e e' = refl

-- From a registered switch, when every link leads to one, _dijkstra with enough fuel and
-- _bellman_ford both return; the distances of _bellman_ford are finite exactly where a walk leads
-- and the least weights of the walks, and for every switch they are those of _dijkstra.
pub dijkstra-bellman_ford :
    (net : Network) (src : ℕ)
    → IsClosed net
    → Memᴰ src net.switches
    → (fuel : ℕ) × (l : Labels) × (l' : Labels) × ((more : ℕ)
        → dijkstra (fuel + more) net src ≡ returned l)
      × (bellman_ford net src ≡ some l')
      × IsShortest net src l'.dist
      × ((v : ℕ) → Memᴰ v net.switches → lookup v l.dist ≡ lookup v l'.dist)
dijkstra-bellman_ford net src closed src_in =
    let (fuel, l, e, t, s) = dijkstra-IsTree net src closed in
    let (l', e', t', s') = bellman_ford-IsShortest-IsTree net src closed src_in in
    (
      fuel,
      l,
      l',
      e,
      e',
      s',
      λ v v_in.
          let (c, c_is) = t.known v v_in in
          let (c', c'_is) = t'.known v v_in in
          c_is ∙ ap some (costs_agree l.dist l'.dist s s' v c c' c_is c'_is) ∙ sym c'_is,
    )

-- Either algorithm returns a tree of shortest paths.
pub run_algorithm-IsTree :
    (net : Network) (src : ℕ)
    → IsClosed net
    → Memᴰ src net.switches
    → (fuel : ℕ) × (l : Labels) × ((more : ℕ) → run_algorithm (fuel + more) net src ≡ returned l)
      × IsTree net src l
      × IsShortest net src l.dist
unfolding run_algorithm or_raised
run_algorithm-IsTree net src closed src_in =
    elim (Bool-cases (net.routing_algorithm == codes "bellman-ford")) [
      | inl rounds_chosen ↦
          let (l, e, t, s) = bellman_ford-IsShortest-IsTree net src closed src_in in
          (0, l, λ more. rw (rounds_chosen, e) refl, t, s)
      | inr other ↦
          let (fuel, l, e, t, s) = dijkstra-IsTree net src closed in
          (fuel, l, λ more. rw other (e more), t, s)
    ]
