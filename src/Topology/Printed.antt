-- ===== src/Topology/Printed.antt =====
-- `_print_topology` of controller.py returns: each of its searches starts at a registered switch.
use mathlib.Core.List.{Memᴰ}
use mathlib.Core.List.Memᴰ
use cs305_2026spring_project.Prelude.{
  ℕ, ◌≡◌, refl, subst, inl, inr, ◌⊎◌, ◌+◌, Option, none, some, List, [], ◌∷◌, ◌++◌, leb, codes,
  Text, text_eq, ◌==◌, ◌>>=◌, Bool-cases,
}
use cs305_2026spring_project.Prelude.Fuel.{Ends, Ends-bind}
use cs305_2026spring_project.Routing.Graph.{IsClosed, Network}
use cs305_2026spring_project.Routing.Dijkstra.{SearchResult}
use cs305_2026spring_project.Routing.Path.{or_raised, run_algorithm, build_path}
use cs305_2026spring_project.Routing.Path.Agree.{dijkstra-bellman_ford, run_algorithm-IsTree}
use cs305_2026spring_project.Routing.Path.Back.{IsPositive}
use cs305_2026spring_project.Routing.Path.Whole.{build_path_ends}
use cs305_2026spring_project.Topology.State.{Host, Controller, network}
use cs305_2026spring_project.Topology.Print.{
  insert_sorted, sorted, PathLine, cost_at, cost_from, line_with, switch_line, host_search,
  host_line, each, pairs, log_switch_paths, log_routing_paths, print_topology,
}

insert_sorted_cases :
    (x : ℕ) (ys : List ℕ) {z : ℕ} → Memᴰ z (insert_sorted x ys) → (z ≡ x) ⊎ Memᴰ z ys
unfolding insert_sorted
insert_sorted_cases x [] m = inl (Memᴰ.eq_of_singleton m)
insert_sorted_cases x (y ∷ ys) {z} m = elim (Bool-cases (leb x y)) [
  | inl first ↦ Memᴰ.cases_cons (subst (Memᴰ z) (rw first refl) m)
  | inr later ↦ elim (Memᴰ.cases_cons (subst (Memᴰ z) (rw later refl) m)) [
    | inl here ↦ inr (Memᴰ.head here)
    | inr there ↦ elim (insert_sorted_cases x ys there) [
      | inl new ↦ inl new
      | inr old ↦ inr (Memᴰ.tail old)
    ]
  ]
]

unsorted : (xs : List ℕ) {z : ℕ} → Memᴰ z (sorted xs) → Memᴰ z xs
unfolding sorted
unsorted [] m = m
unsorted (x ∷ xs) m = elim (insert_sorted_cases x (sorted xs) m) [
  | inl here ↦ Memᴰ.head here
  | inr there ↦ Memᴰ.tail (unsorted xs there)
]

each-Ends :
    {B : Type 0} (line : ℕ → B → Option PathLine) (bs : List B)
    → ((b : B) → Memᴰ b bs → Ends (λ fuel. line fuel b))
    → Ends (λ fuel. each (line fuel) bs)
unfolding each
each-Ends line [] ends = (0, λ more. ([], refl))
each-Ends line (b ∷ bs) ends =
    let (k, later) = each-Ends line bs (λ x m. ends x (Memᴰ.tail m)) in
    Ends-bind (λ fuel. line fuel b)
      (λ fuel first. each (line fuel) bs >>= λ rest. some (first ∷ rest)) (ends b (Memᴰ.head refl))
      (k, λ more first. let (rest, e) = later more in (first ∷ rest, rw e refl))

pairs-Ends :
    {A : Type 0} (line : ℕ → A → A → Option PathLine) (xs : List A)
    → ((a b : A) → Memᴰ a xs → Ends (λ fuel. line fuel a b))
    → Ends (λ fuel. pairs (line fuel) xs)
unfolding pairs
pairs-Ends line [] ends = (0, λ more. ([], refl))
pairs-Ends line (a ∷ xs) ends =
    let (k, later) = pairs-Ends line xs (λ x b m. ends x b (Memᴰ.tail m)) in
    Ends-bind (λ fuel. each (line fuel a) xs)
      (λ fuel lines. pairs (line fuel) xs >>= λ more. some (lines ++ more))
      (each-Ends (λ fuel. line fuel a) xs (λ b m. ends a b (Memᴰ.head refl)))
      (k, λ more lines. let (rest, e) = later more in (lines ++ rest, rw e refl))

-- With a path and a search that end, so does the line.
line-Ends :
    (path : ℕ → Option (Option (List ℕ))) (outcome : ℕ → SearchResult) (a b : ℕ)
    → Ends path
    → Ends (λ fuel. cost_from (outcome fuel) b)
    → Ends (λ fuel. path fuel >>= line_with (outcome fuel) a b)
unfolding line_with
line-Ends path outcome a b found (k, costs) =
    Ends-bind path (λ fuel. line_with (outcome fuel) a b) found (k, line_of)
  where
    line_of :
        (more : ℕ) (o : Option (List ℕ))
        → (l : PathLine) × (line_with (outcome (k + more)) a b o ≡ some l)
    line_of more none = (_, refl)
    line_of more (some between) =
        let (c, e) = costs more in
        (record { source = a; target = b; between = some between; cost = c }, rw e refl)

module _ (net : Network) (src : ℕ) (closed : IsClosed net) (src_in : Memᴰ src net.switches) where
  run_algorithm-Ends : (b : ℕ) → Ends (λ fuel. cost_from (run_algorithm fuel net src) b)
  unfolding cost_from
  run_algorithm-Ends b =
      let (fuel, l, e, t, s) = run_algorithm-IsTree net src closed src_in in
      (fuel, λ more. (cost_at l b, rw (e more) refl))

  host_search-Ends : (b : ℕ) → Ends (λ fuel. cost_from (host_search fuel net src) b)
  unfolding cost_from host_search or_raised
  host_search-Ends b =
      let (fuel, l, l', e, e', s, agree) = dijkstra-bellman_ford net src closed src_in in
      elim (Bool-cases (net.routing_algorithm == codes "dijkstra")) [
        | inl named ↦ (fuel, λ more. (cost_at l b, rw (named, e more) refl))
        | inr other ↦ (0, λ more. (cost_at l' b, rw (other, e') refl))
      ]

  pub switch_line-Ends : IsPositive net → (b : ℕ) → Ends (λ fuel. switch_line fuel net src b)
  unfolding switch_line
  switch_line-Ends positive b =
      line-Ends (λ fuel. build_path fuel net src b) (λ fuel. run_algorithm fuel net src) src b
        (build_path_ends net src b closed positive src_in) (run_algorithm-Ends b)

  pub path_line-Ends :
      IsPositive net
      → (b : ℕ)
      → Ends (λ fuel. build_path fuel net src b >>= line_with (host_search fuel net src) src b)
  path_line-Ends positive b =
      line-Ends (λ fuel. build_path fuel net src b) (λ fuel. host_search fuel net src) src b
        (build_path_ends net src b closed positive src_in) (host_search-Ends b)

module _ (c : Controller) (closed : IsClosed (network c)) (positive : IsPositive (network c))
    (housed : (mac : Text) (h : Host)
      → Memᴰ (mac, h) c.hosts
      → Memᴰ h.dpid (network c).switches) where
  host_line-Ends :
      (a b : Text × Host) → Memᴰ a c.hosts → Ends (λ fuel. host_line fuel (network c) a b)
  unfolding host_line
  host_line-Ends (mac, h) (mac', h') m =
      path_line-Ends (network c) h.dpid closed (housed mac h m) positive h'.dpid

  -- The paths are printed.
  pub print_topology-Ends : Ends (λ fuel. print_topology fuel c)
  unfolding print_topology log_switch_paths log_routing_paths
  print_topology-Ends =
      let (k, hosts) =
        pairs-Ends (λ fuel. host_line fuel (network c)) c.hosts (λ a b m. host_line-Ends a b m) in
      Ends-bind (λ fuel. log_switch_paths fuel c)
        (λ fuel lines. log_routing_paths fuel c >>= λ more. some (lines ++ more))
        (pairs-Ends (λ fuel. switch_line fuel (network c)) (sorted (network c).switches)
          (λ a b m.
            switch_line-Ends (network c) a closed (unsorted (network c).switches m) positive b))
        (k, λ more lines. let (rest, e) = hosts more in (lines ++ rest, rw e refl))
