-- ===== src/Routing/Path.antt =====
-- _get_next_hop and _build_path of controller.py, which follow `prev` back from the destination.
pub mod Agree
pub mod Back
pub mod NextHop
pub mod Whole
pub mod Delivery
pub mod Route
use mathlib.Core.List.{reverse}
use cs305_2026spring_project.Prelude.{
  ℕ, zero, suc, ◌-◌, Bool, true, false, if◌then◌else◌, Option, none, some, List, [], ◌∷◌, ◌++◌,
  length, take, nat_eq, text_eq, ◌==◌, codes,
}
use cs305_2026spring_project.Prelude.Table.{Dict, lookup}
use cs305_2026spring_project.Routing.Graph.{Network, ports, Labels}
use cs305_2026spring_project.Routing.Dijkstra.{SearchResult, returned, raised, running, dijkstra}
use cs305_2026spring_project.Routing.BellmanFord.{bellman_ford}

unfoldable pub or_raised : Option Labels → SearchResult
or_raised none = raised
or_raised (some l) = returned l

-- The choice by self.routing_algorithm.
unfoldable pub run_algorithm : ℕ → Network → ℕ → SearchResult
run_algorithm fuel net src =
    if net.routing_algorithm == codes "bellman-ford"
    then or_raised (bellman_ford net src)
    else dijkstra fuel net src

-- `prev.get(v)`
unfoldable pub prev_get : Dict ℕ (Option ℕ) → ℕ → Option ℕ
prev_get prev v = elim (lookup v prev) [ none ↦ none | some p ↦ p ]

-- `while prev.get(curr) is not None and prev[curr] != src_dpid`
unfoldable pub before_that : (ℕ → Option ℕ) → ℕ → ℕ → Option ℕ → Option ℕ
before_that further src curr none = some curr
before_that further src curr (some u) =
    let earlier = further u in if u == src then some curr else earlier

unfoldable pub first_after : ℕ → Dict ℕ (Option ℕ) → ℕ → ℕ → Option ℕ
first_after zero prev src curr = none
first_after (suc fuel) prev src curr =
    before_that (first_after fuel prev src) src curr (prev_get prev curr)

-- What the method answers once the loop Has stopped at `curr`.
unfoldable pub port_at : Network → ℕ → ℕ → Option ℕ → Option ℕ
port_at net src curr none = none
port_at net src curr (some u) = lookup curr (ports net src)

unfoldable pub answered : Network → ℕ → Dict ℕ (Option ℕ) → Option ℕ → Option (Option ℕ)
answered net src prev none = none
answered net src prev (some curr) = some (port_at net src curr (prev_get prev curr))

unfoldable pub hop_with : ℕ → Network → ℕ → ℕ → Labels → Option ℕ → Option (Option ℕ)
hop_with fuel net src dst l none = some none
hop_with fuel net src dst l (some u) = answered net src l.prev (first_after fuel l.prev src dst)

unfoldable pub hop_from : ℕ → Network → ℕ → ℕ → SearchResult → Option (Option ℕ)
hop_from fuel net src dst (returned l) = hop_with fuel net src dst l (prev_get l.prev dst)
hop_from fuel net src dst raised = none
hop_from fuel net src dst (running s) = none

-- `none` Has not returned; `some none` is None.
unfoldable pub get_next_hop : ℕ → Network → ℕ → ℕ → Option (Option ℕ)
get_next_hop fuel net src dst =
    let found = hop_from fuel net src dst (run_algorithm fuel net src) in
    if src == dst then some none else found

-- The body of `while curr != src_dpid`: None without a predecessor.
unfoldable pub collect_on :
    (ℕ → List ℕ → Option (Option (List ℕ))) → ℕ → List ℕ → Option ℕ → Option (Option (List ℕ))
collect_on next curr path none = some none
collect_on next curr path (some u) = next u (path ++ (curr ∷ []))

unfoldable pub collect_path : ℕ → Dict ℕ (Option ℕ) → ℕ → ℕ → List ℕ → Option (Option (List ℕ))
collect_path zero prev src curr path = none
collect_path (suc fuel) prev src curr path =
    let further = collect_on (collect_path fuel prev src) curr path (prev_get prev curr) in
    if curr == src then some (some path) else further

-- `path.reverse(); return path[:-1]`
unfoldable pub inner : Option (Option (List ℕ)) → Option (Option (List ℕ))
inner none = none
inner (some none) = some none
inner (some (some path)) = some (some (take (length path - 1) (reverse path)))

unfoldable pub path_with : ℕ → ℕ → ℕ → Labels → Option ℕ → Option (Option (List ℕ))
path_with fuel src dst l none = some none
path_with fuel src dst l (some u) = inner (collect_path fuel l.prev src dst [])

unfoldable pub path_from : ℕ → ℕ → ℕ → SearchResult → Option (Option (List ℕ))
path_from fuel src dst (returned l) = path_with fuel src dst l (prev_get l.prev dst)
path_from fuel src dst raised = none
path_from fuel src dst (running s) = none

unfoldable pub build_path : ℕ → Network → ℕ → ℕ → Option (Option (List ℕ))
build_path fuel net src dst =
    let found = path_from fuel src dst (run_algorithm fuel net src) in
    if src == dst then some (some []) else found
