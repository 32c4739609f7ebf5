-- ===== src/Topology/Installed.antt =====
-- `_install_host_flows` of controller.py ends, and sends each host's frames along shortest paths.
use mathlib.Core.List.{Memᴰ}
use cs305_2026spring_project.Prelude.{
  ℕ, ◌≡◌, refl, ◌≢◌, inl, inr, ◌+◌, Bool, true, false, not, ◌&&◌, if◌then◌else◌, some, List, [],
  ◌∷◌, ◌++◌, Text, truthy, nat_eq, text_eq, nat_beq, ◌==◌, ◌>>=◌, Bool-cases, arith,
}
use cs305_2026spring_project.Prelude.Fuel.{Ends, Ends-if, Ends-bind}
use cs305_2026spring_project.Topology.Named.{reachable-housed}
use cs305_2026spring_project.Topology.Print.{print_topology}
use cs305_2026spring_project.Topology.Printed.{print_topology-Ends}
use cs305_2026spring_project.Prelude.Table.{Dict, lookup, contains}
use cs305_2026spring_project.Routing.Graph.{IsClosed, ports, edge_weight}
use cs305_2026spring_project.Routing.Walk.{Reached}
use cs305_2026spring_project.Routing.Path.{get_next_hop}
use cs305_2026spring_project.Routing.Path.Back.{IsPositive}
use cs305_2026spring_project.Routing.Path.Route.{Route}
use cs305_2026spring_project.Routing.Path.NextHop.{IsLeast, get_next_hop_shortest}
use cs305_2026spring_project.Routing.Path.Whole.{get_next_hop_ends}
use cs305_2026spring_project.Topology.State.{Host, Controller, network}
use cs305_2026spring_project.Routing.Graph.{pair_eq}
use cs305_2026spring_project.Topology.Consistent.{Registered}
use cs305_2026spring_project.Topology.Kept.{IsConsistent}
use cs305_2026spring_project.Topology.Reachable.{Reachable, reachable-IsConsistent}
use cs305_2026spring_project.Topology.Routes.{
  HasWeights, network-IsClosed, network-IsPositive, registered_in,
}
use cs305_2026spring_project.Topology.Flows.{
  Addresses, ip_in_network, dhcp_network, any_in, is_external, Flow, two_flows, set_flows, flows_by,
  switch_flows, host_flows, all_flows, install_host_flows,
}

flows_to :
    (fuel : ℕ) (c : Controller) (mac : Text) (h : Host) (sw port : ℕ)
    → sw ≢ h.dpid
    → contains sw c.ofctls ≡ true
    → get_next_hop fuel (network c) sw h.dpid ≡ some (some port)
    → switch_flows fuel c mac h sw ≡ some (two_flows sw mac port)
unfolding switch_flows flows_by set_flows
flows_to fuel c mac h sw port apart has_ofctl e =
    let differ : nat_beq sw h.dpid ≡ false = ground arith in rw (differ, e, has_ofctl) refl

module _ (c : Controller) (closed : IsClosed (network c)) (positive : IsPositive (network c)) where
  switch_flows-Ends :
      (mac : Text) (h : Host) (sw : ℕ)
      → Memᴰ sw (network c).switches
      → Ends (λ fuel. switch_flows fuel c mac h sw)
  unfolding switch_flows
  switch_flows-Ends mac h sw sw_in =
      Ends-if (sw == h.dpid) (λ fuel. some (set_flows c sw mac h.port))
        (λ fuel. get_next_hop fuel (network c) sw h.dpid >>= λ port. some (flows_by c sw mac port))
        (0, λ more. (set_flows c sw mac h.port, refl))
        (Ends-bind (λ fuel. get_next_hop fuel (network c) sw h.dpid)
          (λ fuel port. some (flows_by c sw mac port))
          (get_next_hop_ends (network c) sw h.dpid closed positive sw_in)
          (0, λ more port. (flows_by c sw mac port, refl)))

  host_flows-Ends :
      (mac : Text) (h : Host) (sws : List ℕ)
      → ((sw : ℕ) → Memᴰ sw sws → Memᴰ sw (network c).switches)
      → Ends (λ fuel. host_flows fuel c mac h sws)
  unfolding host_flows
  host_flows-Ends mac h [] all_in = (0, λ more. ([], refl))
  host_flows-Ends mac h (sw ∷ sws) all_in =
      let (k, later) = host_flows-Ends mac h sws (λ x m. all_in x (Memᴰ.tail m)) in
      Ends-bind (λ fuel. switch_flows fuel c mac h sw)
        (λ fuel flows. host_flows fuel c mac h sws >>= λ more. some (flows ++ more))
        (switch_flows-Ends mac h sw (all_in sw (Memᴰ.head refl)))
        (k, λ more flows. let (rest, e) = later more in (flows ++ rest, rw e refl))

  is_external_returns :
      (a : Addresses) (net : Text) (prefix : ℕ) (any : Bool) (h : Host)
      → (inside : Bool) × (ip_in_network h.ip net prefix ≡ some inside)
      → (b : Bool) × (is_external a net prefix any h ≡ some b)
  unfolding is_external
  is_external_returns a net prefix any h (inside, e) = elim (Bool-cases (any && truthy h.ip)) [
    | inl asked ↦ (not inside && not (h.ip == a.external_ip), rw (asked, e) refl)
    | inr plain ↦ (false, rw plain refl)
  ]

  -- Every address of a host parses.
  abbrev Parses : Text → ℕ → Dict Text Host → Type 0
  Parses net prefix hosts =
      (mac : Text) (h : Host)
      → Memᴰ (mac, h) hosts
      → (inside : Bool) × (ip_in_network h.ip net prefix ≡ some inside)

  all_flows-Ends :
      (a : Addresses) (net : Text) (prefix : ℕ) (any : Bool) (hosts : Dict Text Host)
      → Parses net prefix hosts
      → Ends (λ fuel. all_flows fuel a net prefix any c hosts)
  unfolding all_flows
  all_flows-Ends a net prefix any [] parses = (0, λ more. ([], refl))
  all_flows-Ends a net prefix any ((mac, h) ∷ hosts) parses =
      let (external, e) = is_external_returns a net prefix any h (parses mac h (Memᴰ.head refl)) in
      let (k, later) =
        all_flows-Ends a net prefix any hosts (λ m x at_x. parses m x (Memᴰ.tail at_x)) in
      let own =
        Ends-if external (λ fuel. some []) (λ fuel. host_flows fuel c mac h (network c).switches)
          (0, λ more. ([], refl)) (host_flows-Ends mac h (network c).switches (λ sw m. m)) in
      rw e (
        Ends-bind
          (λ fuel. if external then some [] else host_flows fuel c mac h (network c).switches)
          (λ fuel flows. all_flows fuel a net prefix any c hosts >>= λ more. some (flows ++ more))
          own (k, λ more flows. let (rest, e') = later more in (flows ++ rest, rw e' refl)))

  any_in_returns :
      (net : Text) (prefix : ℕ) (hosts : Dict Text Host)
      → Parses net prefix hosts
      → (b : Bool) × (any_in net prefix hosts ≡ some b)
  unfolding any_in
  any_in_returns net prefix [] parses = (false, refl)
  any_in_returns net prefix ((mac, h) ∷ hosts) parses =
      let (inside, e) = parses mac h (Memᴰ.head refl) in
      let (b, later) = any_in_returns net prefix hosts (λ m x at_x. parses m x (Memᴰ.tail at_x)) in
      elim (Bool-cases inside) [
        | inl within ↦ (true, rw (e, within) refl)
        | inr without ↦ (b, rw (e, without) later)
      ]

  installed-Ends :
      (a : Addresses) {net : Text} {prefix : ℕ}
      → dhcp_network a ≡ some (net, prefix)
      → Parses net prefix c.hosts
      → Ends (λ fuel. print_topology fuel c)
      → Ends (λ fuel. install_host_flows fuel a c)
  unfolding install_host_flows
  installed-Ends a {net} {prefix} e parses printed =
      let (any, e') = any_in_returns net prefix c.hosts parses in
      let (k, flows) = all_flows-Ends a net prefix any c.hosts parses in
      Ends-bind (λ fuel. print_topology fuel c)
        (λ fuel lines. dhcp_network a >>= λ d.
          any_in d.0 d.1 c.hosts >>= λ b. all_flows fuel a d.0 d.1 b c c.hosts)
        printed (k, λ more lines. rw (e, e') (flows more))

-- In every state reached by handled events at registered switches, with configured weights of at
-- least 1, _install_host_flows, the search of the paths that _print_topology logs included,
-- returns with enough fuel, when the DHCP addresses and those of the hosts parse.
pub install_host_flows_ends :
    (gateways : Dict Text Text) (weights : Dict (ℕ × ℕ) ℕ) (algorithm : Text) (c : Controller)
    (a : Addresses) (net : Text) (prefix : ℕ)
    → Reachable gateways weights algorithm c
    → HasWeights c
    → dhcp_network a ≡ some (net, prefix)
    → ((mac : Text) (h : Host)
        → Memᴰ (mac, h) c.hosts
        → (inside : Bool) × (ip_in_network h.ip net prefix ≡ some inside))
    → (enough : ℕ) × ((more : ℕ)
        → (flows : List Flow) × (install_host_flows (enough + more) a c ≡ some flows))
install_host_flows_ends gateways weights algorithm c a net prefix r h e parses =
    let closed = network-IsClosed c (reachable-IsConsistent gateways weights algorithm c r) in
    let positive = network-IsPositive c h in
    installed-Ends c closed positive a e parses (
      print_topology-Ends c closed positive
        (λ mac x m. registered_in x.dpid c (reachable-housed c r mac x m)))

-- In a consistent view with configured weights of at least 1, a registered switch with an OfCtl object
-- that is not the host's own and from which a walk leads to the host's switch is given two flows for
-- the host, IP and ARP, to the port of a neighbour on a walk of the least weight.
pub switch_flows_shortest :
    (c : Controller) (mac : Text) (h : Host) (sw k : ℕ)
    → IsConsistent c
    → HasWeights c
    → Registered sw c
    → contains sw c.ofctls ≡ true
    → sw ≢ h.dpid
    → Reached (network c) sw h.dpid k
    → (enough : ℕ) × ((more : ℕ)
        → (hop port m : ℕ) × (xs : List ℕ) × (switch_flows (enough + more) c mac h sw
            ≡ some (two_flows sw mac port))
          × (lookup hop (ports (network c) sw) ≡ some port)
          × Route (network c) hop xs h.dpid m
          × IsLeast (network c) sw h.dpid (edge_weight (network c) sw hop + m))
switch_flows_shortest c mac h sw k i w at_sw has_ofctl apart reached =
    let (enough, answers) =
      get_next_hop_shortest (network c) sw h.dpid k (network-IsClosed c i) (network-IsPositive c w)
        (registered_in sw c at_sw) apart reached in
    (
      enough,
      λ more.
          let (hop, port, m, xs, e, port_is, route, least) = answers more in
          (
            hop,
            port,
            m,
            xs,
            flows_to (enough + more) c mac h sw port apart has_ofctl e,
            port_is,
            route,
            least,
          ),
    )
