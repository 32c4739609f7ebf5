-- ===== src/Topology/Tests.antt =====
-- Two switches, a link between them and a host, as the handlers of controller.py register them.
use mathlib.Core.List.{Memᴰ}
use mathlib.Core.List.Memᴰ
use cs305_2026spring_project.Prelude.{
  ℕ, ◌≡◌, refl, sym, subst, ◌≢◌, ◌+◌, ◌<◌, Bool, true, none, some, List, [], ◌∷◌, Text, Bytes,
  codes, length, nat_eq, text_eq, text_beq, arith,
}
use cs305_2026spring_project.Prelude.Table.{lookup, insert}
use cs305_2026spring_project.Routing.Graph.{row, pair_eq, neighbours, edge_weight}
use cs305_2026spring_project.Routing.Walk.{Reached}
use cs305_2026spring_project.Routing.Path.Delivery.{Delivers}
use cs305_2026spring_project.Topology.State.{
  Host, Link, Controller, update_topology, network, set_port, add_links,
}
use cs305_2026spring_project.Topology.Adjacency.{last_port, update_topology_lem}
use cs305_2026spring_project.Topology.Events.{
  install_table_miss, switch_features_handler, handle_switch_delete, handle_link_add,
  handle_host_add, registrable, register,
}
use cs305_2026spring_project.Topology.Probe.{
  probe_frame, is_probe, parse_probe, parse_probe-probe_frame, learn_link,
}
use cs305_2026spring_project.Topology.Consistent.{Registered}
use cs305_2026spring_project.Topology.Kept.{IsConsistent}
use cs305_2026spring_project.Topology.Reachable.{
  initial, switch_features, host_added, link_added, Reachable, start, next, reachable-IsConsistent,
}
use cs305_2026spring_project.Topology.Routes.{HasWeights, reachable-Delivers}
use cs305_2026spring_project.Topology.Left.{handle_switch_delete_lem}
use cs305_2026spring_project.Topology.Learn.{IsSingle, learn_link_lem}
use cs305_2026spring_project.Prelude.Split.{split, join}
use cs305_2026spring_project.Codec.Pack.{unpack32, be32}
use cs305_2026spring_project.Codec.Inet.{
  ip_to_int, int_to_ip, inet_aton, parse_octet, parse_octets, digit, octet,
}
use cs305_2026spring_project.Topology.Flows.{
  Addresses, dhcp_network, ones, ip_in_network, Flow, install_host_flows,
}
use cs305_2026spring_project.Topology.Installed.{install_host_flows_ends}

abbrev empty : Controller
empty = initial [] [] (codes "dijkstra")

abbrev one_switch : Controller
one_switch = (switch_features_handler 1 11 empty).0

abbrev two_switches : Controller
two_switches = (switch_features_handler 2 12 one_switch).0

abbrev cable : Link
cable = record { src_dpid = 1; dst_dpid = 2; src_port = 3; dst_port = 4 }

abbrev linked : Controller
linked = (handle_link_add cable two_switches).0

abbrev mac : Text
mac = codes "00:00:00:00:00:01"

abbrev view : Controller
view = (handle_host_add mac (codes "192.168.1.2" ∷ []) (some (2, 1)) linked).0

at_one : Registered 1 two_switches
unfolding switch_features_handler install_table_miss lookup insert
at_one = (11, refl)

at_two : Registered 2 two_switches
unfolding switch_features_handler install_table_miss lookup insert
at_two = (12, refl)

host_at_two : Registered 2 linked
unfolding handle_link_add update_topology switch_features_handler install_table_miss lookup insert
host_at_two = (12, refl)

view-Reachable : Reachable [] [] (codes "dijkstra") view
view-Reachable =
    next
      (next (next (next start (switch_features 1 11)) (switch_features 2 12))
        (link_added cable at_one at_two))
      (host_added mac (codes "192.168.1.2" ∷ []) 2 1 host_at_two)

reachable-IsConsistent_example : IsConsistent view
reachable-IsConsistent_example = reachable-IsConsistent [] [] (codes "dijkstra") view view-Reachable

update_topology_lem_example :
    lookup 2 (row (update_topology view).adjacency 1) ≡ last_port 1 2 view.links
update_topology_lem_example = update_topology_lem view 1 2

view-HasWeights : HasWeights view
unfolding text_beq handle_host_add registrable register handle_link_add update_topology
    switch_features_handler install_table_miss lookup
view-HasWeights pair w e = cc

view_at_one : Registered 1 view
unfolding text_beq handle_host_add registrable register handle_link_add update_topology
    switch_features_handler install_table_miss lookup insert
view_at_one = (11, refl)

one_two : Reached (network view) 1 2 1
unfolding text_beq network handle_host_add registrable register handle_link_add update_topology
    add_links set_port row neighbours edge_weight switch_features_handler install_table_miss lookup
    insert
one_two = (1, (1, 0, (refl, refl), Memᴰ.head refl, refl))

reachable-Delivers_example : Delivers (network view) 2 1
reachable-Delivers_example =
    reachable-Delivers [] [] (codes "dijkstra") view 1 2 1 view-Reachable view-HasWeights
      view_at_one one_two

handle_switch_delete_lem_example :
    let c' = (handle_switch_delete 2 view).0 in
    (lookup 2 c'.switches ≡ none)
    × ((m : Text) (h : Host) → lookup m c'.hosts ≡ some h → h.dpid ≢ 2)
    × ((l : Link) → Memᴰ l c'.links → (l.src_dpid ≢ 2) × (l.dst_dpid ≢ 2))
    × ((u : ℕ) → lookup 2 (row c'.adjacency u) ≡ none)
handle_switch_delete_lem_example = handle_switch_delete_lem 2 view

view-IsSingle : IsSingle 1 2 linked.links
unfolding handle_link_add update_topology switch_features_handler install_table_miss
view-IsSingle = ((λ joins x m. absurd (Memᴰ.not-nil m)), tt)

apart : ◌≢◌ {A = ℕ} 1 2
apart e = omega arith

learn_link_lem_example :
    let c' = (learn_link 1 5 2 6 linked).0 in
    (lookup 2 (row c'.adjacency 1) ≡ some 5) × (lookup 1 (row c'.adjacency 2) ≡ some 6)
learn_link_lem_example = learn_link_lem 1 5 2 6 linked apart view-IsSingle

fits : 258 < 18446744073709551616
fits = omega arith

port_fits : 7 < 65536
port_fits = omega arith

parse_probe-probe_frame_example :
    (frame : Bytes) × (probe_frame 258 7 ≡ some frame)
    × (length frame ≡ 24)
    × (is_probe frame ≡ true)
    × (parse_probe frame ≡ some (258, 7))
parse_probe-probe_frame_example = parse_probe-probe_frame 258 7 fits port_fits

abbrev addresses : Addresses
addresses = record {
  start_ip = codes "192.168.1.2";
  netmask = codes "255.255.255.0";
  external_ip = codes "10.0.0.1";
  controller_ip = codes "192.168.1.1";
}

dhcp_is : dhcp_network addresses ≡ some (codes "192.168.1.0", 24)
unfolding dhcp_network ones ip_to_int inet_aton unpack32 split parse_octet parse_octets digit
    int_to_ip octet join be32
dhcp_is = refl

inside_is : ip_in_network (codes "192.168.1.2") (codes "192.168.1.0") 24 ≡ some true
unfolding ip_in_network ip_to_int inet_aton unpack32 split parse_octet parse_octets digit
inside_is = refl

parses :
    (m : Text) (h : Host)
    → Memᴰ (m, h) view.hosts
    → (inside : Bool) × (ip_in_network h.ip (codes "192.168.1.0") 24 ≡ some inside)
unfolding text_beq handle_host_add registrable register handle_link_add update_topology
    switch_features_handler install_table_miss insert
parses m h at_h =
    subst
      (λ (entry : Text × Host).
        (inside : Bool) × (ip_in_network entry.1.ip (codes "192.168.1.0") 24 ≡ some inside))
      (sym (Memᴰ.eq_of_singleton at_h)) (true, inside_is)

install_host_flows_ends_example :
    (enough : ℕ) × ((more : ℕ)
      → (flows : List Flow) × (install_host_flows (enough + more) addresses view ≡ some flows))
install_host_flows_ends_example =
    install_host_flows_ends [] [] (codes "dijkstra") view addresses (codes "192.168.1.0") 24
      view-Reachable view-HasWeights dhcp_is parses
