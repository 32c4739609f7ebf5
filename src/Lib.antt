-- ===== src/Lib.antt =====
-- An SDN controller: the view of the network that it keeps and the routes over it, and its services,
-- the DHCP server, the DNS server, the address translation and the firewall, with the byte codecs that
-- they share. The controller (controller.py) hands each packet to one of them; the DHCP server
-- registers and removes the records of the DNS server; the events of the topology change the graph
-- that the routes are computed on, and after each of them the flows of all hosts are set again.
--
-- Prelude: Boolean tests and lists over native numbers, equality tests, Python's dict as an
-- association list in insertion order (Prelude/Table), `str.split` and `str.join` (Prelude/Split).
-- Codec: `struct.pack` and `unpack` (Codec/Pack), `inet_aton`, `inet_ntoa`, `_ip_to_int` and
-- `_int_to_ip` (Codec/Inet), `_checksum` of dns_server.py and nat.py (Codec/Checksum), UTF-8
-- (Codec/Utf8).
-- Dns: dns_server.py. The two dicts of `DNSServer` and their updates (Dns/Records), `_encode_domain`,
-- `_decode_domain` and the reverse names (Dns/Name), `handle_dns` and `_build_response` (Dns/Message),
-- `_send_response` (Dns/Frame).
-- Dhcp: dhcp.py. The class variables of `DHCPServer` (Dhcp/State), `_release_lease` and a round of
-- `_lease_reaper` (Dhcp/Release), `_arp_probe` and `_mark_arp_conflict` (Dhcp/Probe), `_find_free_ip`
-- (Dhcp/Allocate), the packets (Dhcp/Packet), `assemble_offer`, `assemble_ack` and `handle_dhcp`
-- (Dhcp/Server); the invariant of the leases is in Dhcp/Invariant.
-- Nat: nat.py. `NATTable` with `_alloc_port`, `_create_entry` and both lookups (Nat/Table),
-- `_update_tcp_state` and a round of `_gc` (Nat/Track), `_parse_eth_ip`, `_rewrite_outbound` and
-- `_rewrite_inbound` (Nat/Packet; what a write leaves is in Nat/Packet/Keeps and
-- Nat/Packet/Header), `handle_outbound` and `handle_inbound` (Nat/Handler), the index of the ports
-- and the tables that are reached (Nat/Index, Nat/Kept, Nat/Reachable).
-- Firewall: firewall.py. The normalisation of the rules' fields and `install_rules`; the calls of
-- `set_flow` are recorded in order.
-- Routing: the graph half of `ControllerApp`, controller.py. The graph and the labels of a search
-- (Routing/Graph), the weights of walks (Routing/Walk), the relaxation that both algorithms share
-- (Routing/Relax, with what it keeps in Routing/Tree and what it lowers in Routing/Measure),
-- `_dijkstra` (Routing/Dijkstra), `_bellman_ford` (Routing/BellmanFord, with the walks without
-- repetition of Routing/Simple and Routing/Pigeonhole), `_get_next_hop` and `_build_path`
-- (Routing/Path).
-- Topology: the rest of `ControllerApp`. Its fields and `_update_topology` (Topology/State,
-- Topology/Adjacency), the handlers of switches, hosts, links and ports and `_register_arp_host`
-- (Topology/Events), `_send_probe`, `_parse_probe` and what a probe teaches (Topology/Probe,
-- Topology/Learn), what the handlers keep (Topology/Consistent, Topology/Kept, Topology/Reachable)
-- and leave (Topology/Left), the routes over the view (Topology/Routes), and `_install_host_flows`
-- with `_dhcp_network`, nat.py's `_ip_in_network` and the paths of `_print_topology` (Topology/Print,
-- Topology/Flows; that they return is in Topology/Named, Topology/Printed and Topology/Installed).
-- Dispatch: `packet_in_handler`, which hands a packet to the parts above, with `_get_host_port` and the
-- reply to ARP requests (Dispatch), and what it keeps (Dispatch/Keeps).
--
-- Class variables are one record per class, and each method a function on it; a method that returns
-- None or raises where the caller does not tell the two apart gives `none`. Texts are lists of code
-- points, byte strings lists of numbers. A clock is a field of the state and counts whole ticks, in
-- the address translation whole seconds. `inet_aton` reads dotted quads of decimal numbers without
-- leading zeros, the only form that the code writes.
--
-- The graph: a dict that is read by its keys only, like self.switches in the search, is the list of
-- its keys; link weights are natural numbers, which is what the JSON file holds; the heap of heapq is a
-- list in the order of the tuples, whose head heappop takes. Reading self.adjacency, a defaultdict,
-- inserts an empty dict under a missing key; the model leaves that out, since nothing tells an empty
-- dict from a missing one. What hub.spawn starts runs after the handler and is not part of it.
--
-- Bounds: `_dijkstra` and the loops along `prev` run on fuel; with every link between registered
-- switches the search ends, since each turn of its loop lowers a distance or shortens the heap,
-- and with weights of at least 1 the loops along `prev` end within the distance. `_decode_domain`
-- runs on fuel, one unit for each byte of the message and one more are enough where no byte is a
-- pointer's; `_alloc_port` runs on fuel, 64511 rounds are enough for the ports from 1024 to 65534
-- once. With a pointer to itself, or with no free port, no fuel is enough, since the loops of the
-- code do not end.
--
-- The sleep of `_arp_probe` lets other greenlets run: what they do to the state, and how long it
-- takes, is a function `during` of the address and the state, a parameter of the definitions.
--
-- Not modelled: the OpenFlow messages and the packet classes, which are os-ken's; logging;
-- `_print_networkx_topology`, which logs what networkx computes and catches every exception;
-- `_dijkstra_all`, which nothing calls; the loaders of the JSON files, `_install_firewall_rules`
-- and the capture flows (controller.py), `_load_rules` (firewall.py), the OpenFlow helpers
-- (ofctl_utilis.py, a copy of another project's library), the configuration files, and the scripts
-- that run on virtual machines.
pub mod Prelude
pub mod Codec
pub mod Dns
pub mod Dhcp
pub mod Nat
pub mod Firewall
pub mod Routing
pub mod Topology
pub mod Dispatch
