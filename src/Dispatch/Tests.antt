-- ===== src/Dispatch/Tests.antt =====
-- An ARP request at the only switch of a network without links.
use cs305_2026spring_project.Codec.Pack.{unpack16}
use cs305_2026spring_project.Prelude.{
  ◌≡◌, true, refl, none, some, [], ◌∷◌, false, Text, codes, nat_eq,
}
use cs305_2026spring_project.Prelude.Table.{lookup, insert}
use cs305_2026spring_project.Dns.Records.{empty}
use cs305_2026spring_project.Nat.Reachable.{empty_table, reachable-IsIndexed}
use cs305_2026spring_project.Nat
use cs305_2026spring_project.Topology.State.{Controller}
use cs305_2026spring_project.Topology.Events.{switch_features_handler, install_table_miss}
use cs305_2026spring_project.Topology.Probe.{parse_probe, is_probe}
use cs305_2026spring_project.Topology.Consistent.{Registered}
use cs305_2026spring_project.Topology.Reachable.{
  initial, start, next, switch_features, reachable-IsConsistent,
}
use cs305_2026spring_project.Dispatch.{Frame, App, Setup, packet_in_handler}
use cs305_2026spring_project.Dispatch.Keeps.{IsSound, Ends, NamesSwitch, packet_in_handler-Ends}

abbrev gateways : Text
gateways = codes "192.168.1.1"

abbrev view : Controller
view =
    (switch_features_handler 1 11
      (initial ((gateways, codes "aa:bb:cc:dd:ee:ff") ∷ []) [] (codes "dijkstra"))).0

abbrev app : App
app = record {
  view = view;
  nat = empty_table;
  dhcp = record {
    mac_to_lease = [];
    ip_to_mac = [];
    mac_to_hostname = [];
    all_datapaths = [];
    probes = [];
    conflict_ips = [];
    dns = empty;
    clock = 0;
    outbox = [];
  };
}

abbrev setup : Setup
setup = record {
  addresses = record {
    start_ip = codes "192.168.1.2";
    netmask = codes "255.255.255.0";
    external_ip = codes "10.0.0.1";
    controller_ip = gateways;
  };
  config = record {
    external_ip = codes "10.0.0.1";
    controller_mac = 0xaa ∷ 0xbb ∷ 0xcc ∷ 0xdd ∷ 0xee ∷ 0xff ∷ [];
  };
  controller_mac = codes "aa:bb:cc:dd:ee:ff";
  text_to_bin = λ mac. none;
}

abbrev request : Frame
request = record {
  has_dhcp = false;
  ipv4_dst = none;
  udp_dst_port = none;
  eth_src = some (codes "00:00:00:00:00:01");
  arp = some (record {
    opcode = 1;
    src_mac = codes "00:00:00:00:00:01";
    src_ip = codes "192.168.1.2";
    dst_ip = gateways;
  });
  raw =
      0xff ∷ 0xff ∷ 0xff ∷ 0xff ∷ 0xff ∷ 0xff ∷ 0 ∷ 0 ∷ 0 ∷ 0 ∷ 0 ∷ 1 ∷ 8 ∷ 6 ∷ 0 ∷ 1 ∷ 8 ∷ 0 ∷ 6
      ∷ 4 ∷ 0 ∷ 1 ∷ 0 ∷ 0 ∷ 0 ∷ 0 ∷ 0 ∷ 1 ∷ 192 ∷ 168 ∷ 1 ∷ 2 ∷ 0 ∷ 0 ∷ 0 ∷ 0 ∷ 0 ∷ 0 ∷ 192 ∷ 168
      ∷ 1 ∷ 1 ∷ [];
}

at_one : Registered 1 view
unfolding switch_features_handler install_table_miss lookup insert
at_one = (11, refl)

no_probe : is_probe request.raw ≡ true → NamesSwitch view (parse_probe request.raw)
unfolding is_probe unpack16
no_probe e = cc e

app-IsSound : IsSound app
app-IsSound = record {
  view = reachable-IsConsistent _ _ _ view (next start (switch_features 1 11));
  nat = reachable-IsIndexed empty_table Nat.Reachable.start;
}

packet_in_handler-Ends_example : Ends (packet_in_handler 20 setup 1 3 request app)
packet_in_handler-Ends_example =
    packet_in_handler-Ends 20 setup 1 3 request app at_one no_probe app-IsSound
