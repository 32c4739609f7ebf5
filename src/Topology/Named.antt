-- ===== src/Topology/Named.antt =====
-- Every event handler of ControllerApp, controller.py, keeps self.hosts a dict: no host is listed
-- twice.
use mathlib.Core.List.{Memᴰ}
use cs305_2026spring_project.Prelude.{
  ℕ, Bool, true, false, not, ◌||◌, if◌then◌else◌, Option, none, some, List, [], ◌∷◌, Text, nat_eq,
  text_eq, ◌==◌,
}
use cs305_2026spring_project.Prelude.Table.{
  Dict, IsDict, lookup, insert-IsDict, erase-IsDict, lookup-Memᴰ,
}
use cs305_2026spring_project.Routing.Graph.{pair_eq}
use cs305_2026spring_project.Topology.State.{Host, Link, Controller, update_topology}
use cs305_2026spring_project.Topology.Events.{
  Handled, registrable, register, already, switch_features_handler, install_table_miss,
  handle_switch_add, handle_switch_delete, handle_host_add, handle_link_add, handle_link_delete,
  keep_links, drop_switch, drop_port_links, drop_port_hosts, port_gone, handle_port_modify,
  modified, deleted, other_reason, port_status_handler, register_arp_host, remove_host,
  remove_hosts,
}
use cs305_2026spring_project.Topology.Probe.{renew_links, learn_with, learn_link}
use cs305_2026spring_project.Topology.Consistent.{Registered}
use cs305_2026spring_project.Topology.Reachable.{
  Step, Reachable, start, next, switch_features, switch_enter, switch_leave, host_added, link_added,
  link_deleted, port_modified, port_status, probed, arp_seen, reachable-IsConsistent,
}

abbrev IsNamed : Controller → Type 0
IsNamed c = IsDict c.hosts

removed-IsNamed :
    (purge : Text → Dict (ℕ × ℕ) Text → Dict (ℕ × ℕ) Text) (mac : Text) (c : Controller)
    (o : Option Host)
    → IsNamed c
    → IsNamed (remove_host purge mac c o)
unfolding remove_host
removed-IsNamed purge mac c none u = u
removed-IsNamed purge mac c (some host) u = erase-IsDict mac c.hosts u

all_removed-IsNamed :
    (purge : Text → Dict (ℕ × ℕ) Text → Dict (ℕ × ℕ) Text) (macs : List Text) (c : Controller)
    → IsNamed c
    → IsNamed (remove_hosts purge macs c)
unfolding remove_hosts
all_removed-IsNamed purge [] c u = u
all_removed-IsNamed purge (mac ∷ macs) c u =
    all_removed-IsNamed purge macs (remove_host purge mac c (lookup mac c.hosts))
      (removed-IsNamed purge mac c (lookup mac c.hosts) u)

registered-IsNamed :
    (mac ip : Text) (dpid port : ℕ) (c : Controller)
    → IsNamed c
    → IsNamed (register mac ip dpid port c)
unfolding register
registered-IsNamed mac ip dpid port c u = insert-IsDict mac _ c.hosts u

either-IsNamed :
    (t b b' : Bool) (c c' : Controller)
    → IsNamed c
    → IsNamed c'
    → IsNamed (if◌then◌else◌ {A = Handled} t (c, b) (c', b')).0
either-IsNamed true b b' c c' u u' = u
either-IsNamed false b b' c c' u u' = u'

host_added-IsNamed :
    (mac : Text) (ips : List Text) (dpid port : ℕ) (c : Controller)
    → IsNamed c
    → IsNamed (handle_host_add mac ips (some (dpid, port)) c).0
unfolding handle_host_add
host_added-IsNamed mac [] dpid port c u = u
host_added-IsNamed mac (ip ∷ ips) dpid port c u =
    either-IsNamed (registrable mac ip) true false (register mac ip dpid port c) c
      (registered-IsNamed mac ip dpid port c u) u

gone-IsNamed : (dpid port : ℕ) (c : Controller) → IsNamed c → IsNamed (port_gone dpid port c).0
unfolding port_gone drop_port_hosts drop_port_links keep_links update_topology
gone-IsNamed dpid port c u = all_removed-IsNamed _ _ _ u

learned-IsNamed :
    (src src_port local local_port : ℕ) (c : Controller) (o : Option (List Link × Bool))
    → IsNamed c
    → IsNamed (learn_with src src_port local local_port c o).0
unfolding learn_with update_topology
learned-IsNamed src src_port local local_port c none u = u
learned-IsNamed src src_port local local_port c (some (ls, changed)) u = u

Step-IsNamed : (c c' : Controller) → Step c c' → IsNamed c → IsNamed c'
unfolding switch_features_handler handle_switch_add install_table_miss handle_switch_delete
    handle_link_add handle_link_delete handle_port_modify port_status_handler drop_port_links
    keep_links drop_switch update_topology learn_link register_arp_host
Step-IsNamed c _ (switch_features dpid datapath) u = u
Step-IsNamed c _ (switch_enter dpid datapath) u = u
Step-IsNamed c _ (switch_leave dpid) u = all_removed-IsNamed _ _ _ u
Step-IsNamed c _ (host_added mac ips dpid port at_dpid) u = host_added-IsNamed mac ips dpid port c u
Step-IsNamed c _ (link_added l at_src at_dst) u = u
Step-IsNamed c _ (link_deleted src dst) u = u
Step-IsNamed c _ (port_modified true dpid port) u = gone-IsNamed dpid port c u
Step-IsNamed c _ (port_modified false dpid port) u = u
Step-IsNamed c _ (port_status (modified true) dpid port) u = u
Step-IsNamed c _ (port_status (modified false) dpid port) u = u
Step-IsNamed c _ (port_status deleted dpid port) u = gone-IsNamed dpid port c u
Step-IsNamed c _ (port_status other_reason dpid port) u = u
Step-IsNamed c _ (probed src src_port local local_port at_src at_local) u =
    learned-IsNamed src src_port local local_port c
      (renew_links src src_port local local_port c.links) u
Step-IsNamed c _ (arp_seen controller_mac mac ip dpid port at_dpid) u =
    either-IsNamed (not (registrable mac ip) || mac == controller_mac || already mac ip dpid c)
      false true c (register mac ip dpid port c) u (registered-IsNamed mac ip dpid port c u)

reachable-IsNamed :
    {gateways : Dict Text Text} {weights : Dict (ℕ × ℕ) ℕ} {algorithm : Text} (c : Controller)
    → Reachable gateways weights algorithm c
    → IsNamed c
reachable-IsNamed _ start = tt
reachable-IsNamed _ (next r s) = Step-IsNamed _ _ s (reachable-IsNamed _ r)

-- Every host of the list is at a registered switch.
pub reachable-housed :
    {gateways : Dict Text Text} {weights : Dict (ℕ × ℕ) ℕ} {algorithm : Text} (c : Controller)
    → Reachable gateways weights algorithm c
    → (mac : Text) (h : Host) → Memᴰ (mac, h) c.hosts
    → Registered h.dpid c
reachable-housed {gateways} {weights} {algorithm} c r mac h m =
    (reachable-IsConsistent gateways weights algorithm c r).placed.housed mac h
      (lookup-Memᴰ mac h c.hosts (reachable-IsNamed c r) m)
