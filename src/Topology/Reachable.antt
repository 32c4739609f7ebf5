-- ===== src/Topology/Reachable.antt =====
-- The states that the event handlers of ControllerApp, controller.py, reach from the one of
-- `__init__`.

use mathlib.Core.List.Memᴰ
use cs305_2026spring_project.Prelude.{
  ℕ, refl, Bool, true, false, not, ◌||◌, if◌then◌else◌, some, List, [], ◌∷◌, Text, nat_eq, text_eq,
  ◌==◌,
}
use cs305_2026spring_project.Prelude.Table.{Dict, lookup}
use cs305_2026spring_project.Routing.Graph.{pair_eq}
use cs305_2026spring_project.Topology.State.{Link, Controller, add_links}
use cs305_2026spring_project.Topology.Events.{
  Handled, registrable, register, already, switch_features_handler, handle_switch_add,
  handle_switch_delete, handle_host_add, handle_link_add, handle_link_delete, other_way, off_port,
  drop_port_links, drop_port_hosts, port_gone, handle_port_modify, Reason, modified, deleted,
  other_reason, port_status_handler, register_arp_host,
}
use cs305_2026spring_project.Topology.Probe.{renew_links, learn_link}
use cs305_2026spring_project.Topology.Consistent.{Registered, IsPlaced}
use cs305_2026spring_project.Topology.Kept.{
  IsConsistent, updated-IsConsistent, kept-IsPlaced, removed-IsPlaced, installed-IsConsistent,
  deleted-IsPlaced, register-IsConsistent, added-IsPlaced,
}
use cs305_2026spring_project.Topology.Learned.{learned-IsConsistent}

-- `__init__`, with the addresses of `_register_gateway_arp` and what the files configure.
abbrev pub initial : Dict Text Text → Dict (ℕ × ℕ) ℕ → Text → Controller
initial gateways weights algorithm = record {
  hosts = [];
  switches = [];
  ofctls = [];
  all_datapaths = [];
  links = [];
  adjacency = [];
  ip_to_mac = gateways;
  mac_to_ip = [];
  port_to_mac = [];
  link_weights = weights;
  routing_algorithm = algorithm;
}

-- An event that is handled. Hosts, links and probes are reported at registered switches.
pub data Step (c : Controller) : Controller → Type 0 where
  switch_features : (dpid datapath : ℕ) → Step c (switch_features_handler dpid datapath c).0
  switch_enter : (dpid datapath : ℕ) → Step c (handle_switch_add dpid datapath c).0
  switch_leave : (dpid : ℕ) → Step c (handle_switch_delete dpid c).0
  host_added :
      (mac : Text) (ips : List Text) (dpid port : ℕ)
      → Registered dpid c
      → Step c (handle_host_add mac ips (some (dpid, port)) c).0
  link_added :
      (l : Link)
      → Registered l.src_dpid c
      → Registered l.dst_dpid c
      → Step c (handle_link_add l c).0
  link_deleted : (src dst : ℕ) → Step c (handle_link_delete src dst c).0
  port_modified : (down : Bool) (dpid port : ℕ) → Step c (handle_port_modify down dpid port c).0
  port_status :
      (reason : Reason) (dpid port : ℕ) → Step c (port_status_handler reason dpid port c).0
  probed :
      (src src_port local local_port : ℕ)
      → Registered src c
      → Registered local c
      → Step c (learn_link src src_port local local_port c).0
  arp_seen :
      (controller_mac mac ip : Text) (dpid port : ℕ)
      → Registered dpid c
      → Step c (register_arp_host controller_mac mac ip dpid port c).0

pub data Reachable (gateways : Dict Text Text) (weights : Dict (ℕ × ℕ) ℕ) (algorithm : Text)
    : Controller → Type 0 where
  start : Reachable gateways weights algorithm (initial gateways weights algorithm)
  next :
      {c c' : Controller}
      → Reachable gateways weights algorithm c
      → Step c c'
      → Reachable gateways weights algorithm c'

gone-IsConsistent :
    (dpid port : ℕ) (c : Controller) → IsPlaced c → IsConsistent (port_gone dpid port c).0
unfolding port_gone drop_port_hosts drop_port_links
gone-IsConsistent dpid port c p =
    updated-IsConsistent _ (removed-IsPlaced _ _ _ (kept-IsPlaced (off_port dpid port) c p))

either-IsConsistent :
    (t u : Bool) (c c' : Controller)
    → IsConsistent c
    → IsConsistent c'
    → IsConsistent (if◌then◌else◌ {A = Handled} t (c, u) (c', not u)).0
either-IsConsistent true u c c' i j = i
either-IsConsistent false u c c' i j = j

host_added-IsConsistent :
    (mac : Text) (ips : List Text) (dpid port : ℕ) (c : Controller)
    → Registered dpid c
    → IsConsistent c
    → IsConsistent (handle_host_add mac ips (some (dpid, port)) c).0
unfolding handle_host_add
host_added-IsConsistent mac [] dpid port c at_dpid i = i
host_added-IsConsistent mac (ip ∷ ips) dpid port c at_dpid i =
    either-IsConsistent (registrable mac ip) true (register mac ip dpid port c) c
      (register-IsConsistent mac ip dpid port c at_dpid i) i

-- An event that is handled keeps the view of the network consistent.
pub Step-IsConsistent : (c c' : Controller) → Step c c' → IsConsistent c → IsConsistent c'
unfolding switch_features_handler handle_switch_add handle_switch_delete handle_link_add
    handle_link_delete handle_port_modify port_status_handler drop_port_links learn_link
    register_arp_host
Step-IsConsistent c _ (switch_features dpid datapath) i = installed-IsConsistent dpid datapath c i
Step-IsConsistent c _ (switch_enter dpid datapath) i = installed-IsConsistent dpid datapath c i
Step-IsConsistent c _ (switch_leave dpid) i =
    updated-IsConsistent _ (deleted-IsPlaced dpid c i.placed)
Step-IsConsistent c _ (host_added mac ips dpid port at_dpid) i =
    host_added-IsConsistent mac ips dpid port c at_dpid i
Step-IsConsistent c _ (link_added l at_src at_dst) i =
    updated-IsConsistent _ (added-IsPlaced l c at_src at_dst i.placed)
Step-IsConsistent c _ (link_deleted src dst) i =
    updated-IsConsistent _ (kept-IsPlaced (other_way src dst) c i.placed)
Step-IsConsistent c _ (port_modified true dpid port) i = gone-IsConsistent dpid port c i.placed
Step-IsConsistent c _ (port_modified false dpid port) i = i
Step-IsConsistent c _ (port_status (modified true) dpid port) i =
    updated-IsConsistent _ (kept-IsPlaced (off_port dpid port) c i.placed)
Step-IsConsistent c _ (port_status (modified false) dpid port) i = i
Step-IsConsistent c _ (port_status deleted dpid port) i = gone-IsConsistent dpid port c i.placed
Step-IsConsistent c _ (port_status other_reason dpid port) i = i
Step-IsConsistent c _ (probed src src_port local local_port at_src at_local) i =
    learned-IsConsistent src src_port local local_port c
      (renew_links src src_port local local_port c.links) refl at_src at_local i.placed
Step-IsConsistent c _ (arp_seen controller_mac mac ip dpid port at_dpid) i =
    either-IsConsistent (not (registrable mac ip) || mac == controller_mac || already mac ip dpid c)
      false c (register mac ip dpid port c) i (register-IsConsistent mac ip dpid port c at_dpid i)

initial-IsConsistent :
    (gateways : Dict Text Text) (weights : Dict (ℕ × ℕ) ℕ) (algorithm : Text)
    → IsConsistent (initial gateways weights algorithm)
unfolding add_links lookup
initial-IsConsistent gateways weights algorithm = record {
  placed = record { joined = λ l m. absurd (Memᴰ.not-nil m); housed = λ mac h e. cc };
  current = refl;
}

-- In every state reached by handled events that report hosts, links and probes at registered
-- switches, every link and host is at registered switches and the adjacency is the one that the
-- links give.
pub reachable-IsConsistent :
    (gateways : Dict Text Text) (weights : Dict (ℕ × ℕ) ℕ) (algorithm : Text) (c : Controller)
    → Reachable gateways weights algorithm c
    → IsConsistent c
reachable-IsConsistent gateways weights algorithm _ start =
    initial-IsConsistent gateways weights algorithm
reachable-IsConsistent gateways weights algorithm _ (next r s) =
    Step-IsConsistent _ _ s (reachable-IsConsistent gateways weights algorithm _ r)
