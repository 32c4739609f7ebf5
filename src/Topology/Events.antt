-- ===== src/Topology/Events.antt =====
-- The event handlers of ControllerApp, controller.py. Each ends in the state and whether it calls
-- `_install_host_flows` on it, which changes no field.
use cs305_2026spring_project.Prelude.{
  ℕ, Bool, true, false, not, ◌&&◌, ◌||◌, if◌then◌else◌, Option, none, some, List, [], ◌∷◌, ◌++◌,
  Text, codes, truthy, nat_eq, text_eq, ◌==◌,
}
use cs305_2026spring_project.Prelude.Table.{Dict, lookup, insert, erase, contains}
use cs305_2026spring_project.Routing.Graph.{pair_eq}
use cs305_2026spring_project.Topology.State.{Host, Link, Controller, update_topology}

abbrev pub Handled : Type 0
Handled = Controller × Bool

-- `[x for x in xs if keep(x)]`
unfoldable pub select {ℓ} : {A : Type ℓ} → (A → Bool) → List A → List A
select keep [] = []
select keep (x ∷ xs) = let rest = select keep xs in if keep x then x ∷ rest else rest

-- `_install_table_miss`
unfoldable pub install_table_miss : ℕ → ℕ → Controller → Controller
install_table_miss dpid datapath c = record c {
  ofctls = insert dpid datapath c.ofctls;
  switches = insert dpid datapath c.switches;
  all_datapaths = insert dpid datapath c.all_datapaths;
}

unfoldable pub switch_features_handler : ℕ → ℕ → Controller → Handled
switch_features_handler dpid datapath c = (install_table_miss dpid datapath c, false)

unfoldable pub handle_switch_add : ℕ → ℕ → Controller → Handled
handle_switch_add dpid datapath c = (install_table_miss dpid datapath c, true)

-- What of self.port_to_mac goes with a host: the entries that hold it, or one key.
unfoldable pub purge_mac : Text → Dict (ℕ × ℕ) Text → Dict (ℕ × ℕ) Text
purge_mac mac entries = select (λ (entry : (ℕ × ℕ) × Text). not (entry.1 == mac)) entries

-- The body of `for mac in to_remove`, where `mac` is a key of self.hosts.
unfoldable pub remove_host :
    (Text → Dict (ℕ × ℕ) Text → Dict (ℕ × ℕ) Text) → Text → Controller → Option Host → Controller
remove_host purge mac c none = c
remove_host purge mac c (some host) = record c {
  hosts = erase mac c.hosts;
  ip_to_mac = erase host.ip c.ip_to_mac;
  mac_to_ip = erase mac c.mac_to_ip;
  port_to_mac = purge mac c.port_to_mac;
}

unfoldable pub remove_hosts :
    (Text → Dict (ℕ × ℕ) Text → Dict (ℕ × ℕ) Text) → List Text → Controller → Controller
remove_hosts purge [] c = c
remove_hosts purge (mac ∷ macs) c =
    remove_hosts purge macs (remove_host purge mac c (lookup mac c.hosts))

-- `[mac for mac, info in self.hosts.items() if gone(info)]`
unfoldable pub macs_of : (Host → Bool) → Dict Text Host → List Text
macs_of gone [] = []
macs_of gone ((mac, host) ∷ hosts) =
    let rest = macs_of gone hosts in if gone host then mac ∷ rest else rest

unfoldable pub keep_links : (Link → Bool) → Controller → Controller
keep_links keep c = record c { links = select keep c.links }

abbrev pub lives_at : ℕ → Host → Bool
lives_at dpid h = h.dpid == dpid

abbrev pub avoids : ℕ → Link → Bool
avoids dpid l = not (l.src_dpid == dpid) && not (l.dst_dpid == dpid)

unfoldable pub drop_switch : ℕ → Controller → Controller
drop_switch dpid c = record c {
  switches = erase dpid c.switches;
  ofctls = erase dpid c.ofctls;
  all_datapaths = erase dpid c.all_datapaths;
}

unfoldable pub handle_switch_delete : ℕ → Controller → Handled
handle_switch_delete dpid c =
    let dropped = drop_switch dpid c in
    let hostless = remove_hosts purge_mac (macs_of (lives_at dpid) dropped.hosts) dropped in
    (update_topology (keep_links (avoids dpid) hostless), true)

-- The four assignments of a registration.
unfoldable pub register : Text → Text → ℕ → ℕ → Controller → Controller
register mac ip dpid port c = record c {
  hosts = insert mac (record { ip = ip; dpid = dpid; port = port }) c.hosts;
  ip_to_mac = insert ip mac c.ip_to_mac;
  mac_to_ip = insert mac ip c.mac_to_ip;
  port_to_mac = insert (dpid, port) mac c.port_to_mac;
}

-- `host_mac and host_ip and host_ip != '0.0.0.0'`, of `_register_arp_host` too.
unfoldable pub registrable : Text → Text → Bool
registrable mac ip = truthy mac && truthy ip && not (ip == codes "0.0.0.0")

-- The event's MAC, `ipv4` list and port, if any.
unfoldable pub handle_host_add : Text → List Text → Option (ℕ × ℕ) → Controller → Handled
handle_host_add mac [] at_port c = (c, false)
handle_host_add mac (ip ∷ ips) none c = (c, false)
handle_host_add mac (ip ∷ ips) (some (dpid, port)) c =
    if registrable mac ip then (register mac ip dpid port c, true) else (c, false)

unfoldable pub handle_link_add : Link → Controller → Handled
handle_link_add l c = (update_topology (record c { links = c.links ++ (l ∷ []) }), true)

abbrev pub other_way : ℕ → ℕ → Link → Bool
other_way src dst l = not (l.src_dpid == src && l.dst_dpid == dst)

unfoldable pub handle_link_delete : ℕ → ℕ → Controller → Handled
handle_link_delete src dst c = (update_topology (keep_links (other_way src dst) c), true)

abbrev pub off_port : ℕ → ℕ → Link → Bool
off_port dpid port l =
    not ((l.src_dpid == dpid && l.src_port == port) || (l.dst_dpid == dpid && l.dst_port == port))

abbrev pub sits_at : ℕ → ℕ → Host → Bool
sits_at dpid port h = h.dpid == dpid && h.port == port

unfoldable pub drop_port_links : ℕ → ℕ → Controller → Controller
drop_port_links dpid port c = keep_links (off_port dpid port) c

unfoldable pub drop_port_hosts : ℕ → ℕ → Controller → Controller
drop_port_hosts dpid port c =
    remove_hosts (λ mac entries. erase (dpid, port) entries) (macs_of (sits_at dpid port) c.hosts) c

-- What EventPortModify of a port that is down and OFPPR_DELETE do.
unfoldable pub port_gone : ℕ → ℕ → Controller → Handled
port_gone dpid port c =
    (update_topology (drop_port_hosts dpid port (drop_port_links dpid port c)), true)

unfoldable pub handle_port_modify : Bool → ℕ → ℕ → Controller → Handled
handle_port_modify true dpid port c = port_gone dpid port c
handle_port_modify false dpid port c = (c, false)

-- The reason of an OFPT_PORT_STATUS, with whether OFPPS_LINK_DOWN is set.
pub data Reason : Type 0 where
  modified : Bool → Reason
  deleted : Reason
  other_reason : Reason

unfoldable pub port_status_handler : Reason → ℕ → ℕ → Controller → Handled
port_status_handler (modified true) dpid port c =
    (update_topology (drop_port_links dpid port c), true)
port_status_handler (modified false) dpid port c = (c, false)
port_status_handler deleted dpid port c = port_gone dpid port c
port_status_handler other_reason dpid port c = (c, false)

-- `src_ip in self.ip_to_mac and self.hosts.get(src_mac, {}).get('dpid') == dpid`
unfoldable pub already : Text → Text → ℕ → Controller → Bool
already mac ip dpid c =
    contains ip c.ip_to_mac
    && (elim (lookup mac c.hosts) [ none ↦ false | some host ↦ host.dpid == dpid ])

-- `_register_arp_host`, with `DHCPConfig.controller_macAddr`.
unfoldable pub register_arp_host : Text → Text → Text → ℕ → ℕ → Controller → Handled
register_arp_host controller_mac mac ip dpid port c =
    if not (registrable mac ip) || mac == controller_mac || already mac ip dpid c
    then (c, false)
    else (register mac ip dpid port c, true)
