-- ===== src/Dispatch.antt =====
-- packet_in_handler of controller.py, which hands each packet to the DHCP server, the DNS server, the
-- address translation or the view of the network. What os-ken's packet classes parse is a record.
mod Keeps
mod Tests
use cs305_2026spring_project.Prelude.{
  ◌++◌, ℕ, Bool, true, false, not, ◌&&◌, if◌then◌else◌, leb, nat_beq, Option, none, some, List, [],
  ◌∷◌, map, Bytes, Text, truthy, length, nat_eq, text_eq, ◌==◌, ◌>>=◌,
}
use cs305_2026spring_project.Prelude.Table.{Dict, lookup, contains}
use cs305_2026spring_project.Dns.Message.{handle_dns, Reply}
use cs305_2026spring_project.Dhcp.State.{State}
use cs305_2026spring_project.Dhcp.Probe.{mark_arp_conflict}
use cs305_2026spring_project.Nat.Table.{Table, Entry}
use cs305_2026spring_project.Nat.Handler.{Config, handle_inbound, handle_outbound}
use cs305_2026spring_project.Topology.State.{Host, Controller}
use cs305_2026spring_project.Topology.Events.{Handled, register_arp_host}
use cs305_2026spring_project.Topology.Probe.{is_probe, parse_probe, learn_link}
use cs305_2026spring_project.Topology.Flows.{
  Addresses, dhcp_network, ip_in_network, Flow, install_host_flows,
}

-- `arp.arp`
pub record Arp : Type 0 where
  pub opcode : ℕ
  pub src_mac : Text
  pub src_ip : Text
  pub dst_ip : Text

-- What `packet.Packet(data=msg.data)` finds: whether there is a DHCP message, the destination of the
-- IPv4 header, the destination port of the UDP header, the source of the Ethernet header.
pub record Frame : Type 0 where
  pub has_dhcp : Bool
  pub ipv4_dst : Option Text
  pub udp_dst_port : Option ℕ
  pub eth_src : Option Text
  pub arp : Option Arp
  pub raw : Bytes

-- The state of the three classes that the handler reaches.
pub record App : Type 0 where
  pub view : Controller
  pub nat : Table
  pub dhcp : State

-- What the handler starts or sends. A packet without a port goes to OFPP_ALL.
pub data Out : Type 0 where
  spawned_dhcp : Out
  dns_answer : Reply → Out
  sent : Bytes → Option ℕ → Out
  arp_reply : Text → Text → Text → Text → Out
  flow : Flow → Out

-- The handler returns, also after it has logged an exception, with what it has sent; the flows raise
-- or need more fuel, and what is sent until then is left out; or the translation does not return.
pub data Ending : Type 0 where
  handled : App → List Out → Ending
  cut_off : App → Ending
  hangs : Ending

-- The configured addresses, `NATConfig` in binary, the controller's MAC, and `addrconv.mac.text_to_bin`,
-- which raises for what is no address.
pub record Setup : Type 0 where
  pub addresses : Addresses
  pub config : Config
  pub controller_mac : Text
  pub text_to_bin : Text → Option Bytes

-- The loop of `_get_host_port`.
unfoldable pub port_by_ip : Text → Dict Text Host → Option ℕ
port_by_ip ip [] = none
port_by_ip ip ((mac, h) ∷ hosts) =
    let later = port_by_ip ip hosts in if h.ip == ip then some h.port else later

unfoldable pub port_of : Text → Dict Text Host → Option Host → Option ℕ
port_of ip hosts none = port_by_ip ip hosts
port_of ip hosts (some h) = some h.port

-- `mac and mac in self.hosts`
unfoldable pub known_host : Controller → Option Text → Option Host
known_host c none = none
known_host c (some mac) = if truthy mac then lookup mac c.hosts else none

unfoldable pub get_host_port : Controller → Text → Option ℕ
get_host_port c ip = port_of ip c.hosts (known_host c (lookup ip c.ip_to_mac))

-- `dst_mac_bytes`: empty without a MAC.
unfoldable pub dst_mac_bytes : Setup → Option Text → Option Bytes
dst_mac_bytes setup none = some []
dst_mac_bytes setup (some mac) = if truthy mac then setup.text_to_bin mac else some []

unfoldable pub answer_inbound_packet : App → Option (Bytes × Entry) × Table → Ending
answer_inbound_packet app (none, t) = handled (record app { nat = t }) []
answer_inbound_packet app (some (packet, entry), t) =
    handled (record app { nat = t }) (sent packet (get_host_port app.view entry.src_ip) ∷ [])

unfoldable pub answer_outbound_packet : App → Option ℕ → Option (Option Bytes × Table) → Ending
answer_outbound_packet app port none = hangs
answer_outbound_packet app port (some (none, t)) = handled (record app { nat = t }) []
answer_outbound_packet app port (some (some packet, t)) =
    handled (record app { nat = t }) (sent packet port ∷ [])

unfoldable pub outbound_packet : ℕ → Setup → Frame → Text → App → Option Bytes → Ending
outbound_packet fuel setup f dst app none = handled app []
outbound_packet fuel setup f dst app (some dst_mac) =
    answer_outbound_packet app (get_host_port app.view dst)
      (handle_outbound fuel setup.config f.raw dst_mac app.nat)

-- After a change of the view: the flows, if `_install_host_flows` is called, and what follows.
unfoldable pub after_flows : App → (List Out → Ending) → Option (List Flow) → Ending
after_flows app next none = cut_off app
after_flows app next (some flows) = next (map flow flows)

unfoldable pub viewed : ℕ → Setup → App → (App → List Out → Ending) → Handled → Ending
viewed fuel setup app next (c, false) = next (record app { view = c }) []
viewed fuel setup app next (c, true) =
    after_flows (record app { view = c }) (next (record app { view = c }))
      (install_host_flows fuel setup.addresses c)

-- The reply to an ARP request for an address of self.ip_to_mac; `eth.src` raises without `eth`.
unfoldable pub reply_arp : Arp → Option Text → App → List Out → Option Text → Ending
reply_arp a sender app outs none = handled app outs
reply_arp a none app outs (some target_mac) = handled app outs
reply_arp a (some sender) app outs (some target_mac) =
    handled app (outs ++ (arp_reply target_mac a.dst_ip sender a.src_ip ∷ []))

unfoldable pub arp_target : Arp → Option Text → App → List Out → Ending
arp_target a sender app outs = reply_arp a sender app outs (lookup a.dst_ip app.view.ip_to_mac)

unfoldable pub on_arp_request : ℕ → Setup → ℕ → ℕ → Arp → App → Option Text → Ending
on_arp_request fuel setup dpid port a app none = arp_target a none app []
on_arp_request fuel setup dpid port a app (some src) =
    viewed fuel setup app (arp_target a (some src))
      (register_arp_host setup.controller_mac src a.src_ip dpid port app.view)

unfoldable pub on_arp_reply : ℕ → Setup → ℕ → ℕ → Arp → App → Ending
on_arp_reply fuel setup dpid port a app =
    let marked = record app { dhcp = mark_arp_conflict a.src_ip app.dhcp } in
    viewed fuel setup marked handled
      (register_arp_host setup.controller_mac a.src_mac a.src_ip dpid port app.view)

-- The opcode is ARP_REQUEST or ARP_REPLY.
unfoldable pub on_arp : ℕ → Setup → ℕ → ℕ → Frame → App → Option Arp → Ending
on_arp fuel setup dpid port f app none = handled app []
on_arp fuel setup dpid port f app (some a) =
    let request = on_arp_request fuel setup dpid port a app f.eth_src in
    let answer = on_arp_reply fuel setup dpid port a app in
    if nat_beq a.opcode 1 then request else if nat_beq a.opcode 2 then answer else handled app []

unfoldable pub on_probe : ℕ → Setup → ℕ → ℕ → App → Option (ℕ × ℕ) → Ending
on_probe fuel setup dpid port app none = handled app []
on_probe fuel setup dpid port app (some (src, src_port)) =
    viewed fuel setup app handled (learn_link src src_port dpid port app.view)

-- The probes and ARP, after the IPv4 branches.
unfoldable pub on_link : ℕ → Setup → ℕ → ℕ → Frame → App → Ending
on_link fuel setup dpid port f app =
    let probe = on_probe fuel setup dpid port app (parse_probe f.raw) in
    let other = on_arp fuel setup dpid port f app f.arp in if is_probe f.raw then probe else other

-- The destination is neither the controller's nor in the DHCP network.
unfoldable pub leaves : Setup → Text → Text → ℕ → Option Bool
leaves setup dst net prefix =
    let test = ip_in_network dst net prefix >>= λ inside. some (not inside) in
    if dst == setup.addresses.controller_ip then some false else test

unfoldable pub outward : ℕ → Setup → ℕ → ℕ → Frame → Text → App → Option Bool → Ending
outward fuel setup dpid port f dst app none = handled app []
outward fuel setup dpid port f dst app (some false) = on_link fuel setup dpid port f app
outward fuel setup dpid port f dst app (some true) =
    outbound_packet fuel setup f dst app (dst_mac_bytes setup (lookup dst app.view.ip_to_mac))

unfoldable pub on_ipv4 : ℕ → Setup → ℕ → ℕ → Frame → Text → App → Option (Text × ℕ) → Ending
on_ipv4 fuel setup dpid port f dst app none = handled app []
on_ipv4 fuel setup dpid port f dst app (some (net, prefix)) =
    let inward = answer_inbound_packet app (handle_inbound setup.config f.raw app.nat) in
    let other = outward fuel setup dpid port f dst app (leaves setup dst net prefix) in
    if dst == setup.addresses.external_ip then inward else other

-- `pkt_udp and pkt_udp.dst_port == 53`
unfoldable pub to_dns : Option ℕ → Bool
to_dns none = false
to_dns (some port) = nat_beq port 53

-- DNS, without an Ethernet header nothing.
unfoldable pub on_dns : ℕ → Frame → App → Option Text → Ending
on_dns fuel f app none = handled app []
on_dns fuel f app (some src) = handled app (dns_answer (handle_dns fuel app.dhcp.dns f.raw) ∷ [])

unfoldable pub on_ip : ℕ → Setup → ℕ → ℕ → Frame → App → Option Text → Ending
on_ip fuel setup dpid port f app none = on_link fuel setup dpid port f app
on_ip fuel setup dpid port f app (some dst) =
    let query = on_dns fuel f app f.eth_src in
    let other = on_ipv4 fuel setup dpid port f dst app (dhcp_network setup.addresses) in
    if to_dns f.udp_dst_port then query else other

-- A packet that arrives at a port of the switch `dpid`. The DHCP server runs in its own greenlet.
unfoldable pub packet_in_handler : ℕ → Setup → ℕ → ℕ → Frame → App → Ending
packet_in_handler fuel setup dpid port f app =
    let other = on_ip fuel setup dpid port f app f.ipv4_dst in
    if f.has_dhcp then handled app (spawned_dhcp ∷ []) else other
