-- ===== src/Dispatch/Keeps.antt =====
-- Whatever packet comes in, packet_in_handler of controller.py keeps the view of the network and the
-- index of the address translation consistent.
use cs305_2026spring_project.Prelude.{
  inl, inr, Bool-cases, ◌≡◌, ℕ, Bool, true, false, if◌then◌else◌, Option, none, some, List, [],
  Bytes, Text, nat_beq, nat_eq, text_eq, ◌==◌,
}
use cs305_2026spring_project.Prelude.Table.{lookup}
use cs305_2026spring_project.Nat.Table.{Table, Entry}
use cs305_2026spring_project.Nat.Handler.{handle_inbound, handle_outbound}
use cs305_2026spring_project.Nat.Index.{IsIndexed}
use cs305_2026spring_project.Nat.Packet.{parse_eth_ip}
use cs305_2026spring_project.Nat.Kept.{Kept, outbound_from-Kept, inbound_from-IsIndexed}
use cs305_2026spring_project.Topology.State.{Controller}
use cs305_2026spring_project.Topology.Events.{Handled, register_arp_host}
use cs305_2026spring_project.Topology.Probe.{is_probe, parse_probe}
use cs305_2026spring_project.Topology.Consistent.{Registered}
use cs305_2026spring_project.Topology.Kept.{IsConsistent}
use cs305_2026spring_project.Topology.Reachable.{probed, arp_seen, Step-IsConsistent}
use cs305_2026spring_project.Topology.Flows.{Flow, dhcp_network, install_host_flows}
use cs305_2026spring_project.Dispatch.{
  Arp, Frame, App, Out, Ending, handled, cut_off, hangs, Setup, answer_inbound_packet,
  answer_outbound_packet, outbound_packet, after_flows, viewed, reply_arp, arp_target,
  on_arp_request, on_arp_reply, on_arp, on_probe, on_link, leaves, outward, on_ipv4, to_dns, on_dns,
  on_ip, packet_in_handler, dst_mac_bytes, get_host_port,
}

-- The view and the address translation are consistent.
pub record IsSound (app : App) : Type 0 where
  pub view : IsConsistent app.view
  pub nat : IsIndexed app.nat

-- So they are however the handler ends, if it does.
abbrev pub Ends : Ending → Type 0
Ends (handled app outs) = IsSound app
Ends (cut_off app) = IsSound app
Ends hangs = Unit

Ends-if : (b : Bool) (r q : Ending) → Ends r → Ends q → Ends (if b then r else q)
Ends-if true r q h k = h
Ends-if false r q h k = k

-- A probe names a registered switch.
abbrev pub NamesSwitch : Controller → Option (ℕ × ℕ) → Type 0
NamesSwitch c none = Unit
NamesSwitch c (some (src, src_port)) = Registered src c

module _ (fuel : ℕ) (setup : Setup) (dpid port : ℕ) where
  inbound-Ends :
      (app : App) (r : Option (Bytes × Entry) × Table)
      → IsSound app
      → IsIndexed r.1
      → Ends (answer_inbound_packet app r)
  unfolding answer_inbound_packet
  inbound-Ends app (none, t) i h = record { view = i.view; nat = h }
  inbound-Ends app (some (packet, entry), t) i h = record { view = i.view; nat = h }

  outbound-Ends :
      (app : App) (out : Option ℕ) (r : Option (Option Bytes × Table))
      → IsSound app
      → Kept r
      → Ends (answer_outbound_packet app out r)
  unfolding answer_outbound_packet Kept
  outbound-Ends app out none i h = tt
  outbound-Ends app out (some (none, t)) i h = record { view = i.view; nat = h }
  outbound-Ends app out (some (some packet, t)) i h = record { view = i.view; nat = h }

  outbound_packet-Ends :
      (f : Frame) (dst : Text) (app : App) (mac : Option Bytes)
      → IsSound app
      → Ends (outbound_packet fuel setup f dst app mac)
  unfolding outbound_packet handle_outbound
  outbound_packet-Ends f dst app none i = i
  outbound_packet-Ends f dst app (some mac) i =
      outbound-Ends app (get_host_port app.view dst) _ i
        (outbound_from-Kept fuel setup.config f.raw mac app.nat (parse_eth_ip f.raw) i.nat)

  after_flows-Ends :
      (app : App) (next : List Out → Ending) (o : Option (List Flow))
      → IsSound app
      → ((outs : List Out) → Ends (next outs))
      → Ends (after_flows app next o)
  unfolding after_flows
  after_flows-Ends app next none i h = i
  after_flows-Ends app next (some flows) i h = h _

  viewed-Ends :
      (app : App) (next : App → List Out → Ending) (c : Handled)
      → IsConsistent c.0
      → IsIndexed app.nat
      → ((app' : App) (outs : List Out) → IsSound app' → Ends (next app' outs))
      → Ends (viewed fuel setup app next c)
  unfolding viewed
  viewed-Ends app next (c, false) i n h = h _ [] (record { view = i; nat = n })
  viewed-Ends app next (c, true) i n h =
      after_flows-Ends _ _ (install_host_flows fuel setup.addresses c)
        (record { view = i; nat = n }) (λ outs. h _ outs (record { view = i; nat = n }))

  reply_arp-Ends :
      (a : Arp) (sender : Option Text) (app : App) (outs : List Out) (target : Option Text)
      → IsSound app
      → Ends (reply_arp a sender app outs target)
  unfolding reply_arp
  reply_arp-Ends a sender app outs none i = i
  reply_arp-Ends a none app outs (some target) i = i
  reply_arp-Ends a (some sender) app outs (some target) i = i

  registered_arp :
      (mac ip : Text) (c : Controller)
      → Registered dpid c
      → IsConsistent c
      → IsConsistent (register_arp_host setup.controller_mac mac ip dpid port c).0
  registered_arp mac ip c at_dpid i =
      Step-IsConsistent c _ (arp_seen setup.controller_mac mac ip dpid port at_dpid) i

  on_arp_request-Ends :
      (a : Arp) (app : App) (sender : Option Text)
      → Registered dpid app.view
      → IsSound app
      → Ends (on_arp_request fuel setup dpid port a app sender)
  unfolding on_arp_request arp_target
  on_arp_request-Ends a app none at_dpid i =
      reply_arp-Ends a none app [] (lookup a.dst_ip app.view.ip_to_mac) i
  on_arp_request-Ends a app (some src) at_dpid i =
      viewed-Ends app (arp_target a (some src)) _
        (registered_arp src a.src_ip app.view at_dpid i.view) i.nat
        (λ app' outs i'.
          reply_arp-Ends a (some src) app' outs (lookup a.dst_ip app'.view.ip_to_mac) i')

  on_arp_reply-Ends :
      (a : Arp) (app : App)
      → Registered dpid app.view
      → IsSound app
      → Ends (on_arp_reply fuel setup dpid port a app)
  unfolding on_arp_reply
  on_arp_reply-Ends a app at_dpid i =
      viewed-Ends _ handled _ (registered_arp a.src_mac a.src_ip app.view at_dpid i.view) i.nat
        (λ app' outs i'. i')

  on_arp-Ends :
      (f : Frame) (app : App) (a : Option Arp)
      → Registered dpid app.view
      → IsSound app
      → Ends (on_arp fuel setup dpid port f app a)
  unfolding on_arp
  on_arp-Ends f app none at_dpid i = i
  on_arp-Ends f app (some a) at_dpid i =
      Ends-if (nat_beq a.opcode 1) _ _ (on_arp_request-Ends a app f.eth_src at_dpid i)
        (Ends-if (nat_beq a.opcode 2) _ (handled app []) (on_arp_reply-Ends a app at_dpid i) i)

  on_probe-Ends :
      (app : App) (p : Option (ℕ × ℕ))
      → Registered dpid app.view
      → NamesSwitch app.view p
      → IsSound app
      → Ends (on_probe fuel setup dpid port app p)
  unfolding on_probe
  on_probe-Ends app none at_dpid at_src i = i
  on_probe-Ends app (some (src, src_port)) at_dpid at_src i =
      viewed-Ends app handled _
        (Step-IsConsistent app.view _ (probed src src_port dpid port at_src at_dpid) i.view) i.nat
        (λ app' outs i'. i')

  on_link-Ends :
      (f : Frame) (app : App)
      → Registered dpid app.view
      → (is_probe f.raw ≡ true → NamesSwitch app.view (parse_probe f.raw))
      → IsSound app
      → Ends (on_link fuel setup dpid port f app)
  unfolding on_link
  on_link-Ends f app at_dpid at_src i = elim (Bool-cases (is_probe f.raw)) [
    | inl probe ↦ rw probe (on_probe-Ends app (parse_probe f.raw) at_dpid (at_src probe) i)
    | inr other ↦ rw other (on_arp-Ends f app f.arp at_dpid i)
  ]

  outward-Ends :
      (f : Frame) (dst : Text) (app : App) (o : Option Bool)
      → Registered dpid app.view
      → (is_probe f.raw ≡ true → NamesSwitch app.view (parse_probe f.raw))
      → IsSound app
      → Ends (outward fuel setup dpid port f dst app o)
  unfolding outward
  outward-Ends f dst app none at_dpid at_src i = i
  outward-Ends f dst app (some false) at_dpid at_src i = on_link-Ends f app at_dpid at_src i
  outward-Ends f dst app (some true) at_dpid at_src i =
      outbound_packet-Ends f dst app (dst_mac_bytes setup (lookup dst app.view.ip_to_mac)) i

  on_ipv4-Ends :
      (f : Frame) (dst : Text) (app : App) (o : Option (Text × ℕ))
      → Registered dpid app.view
      → (is_probe f.raw ≡ true → NamesSwitch app.view (parse_probe f.raw))
      → IsSound app
      → Ends (on_ipv4 fuel setup dpid port f dst app o)
  unfolding on_ipv4 handle_inbound
  on_ipv4-Ends f dst app none at_dpid at_src i = i
  on_ipv4-Ends f dst app (some (net, prefix)) at_dpid at_src i =
      Ends-if (dst == setup.addresses.external_ip) _ _
        (inbound-Ends app (handle_inbound setup.config f.raw app.nat) i
          (inbound_from-IsIndexed setup.config f.raw app.nat (parse_eth_ip f.raw) i.nat))
        (outward-Ends f dst app (leaves setup dst net prefix) at_dpid at_src i)

  on_dns-Ends :
      (f : Frame) (app : App) (src : Option Text) → IsSound app → Ends (on_dns fuel f app src)
  unfolding on_dns
  on_dns-Ends f app none i = i
  on_dns-Ends f app (some src) i = i

  on_ip-Ends :
      (f : Frame) (app : App) (dst : Option Text)
      → Registered dpid app.view
      → (is_probe f.raw ≡ true → NamesSwitch app.view (parse_probe f.raw))
      → IsSound app
      → Ends (on_ip fuel setup dpid port f app dst)
  unfolding on_ip
  on_ip-Ends f app none at_dpid at_src i = on_link-Ends f app at_dpid at_src i
  on_ip-Ends f app (some dst) at_dpid at_src i =
      Ends-if (to_dns f.udp_dst_port) _ _ (on_dns-Ends f app f.eth_src i)
        (on_ipv4-Ends f dst app (dhcp_network setup.addresses) at_dpid at_src i)

-- Whatever packet comes in at a registered switch, if it is no link probe or names a registered
-- switch, then however packet_in_handler ends, every link and host is still at registered
-- switches, the adjacency is the one that the links give, and the index of the ports of the
-- address translation still leads each port to a connection that is translated to it.
pub packet_in_handler-Ends :
    (fuel : ℕ) (setup : Setup) (dpid port : ℕ) (f : Frame) (app : App)
    → Registered dpid app.view
    → (is_probe f.raw ≡ true → NamesSwitch app.view (parse_probe f.raw))
    → IsSound app
    → Ends (packet_in_handler fuel setup dpid port f app)
unfolding packet_in_handler
packet_in_handler-Ends fuel setup dpid port f app at_dpid at_src i =
    Ends-if f.has_dhcp (handled app _) _ i
      (on_ip-Ends fuel setup dpid port f app f.ipv4_dst at_dpid at_src i)
