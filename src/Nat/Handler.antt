-- ===== src/Nat/Handler.antt =====
-- nat.py, `handle_outbound` and `handle_inbound`: from a packet to the packet that is sent, and to
-- the table afterwards.
use cs305_2026spring_project.Prelude.{
  ℕ, ◌+◌, Option, none, some, Bytes, Text, ltb, nat_beq, ◌||◌, not, if◌then◌else◌, ◌>>=◌, ◌>>◌,
  require, length, get_elem?,
}
use cs305_2026spring_project.Codec.Pack.{unpack16}
use cs305_2026spring_project.Nat.Table.{
  Entry, Table, Conn, proto_icmp, proto_tcp, proto_udp, conn_key, lookup_inbound,
}
use cs305_2026spring_project.Nat.Track.{update_tcp_state, track, entry_for}
use cs305_2026spring_project.Nat.Packet.{
  Info, between, parse_eth_ip, rewrite_outbound, rewrite_inbound,
}

-- The class variables of `NATConfig` that the handlers read; the hardware address in binary.
pub record Config : Type 0 where
  pub external_ip : Text
  pub controller_mac : Bytes

-- The ports of an outbound packet; the identifier of an ICMP echo is its source port. `none` where
-- the packet is too short: the method returns, or raises.
unfoldable pub outbound_ports : Bytes → Info → Option (ℕ × ℕ)
unfolding unpack16
outbound_ports raw info =
    let l4 = info.l4_offset in
    let long_enough = not (ltb (length raw) (l4 + 4)) in
    if nat_beq info.proto proto_tcp || nat_beq info.proto proto_udp
    then (do
      require long_enough
      src ← unpack16 (between l4 (l4 + 2) raw)
      dst ← unpack16 (between (l4 + 2) (l4 + 4) raw)
      some (src, dst))
    else if nat_beq info.proto proto_icmp
    then (do
      require long_enough
      kind ← get_elem? raw l4
      if nat_beq kind 8 || nat_beq kind 0
          then (do src ← unpack16 (between (l4 + 4) (l4 + 6) raw); some (src, 0))
          else some (0, 0))
    else some (0, 0)

-- The port that an inbound packet asks for.
unfoldable pub inbound_port : Bytes → Info → Option ℕ
unfolding unpack16
inbound_port raw info =
    let l4 = info.l4_offset in
    if nat_beq info.proto proto_tcp || nat_beq info.proto proto_udp
    then (do require (not (ltb (length raw) (l4 + 4))); unpack16 (between (l4 + 2) (l4 + 4) raw))
    else if nat_beq info.proto proto_icmp
    then (do
      require (not (ltb (length raw) (l4 + 6)))
      kind ← get_elem? raw l4
      if nat_beq kind 0 || nat_beq kind 8 then unpack16 (between (l4 + 4) (l4 + 6) raw) else some 0)
    else some 0

-- The key under which an entry stands.
unfoldable pub entry_key : Entry → Option Conn
unfolding conn_key
entry_key e = conn_key e.src_ip e.src_port e.dst_ip e.dst_port e.proto

-- What the flags of a rewritten packet do to its entry in the table, and to the entry at hand.
unfoldable pub note_flags : Entry → Option ℕ → Table → Table
unfolding track entry_key
note_flags entry none t = t
note_flags entry (some flags) t = track (entry_key entry) flags t

unfoldable pub noted : Option ℕ → Entry → Entry
unfolding update_tcp_state
noted none entry = entry
noted (some flags) entry = update_tcp_state flags entry

-- From the rewriting on: an exception leaves the table as it is.
unfoldable pub send_outbound : Entry → Table → Option (Bytes × Option ℕ) → Option Bytes × Table
unfolding note_flags
send_outbound entry t none = (none, t)
send_outbound entry t (some (packet, flags)) = (some packet, note_flags entry flags t)

-- From the entry on; `none` where the search for a port does not end.
unfoldable pub translate_outbound :
    Config → Bytes → Info → Bytes → Option (Entry × Table) → Option (Option Bytes × Table)
unfolding send_outbound rewrite_outbound
translate_outbound config raw info dst_mac none = none
translate_outbound config raw info dst_mac (some (entry, t)) =
    some (send_outbound entry t (rewrite_outbound config.controller_mac raw info entry dst_mac))

unfoldable pub outbound_with :
    ℕ → Config → Bytes → Info → Bytes → Table → Option (ℕ × ℕ) → Option (Option Bytes × Table)
unfolding translate_outbound entry_for
outbound_with fuel config raw info dst_mac t none = some (none, t)
outbound_with fuel config raw info dst_mac t (some (src_port, dst_port)) =
    translate_outbound config raw info dst_mac (
      entry_for fuel config.external_ip info.src_ip src_port info.dst_ip dst_port info.proto
        info.src_mac t)

unfoldable pub outbound_from :
    ℕ → Config → Bytes → Bytes → Table → Option Info → Option (Option Bytes × Table)
unfolding outbound_with outbound_ports
outbound_from fuel config raw dst_mac t none = some (none, t)
outbound_from fuel config raw dst_mac t (some info) =
    outbound_with fuel config raw info dst_mac t (outbound_ports raw info)

-- `handle_outbound(datapath, in_port, raw_data, output_port, dst_mac)`: the packet that is sent, if
-- one is.
unfoldable pub handle_outbound : ℕ → Config → Bytes → Bytes → Table → Option (Option Bytes × Table)
unfolding outbound_from parse_eth_ip
handle_outbound fuel config raw dst_mac t =
    outbound_from fuel config raw dst_mac t (parse_eth_ip raw)

unfoldable pub answer_inbound :
    Entry → Table → Option (Bytes × Option ℕ) → Option (Bytes × Entry) × Table
unfolding note_flags noted
answer_inbound entry t none = (none, t)
answer_inbound entry t (some (packet, flags)) =
    (some (packet, noted flags entry), note_flags entry flags t)

-- From the entry on.
unfoldable pub translate_inbound :
    Config → Bytes → Info → Option Entry × Table → Option (Bytes × Entry) × Table
unfolding answer_inbound rewrite_inbound
translate_inbound config raw info (none, t) = (none, t)
translate_inbound config raw info (some entry, t) =
    answer_inbound entry t (rewrite_inbound config.controller_mac raw info entry)

unfoldable pub inbound_with :
    Config → Bytes → Info → Table → Option ℕ → Option (Bytes × Entry) × Table
unfolding translate_inbound lookup_inbound
inbound_with config raw info t none = (none, t)
inbound_with config raw info t (some port) =
    translate_inbound config raw info (lookup_inbound info.dst_ip port info.proto t)

unfoldable pub inbound_from : Config → Bytes → Table → Option Info → Option (Bytes × Entry) × Table
unfolding inbound_with inbound_port
inbound_from config raw t none = (none, t)
inbound_from config raw t (some info) = inbound_with config raw info t (inbound_port raw info)

-- `handle_inbound(datapath, in_port, raw_data)`
unfoldable pub handle_inbound : Config → Bytes → Table → Option (Bytes × Entry) × Table
unfolding inbound_from parse_eth_ip
handle_inbound config raw t = inbound_from config raw t (parse_eth_ip raw)
