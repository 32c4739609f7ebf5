-- ===== src/Nat/Tests.antt =====
-- The theorems on the address translation, at concrete tables.
use cs305_2026spring_project.Prelude.{
  ℕ, zero, suc, ◌+◌, take, ◌≡◌, ◌≤◌, ◌<◌, text_beq, inl, inr, refl, true, Option, none, some, [],
  ◌∷◌, Text, Bytes, codes, arith, nat_beq_iff, nat_eq, if◌then◌else◌,
}
use cs305_2026spring_project.Prelude.Table.{Dict, lookup, insert, contains}
use cs305_2026spring_project.Nat.Table.{
  Conn, Entry, Table, proto_tcp, proto_udp, proto_icmp, alloc_loop, alloc_port, create_at,
  create_entry, lookup_inbound, lookup_outbound, key_eq, key_beq, conn_key,
}
use cs305_2026spring_project.Nat.Table.Alloc.{Allocates, alloc_port_fresh, alloc_port_hangs}
use cs305_2026spring_project.Nat.Track.{Timeouts, is_stale, entry_for, or_create, gc_round}
use cs305_2026spring_project.Nat.Index.{IsIndexed}
use cs305_2026spring_project.Nat.Reachable.{
  empty_table, step, start, outbound, collect, reachable-IsIndexed,
}
use cs305_2026spring_project.Prelude.Split.{split, join}
use cs305_2026spring_project.Codec.Pack.{be16, pack16, unpack16}
use cs305_2026spring_project.Codec.Inet.{
  inet_aton, inet_ntoa, octet, digit, parse_octet, parse_octets,
}
use cs305_2026spring_project.Codec.Checksum.{checksum, word_sum, fold_carry}
use cs305_2026spring_project.Nat.Packet.Keeps.{Every}
use cs305_2026spring_project.Nat.Packet.Returned.{rewrite_inbound_destination}
use cs305_2026spring_project.Nat.Packet.Verifies.{
  rewrite_outbound_verifies, rewrite_inbound_verifies,
}
use cs305_2026spring_project.Nat.Packet.{
  peer_address, Info, between, rewrite_inbound, parse_eth_ip, refresh_ip, set_byte, set_word,
  pack_into, rewrite_l4, rewrite_tcp, rewrite_udp, rewrite_icmp, rewrite_outbound,
}
use cs305_2026spring_project.Nat.Handler.{
  Config, handle_outbound, outbound_from, outbound_with, outbound_ports, translate_outbound,
  send_outbound, note_flags,
}
use cs305_2026spring_project.Nat.Inbound.{create_at_inbound, icmp_hides}
use cs305_2026spring_project.Nat.Collect.{gc_round_lem}

abbrev host : Text
host = codes "192.168.1.2"

abbrev peer : Text
peer = codes "10.0.2.2"

abbrev outside : Text
outside = codes "10.0.2.15"

abbrev mac : Bytes
mac = 2 ∷ 0 ∷ 0 ∷ 0 ∷ 0 ∷ 1 ∷ []

-- One connection of TCP, under port 1024, and the clock at 400.
abbrev one_conn : Table
one_conn = record (create_at host 4000 peer 80 proto_tcp outside mac 1024 empty_table).1 {
  clock = 400;
}

alloc_port_fresh_example : Allocates one_conn (alloc_port 64511 one_conn)
unfolding create_at lookup insert
alloc_port_fresh_example =
    alloc_port_fresh one_conn 1025 (omega arith, omega arith) (omega arith, omega arith) refl

-- The ports from 1024 up, all under the key None.
unfoldable fill : ℕ → Dict ℕ (Option Conn)
fill zero = []
fill (suc n) = (1024 + n, none) ∷ fill n

fill_full : (n q : ℕ) → 1024 ≤ q → q < 1024 + n → contains q (fill n) ≡ true
unfolding fill lookup
fill_full zero q low high = absurd (omega arith)
fill_full (suc n) q low high = ground (arith, fill_full n q low, nat_beq_iff (1024 + n) q)

abbrev full_table : Table
full_table = record { connections = []; port_index = fill 64511; next_port = 1024; clock = 0 }

alloc_port_hangs_example : alloc_port 100000 full_table ≡ none
alloc_port_hangs_example =
    alloc_port_hangs 100000 full_table (omega arith, omega arith)
      (λ q h. fill_full 64511 q h.0 (omega arith))

abbrev config : Timeouts
config = record { tcp_timeout = 300; udp_timeout = 30; icmp_timeout = 60 }

create_at_inbound_example :
    (lookup_inbound outside 1024 proto_tcp
      (create_at host 4000 peer 80 proto_tcp outside mac 1024 empty_table).1).0
    ≡ some (create_at host 4000 peer 80 proto_tcp outside mac 1024 empty_table).0
create_at_inbound_example =
    create_at_inbound host 4000 peer 80 proto_tcp outside mac 1024 empty_table (inr (inl refl))

icmp_hides_example :
    (lookup_inbound outside 1024 proto_tcp
      (create_at host 1024 peer 0 proto_icmp outside mac 1024 one_conn).1).0
    ≡ none
icmp_hides_example = icmp_hides host 1024 peer outside outside proto_tcp mac one_conn (λ e. cc)

abbrev one_entry : Entry
one_entry = (create_at host 4000 peer 80 proto_tcp outside mac 1024 empty_table).0

gc_round_lem_test :
    lookup (conn_key host 4000 peer 80 proto_tcp) (gc_round config one_conn).connections
    ≡ (if is_stale config 400 one_entry then none else some one_entry)
unfolding create_at conn_key lookup insert key_beq text_beq
gc_round_lem_test =
    gc_round_lem config one_conn (conn_key host 4000 peer 80 proto_tcp) one_entry (refl, tt) refl

-- A packet of UDP from port 4000 of the host to port 53 of the peer.
abbrev udp_packet : Bytes
udp_packet =
    1 ∷ 1 ∷ 1 ∷ 1 ∷ 1 ∷ 1 ∷ 2 ∷ 0 ∷ 0 ∷ 0 ∷ 0 ∷ 1 ∷ 8 ∷ 0 ∷ 0x45 ∷ 0 ∷ 0 ∷ 28 ∷ 0 ∷ 0 ∷ 0x40 ∷ 0
    ∷ 64 ∷ 17 ∷ 0 ∷ 0 ∷ 192 ∷ 168 ∷ 1 ∷ 2 ∷ 10 ∷ 0 ∷ 2 ∷ 2 ∷ 15 ∷ 160 ∷ 0 ∷ 53 ∷ 0 ∷ 8 ∷ 0 ∷ 0 ∷ []

abbrev nat_config : Config
nat_config = record {
  external_ip = outside;
  controller_mac = 0x7e ∷ 0x49 ∷ 0xb3 ∷ 0xf0 ∷ 0xf9 ∷ 0x99 ∷ [];
}

abbrev udp_sent : Bytes
udp_sent =
    1 ∷ 1 ∷ 1 ∷ 1 ∷ 1 ∷ 1 ∷ 126 ∷ 73 ∷ 179 ∷ 240 ∷ 249 ∷ 153 ∷ 8 ∷ 0 ∷ 0x45 ∷ 0 ∷ 0 ∷ 28 ∷ 0 ∷ 0
    ∷ 0x40 ∷ 0 ∷ 64 ∷ 17 ∷ 34 ∷ 193 ∷ 10 ∷ 0 ∷ 2 ∷ 15 ∷ 10 ∷ 0 ∷ 2 ∷ 2 ∷ 4 ∷ 0 ∷ 0 ∷ 53 ∷ 0 ∷ 8
    ∷ 227 ∷ 152 ∷ []

-- The table with the one connection of the packet.
abbrev udp_table : Table
udp_table =
    record (create_at host 4000 peer 53 proto_udp outside (take 6 udp_packet) 1024 empty_table).1 {
      next_port = 1025;
    }

udp_handled :
    handle_outbound 64511 nat_config udp_packet [] empty_table ≡ some (some udp_sent, udp_table)
unfolding handle_outbound outbound_from parse_eth_ip unpack16 inet_ntoa octet join outbound_with
    outbound_ports translate_outbound entry_for lookup_outbound conn_key or_create create_entry
    alloc_port alloc_loop create_at send_outbound rewrite_outbound peer_address inet_aton split
    parse_octets parse_octet digit refresh_ip set_byte set_word rewrite_l4 rewrite_tcp rewrite_udp
    rewrite_icmp pack_into pack16 checksum word_sum fold_carry note_flags lookup insert be16
udp_handled = refl

reachable-IsIndexed_example : IsIndexed (gc_round config udp_table)
reachable-IsIndexed_example = reachable-IsIndexed (gc_round config udp_table) (
    step udp_table (gc_round config udp_table)
      (step empty_table udp_table start
        (outbound 64511 nat_config udp_packet [] (some udp_sent) empty_table udp_table udp_handled))
      (collect config udp_table))

abbrev udp_info : Info
udp_info = record {
  src_mac = 1 ∷ 1 ∷ 1 ∷ 1 ∷ 1 ∷ 1 ∷ [];
  dst_mac = mac;
  src_ip = host;
  dst_ip = peer;
  proto = 17;
  ip_ihl = 20;
  total_len = 28;
  l4_offset = 34;
  eth_header = take 14 udp_packet;
}

udp_parsed : parse_eth_ip udp_packet ≡ some udp_info
unfolding parse_eth_ip unpack16 inet_ntoa octet join
udp_parsed = refl

rewrite_outbound_verifies_example :
    Every
      (λ (p : Bytes × Option ℕ). checksum (between 14 34 p.0) ≡ 0)
      (rewrite_outbound nat_config.controller_mac udp_packet udp_info one_entry [])
rewrite_outbound_verifies_example =
    rewrite_outbound_verifies nat_config.controller_mac udp_packet udp_info one_entry [] udp_parsed
      (omega arith) (omega arith) refl (tt, inl refl)

rewrite_inbound_verifies_test :
    Every
      (λ (p : Bytes × Option ℕ). checksum (between 14 34 p.0) ≡ 0)
      (rewrite_inbound nat_config.controller_mac udp_packet udp_info one_entry)
unfolding create_at
rewrite_inbound_verifies_test =
    rewrite_inbound_verifies nat_config.controller_mac udp_packet udp_info one_entry udp_parsed
      (omega arith) (omega arith) refl (omega arith, inr refl)

-- The entry of the packet's connection.
abbrev udp_entry : Entry
udp_entry = (create_at host 4000 peer 53 proto_udp outside udp_info.src_mac 1024 empty_table).0

rewrite_inbound_destination_example :
    Every
      (λ (p : Bytes × Option ℕ). take 6 p.0 ≡ take 6 udp_packet)
      (rewrite_inbound nat_config.controller_mac udp_packet udp_info udp_entry)
unfolding create_at
rewrite_inbound_destination_example =
    rewrite_inbound_destination nat_config.controller_mac udp_packet udp_packet udp_info udp_info
      udp_entry udp_parsed udp_parsed refl
