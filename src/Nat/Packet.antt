-- ===== src/Nat/Packet.antt =====
-- nat.py, `_parse_eth_ip`, `_rewrite_outbound` and `_rewrite_inbound`. A rewritten packet is a
-- `bytearray`; an exception is `none`.
pub mod Keeps
pub mod Header
pub mod Verifies
pub mod Returned
use cs305_2026spring_project.Prelude.{
  ℕ, ◌+◌, ◌-◌, ◌*◌, ◌/◌, ◌%◌, Option, none, some, Bytes, Text, [], ◌∷◌, ◌++◌, ltb, nat_beq, ◌||◌,
  not, if◌then◌else◌, ◌>>=◌, ◌>>◌, require, length, take, drop, get_elem?,
}
use cs305_2026spring_project.Codec.Pack.{be16, pack16, unpack16}
use cs305_2026spring_project.Codec.Inet.{inet_aton, inet_ntoa}
use cs305_2026spring_project.Codec.Checksum.{checksum}
use cs305_2026spring_project.Nat.Table.{Entry, proto_icmp, proto_tcp, proto_udp}

-- `data[a:b]`
abbrev pub between : ℕ → ℕ → Bytes → Bytes
between a b d = take (b - a) (drop a d)

-- `data[a:b] = v`
abbrev pub set_between : ℕ → ℕ → Bytes → Bytes → Bytes
set_between a b v d = take a d ++ (v ++ drop b d)

-- `data[k] = v`
unfoldable pub set_byte : ℕ → ℕ → Bytes → Option Bytes
set_byte k v d = if ltb k (length d) then some (take k d ++ (v ∷ drop (k + 1) d)) else none

-- `data[k] = (v >> 8) & 0xFF; data[k + 1] = v & 0xFF`
unfoldable pub set_word : ℕ → ℕ → Bytes → Option Bytes
unfolding set_byte
set_word k v d = do first ← set_byte k (v / 256 % 256) d; set_byte (k + 1) (v % 256) first

-- `struct.pack_into('!H', data, k, v)`
unfoldable pub pack_into : ℕ → ℕ → Bytes → Option Bytes
unfolding pack16
pack_into k v d = do
  word ← pack16 v
  require (not (ltb (length d) (k + 2)))
  some (set_between k (k + 2) word d)

-- The dict that `_parse_eth_ip` returns.
pub record Info : Type 0 where
  pub src_mac : Bytes
  pub dst_mac : Bytes
  pub src_ip : Text
  pub dst_ip : Text
  pub proto : ℕ
  pub ip_ihl : ℕ
  pub total_len : ℕ
  pub l4_offset : ℕ
  pub eth_header : Bytes

-- `_parse_eth_ip(raw)`, for the offset 0 that every caller uses.
unfoldable pub parse_eth_ip : Bytes → Option Info
unfolding unpack16 inet_ntoa
parse_eth_ip raw = do
  require (not (ltb (length raw) 34))
  eth_type ← unpack16 (between 12 14 raw)
  require (nat_beq eth_type 0x0800)
  ver_ihl ← get_elem? raw 14
  require (not (ltb (ver_ihl % 16 * 4) 20 || ltb (length raw) (14 + ver_ihl % 16 * 4)))
  proto ← get_elem? raw 23
  total_len ← unpack16 (between 16 18 raw)
  src_ip ← inet_ntoa (between 26 30 raw)
  dst_ip ← inet_ntoa (between 30 34 raw)
  some (record {
    src_mac = between 0 6 raw;
    dst_mac = between 6 12 raw;
    src_ip = src_ip;
    dst_ip = dst_ip;
    proto = proto;
    ip_ihl = ver_ihl % 16 * 4;
    total_len = total_len;
    l4_offset = 14 + ver_ihl % 16 * 4;
    eth_header = between 0 14 raw;
  })

-- The checksum of the IP header, over a field that is zeroed first.
unfoldable pub refresh_ip : ℕ → Bytes → Option Bytes
unfolding set_byte set_word
refresh_ip l4 d = do
  first ← set_byte 24 0 d
  zeroed ← set_byte 25 0 first
  set_word 24 (checksum (between 14 l4 zeroed)) zeroed

-- The branch for TCP: the port at `at`, the checksum with the addresses `a` and `b` of the
-- pseudo-header, and the flags.
unfoldable pub rewrite_tcp : ℕ → ℕ → ℕ → Bytes → Bytes → Bytes → Option (Bytes × Option ℕ)
unfolding pack_into set_byte set_word pack16
rewrite_tcp l4 spot port a b d = do
  ported ← pack_into spot port d
  first ← set_byte (l4 + 16) 0 ported
  zeroed ← set_byte (l4 + 17) 0 first
  high ← get_elem? zeroed (l4 + 12)
  let top = l4 + high / 16 % 16 * 4
  let seg = between l4 top zeroed
  let payload = drop top zeroed
  size ← pack16 (length seg + length payload)
  let pseudo = a ++ (b ++ (0 ∷ proto_tcp ∷ size))
  let csum = checksum (pseudo ++ (take 16 seg ++ (0 ∷ 0 ∷ (drop 18 seg ++ payload))))
  done ← set_word (l4 + 16) csum zeroed
  flags ← get_elem? done (l4 + 13)
  some (done, some (flags % 64))

-- The branch for UDP: a checksum of zero is sent as 0xFFFF.
unfoldable pub rewrite_udp : ℕ → ℕ → ℕ → Bytes → Bytes → Bytes → Option (Bytes × Option ℕ)
unfolding pack_into set_byte set_word unpack16
rewrite_udp l4 spot port a b d = do
  ported ← pack_into spot port d
  first ← set_byte (l4 + 6) 0 ported
  zeroed ← set_byte (l4 + 7) 0 first
  size ← unpack16 (between (l4 + 4) (l4 + 6) zeroed)
  let pseudo = a ++ (b ++ (0 ∷ proto_udp ∷ be16 size))
  let csum = checksum (pseudo ++ between l4 (l4 + size) zeroed)
  done ← set_word (l4 + 6) (if nat_beq csum 0 then 0xffff else csum) zeroed
  some (done, none)

-- The branch for ICMP.
unfoldable pub rewrite_icmp : ℕ → Bytes → Option (Bytes × Option ℕ)
unfolding set_byte set_word
rewrite_icmp l4 d = do
  first ← set_byte (l4 + 2) 0 d
  zeroed ← set_byte (l4 + 3) 0 first
  done ← set_word (l4 + 2) (checksum (drop l4 zeroed)) zeroed
  some (done, none)

-- The chain of tests on the protocol, which both methods have; the flags are those of TCP.
unfoldable pub rewrite_l4 : ℕ → ℕ → ℕ → ℕ → Bytes → Bytes → Bytes → Option (Bytes × Option ℕ)
unfolding rewrite_tcp rewrite_udp rewrite_icmp
rewrite_l4 proto l4 spot port a b d =
    if nat_beq proto proto_tcp
    then rewrite_tcp l4 spot port a b d
    else if nat_beq proto proto_udp
    then rewrite_udp l4 spot port a b d
    else if nat_beq proto proto_icmp
    then rewrite_icmp l4 d
    else some (d, none)

-- `if dst_mac: data[0:6] = dst_mac`
abbrev pub set_dst_mac : Bytes → Bytes → Bytes
set_dst_mac [] d = d
set_dst_mac (x ∷ mac) d = set_between 0 6 (x ∷ mac) d

-- `orig_dst_ip_b`, which TCP and UDP alone need.
unfoldable pub peer_address : ℕ → Text → Option Bytes
unfolding inet_aton
peer_address proto ip =
    let packed = inet_aton ip in
    if nat_beq proto proto_tcp || nat_beq proto proto_udp then packed else some []

-- `_rewrite_outbound(raw, info, entry, dst_mac)`: an absent `dst_mac` is empty.
unfoldable pub rewrite_outbound : Bytes → Bytes → Info → Entry → Bytes → Option (Bytes × Option ℕ)
unfolding refresh_ip rewrite_l4 inet_aton peer_address
rewrite_outbound ctrl_mac raw info entry dst_mac = do
  nat ← inet_aton entry.nat_ip
  let framed = set_dst_mac dst_mac (set_between 6 12 ctrl_mac raw)
  let l4 = 14 + info.ip_ihl
  d ← refresh_ip l4 (set_between 26 30 nat framed)
  dst ← peer_address info.proto entry.dst_ip
  rewrite_l4 info.proto l4 l4 entry.nat_port nat dst d

-- `src_host_mac`, or the controller's address if it is empty.
abbrev pub host_mac : Bytes → Bytes → Bytes
host_mac ctrl_mac [] = ctrl_mac
host_mac ctrl_mac (x ∷ mac) = x ∷ mac

-- `_rewrite_inbound(raw, info, entry)`
unfoldable pub rewrite_inbound : Bytes → Bytes → Info → Entry → Option (Bytes × Option ℕ)
unfolding refresh_ip rewrite_l4 inet_aton peer_address
rewrite_inbound ctrl_mac raw info entry = do
  src ← inet_aton entry.src_ip
  let framed = set_between 0 6 (host_mac ctrl_mac entry.src_mac) raw
  let l4 = 14 + info.ip_ihl
  d ← refresh_ip l4 (set_between 30 34 src framed)
  nat ← inet_aton entry.nat_ip
  dst ← peer_address info.proto entry.dst_ip
  rewrite_l4 info.proto l4 (l4 + 2) entry.src_port dst src d
