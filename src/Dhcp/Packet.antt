-- ===== src/Dhcp/Packet.antt =====
-- dhcp.py: the parts of a request that the server reads, and the messages that it assembles.
use cs305_2026spring_project.Prelude.{
  ℕ, Option, none, some, Bytes, Text, List, [], ◌∷◌, ◌++◌, nat_beq, if◌then◌else◌, ◌>>=◌, codes,
}
use cs305_2026spring_project.Codec.Pack.{be32}
use cs305_2026spring_project.Codec.Inet.{inet_aton, inet_ntoa}
use cs305_2026spring_project.Codec.Utf8.{encode, decode_replace}
use cs305_2026spring_project.Dhcp.State.{Pool, Reply}

-- A parsed request: `mac` is the Ethernet source address, none without an Ethernet header; `options`
-- is none where the message has no option list.
pub record Request : Type 0 where
  pub op : ℕ
  pub xid : ℕ
  pub mac : Option Bytes
  pub options : Option (List (ℕ × Bytes))

-- The first option with a tag: `for opt in option_list: if opt.tag == tag`.
unfoldable pub first_option : ℕ → List (ℕ × Bytes) → Option Bytes
first_option tag [] = none
first_option tag ((t, v) ∷ opts) = if nat_beq t tag then some v else first_option tag opts

unfoldable pub get_option : ℕ → Request → Option Bytes
unfolding first_option
get_option tag r = do opts ← r.options; first_option tag opts

-- `_get_requested_ip(pkt)`: option 50.
unfoldable pub get_requested_ip : Request → Option Text
unfolding get_option inet_ntoa
get_requested_ip r = do v ← get_option 50 r; inet_ntoa v

-- `s.rstrip('\x00')`
unfoldable pub rstrip_zeros : Text → Text
rstrip_zeros [] = []
rstrip_zeros (c ∷ s) = elim (rstrip_zeros s) [
  | [] ↦ if nat_beq c 0 then [] else c ∷ []
  | d ∷ t ↦ c ∷ d ∷ t
]

-- `_get_hostname(pkt)`: option 12.
unfoldable pub get_hostname : Request → Option Text
unfolding get_option decode_replace rstrip_zeros
get_hostname r = do v ← get_option 12 r; some (rstrip_zeros (decode_replace v))

abbrev pub offer_type : ℕ
offer_type = 2

abbrev pub ack_type : ℕ
ack_type = 5

abbrev pub nak_type : ℕ
nak_type = 6

-- The reply of `assemble_offer` and of `assemble_ack`, which differ in the message type alone. An
-- address that cannot be read raises.
unfoldable pub lease_reply : ℕ → Pool → Bytes → ℕ → Text → Option Reply
lease_reply type pool mac xid ip = do
  mask ← inet_aton pool.netmask
  server ← inet_aton pool.server_ip
  dns ← inet_aton pool.dns_ip
  some (record {
    options =
        (53, type ∷ [])
        ∷ (1, mask)
        ∷ (3, server)
        ∷ (6, dns)
        ∷ (51, be32 pool.lease_time)
        ∷ (54, server)
        ∷ [];
    chaddr = mac;
    xid = xid;
    yiaddr = ip;
    siaddr = pool.server_ip;
    ip_dst = ip;
  })

-- `assemble_nak(pkt, datapath, port, message)`
unfoldable pub assemble_nak : Pool → Bytes → ℕ → Text → Option Reply
unfolding encode
assemble_nak pool mac xid message = do
  server ← inet_aton pool.server_ip
  some (record {
    options = (53, nak_type ∷ []) ∷ (54, server) ∷ (56, encode message) ∷ [];
    chaddr = mac;
    xid = xid;
    yiaddr = codes "0.0.0.0";
    siaddr = pool.server_ip;
    ip_dst = codes "255.255.255.255";
  })

-- The messages of a NAK.
unfoldable pub mismatch : Text → Text → Text → Text
mismatch requested what assigned =
    codes "requested IP " ++ (requested ++ (codes " does not match " ++ (what ++ (32 ∷ assigned))))
