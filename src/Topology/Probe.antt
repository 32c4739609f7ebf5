-- ===== src/Topology/Probe.antt =====
-- The link probes of ControllerApp, controller.py: `_send_probe`, `_parse_probe`, and what
-- packet_in_handler learns from one.
use Prim.Native.Nat.{min, max}
use cs305_2026spring_project.Prelude.{
  ℕ, ◌+◌, ◌*◌, ◌/◌, ◌%◌, ◌<◌, ◌≡◌, refl, Bool, true, false, not, ◌&&◌, ◌||◌, if◌then◌else◌, Option,
  none, some, List, [], ◌∷◌, ◌++◌, Bytes, length, take, drop, ltb, leb, nat_beq, nat_eq, ◌==◌,
  ◌>>=◌, ◌>>◌, require, arith,
}
use cs305_2026spring_project.Codec.Pack.{
  be16, be32, unpack16, unpack32, unpack16-be16, unpack32-be32,
}
use cs305_2026spring_project.Topology.State.{Link, Controller, update_topology}
use cs305_2026spring_project.Topology.Events.{Handled}

abbrev pub probe_eth_type : ℕ
probe_eth_type = 0x9999

-- `dst_mac_bytes + src_mac_bytes + eth_type_bytes`
unfoldable pub probe_header : ℕ → Bytes
probe_header port =
    (255 ∷ 255 ∷ 255 ∷ 255 ∷ 255 ∷ 255 ∷ [])
    ++ (0 ∷ 0 ∷ 0 ∷ 0 ∷ 0 ∷ port % 256 ∷ [])
    ++ be16 probe_eth_type

-- `struct.pack('!QH', dpid, port_no)`, for numbers that fit.
unfoldable pub probe_payload : ℕ → ℕ → Bytes
probe_payload dpid port = be32 (dpid / 4294967296) ++ be32 (dpid % 4294967296) ++ be16 port

-- The frame that `_send_probe` sends; struct.error is swallowed and none is sent.
unfoldable pub probe_frame : ℕ → ℕ → Option Bytes
probe_frame dpid port = do
  require (ltb dpid 18446744073709551616 && ltb port 65536)
  some (probe_header port ++ probe_payload dpid port)

-- `struct.unpack('!QH', data)`
unfoldable pub unpack_probe : Bytes → Option (ℕ × ℕ)
unpack_probe raw = do
  high ← unpack32 (take 4 raw)
  low ← unpack32 (take 4 (drop 4 raw))
  port ← unpack16 (drop 8 raw)
  some (high * 4294967296 + low, port)

-- `struct.unpack('!H', data[12:14])[0] == self.PROBE_ETH_TYPE`, of at least 14 bytes.
unfoldable pub is_probe : Bytes → Bool
is_probe raw =
    leb 14 (length raw)
    && (elim (unpack16 (take 2 (drop 12 raw))) [ none ↦ false | some t ↦ nat_beq t probe_eth_type ])

-- `none` is `None, None`.
unfoldable pub parse_probe : Bytes → Option (ℕ × ℕ)
parse_probe raw = if ltb (length raw) 24 then none else unpack_probe (take 10 (drop 14 raw))

fields :
    (a b p : ℕ)
    → unpack_probe (be32 a ++ be32 b ++ be16 p) ≡ (
        unpack32 (be32 a) >>= λ high. unpack32 (be32 b) >>= λ low.
        unpack16 (be16 p) >>= λ port. some (high * 4294967296 + low, port))
unfolding unpack_probe be32 be16
fields a b p = refl

same_port : {a b port : ℕ} → a ≡ b → ◌≡◌ {A = Option (ℕ × ℕ)} (some (a, port)) (some (b, port))
same_port e = cc

framed :
    (dpid port : ℕ)
    → dpid < 18446744073709551616
    → port < 65536
    → unpack_probe (probe_payload dpid port) ≡ some (dpid, port)
unfolding probe_payload
framed dpid port h k =
    rw
      (
        fields (dpid / 4294967296) (dpid % 4294967296) port,
        unpack32-be32 (dpid / 4294967296) (omega arith),
        unpack32-be32 (dpid % 4294967296) (omega arith),
        unpack16-be16 port k,
      )
      (same_port (omega arith))

-- For a datapath id below 2 ^ 64 and a port below 2 ^ 16, _send_probe sends a frame of 24 bytes
-- that packet_in_handler takes for a probe and that _parse_probe reads back.
pub parse_probe-probe_frame :
    (dpid port : ℕ)
    → dpid < 18446744073709551616
    → port < 65536
    → (frame : Bytes) × (probe_frame dpid port ≡ some frame)
      × (length frame ≡ 24)
      × (is_probe frame ≡ true)
      × (parse_probe frame ≡ some (dpid, port))
unfolding probe_frame is_probe parse_probe probe_header probe_payload be16 be32 unpack16
parse_probe-probe_frame dpid port h k =
    let fits : (ltb dpid 18446744073709551616 && ltb port 65536) ≡ true = ground arith in
    (probe_header port ++ probe_payload dpid port, rw fits refl, refl, refl, framed dpid port h k)

-- `(min(a, b), max(a, b)) == link_key`
unfoldable pub same_pair : ℕ → ℕ → Link → Bool
same_pair src local l =
    nat_beq (min l.src_dpid l.dst_dpid) (min local src)
    && nat_beq (max l.src_dpid l.dst_dpid) (max local src)

-- The ports of a link that is known, from a probe of `src` that arrives at a port of `local`.
unfoldable pub renew_link : ℕ → ℕ → ℕ → Link → Link
renew_link src src_port local_port l =
    if l.src_dpid == src
    then record l { src_port = src_port; dst_port = local_port }
    else record l { src_port = local_port; dst_port = src_port }

unfoldable pub ports_differ : Link → Link → Bool
ports_differ l l' = not (l.src_port == l'.src_port) || not (l.dst_port == l'.dst_port)

unfoldable pub put_first : Link → Option (List Link × Bool) → Option (List Link × Bool)
put_first l none = none
put_first l (some (ls, changed)) = some (l ∷ ls, changed)

-- The loop up to its `break`: the links, and `port_changed`; `none` without `updated`.
unfoldable pub renew_links : ℕ → ℕ → ℕ → ℕ → List Link → Option (List Link × Bool)
renew_links src src_port local local_port [] = none
renew_links src src_port local local_port (l ∷ ls) =
    let later = put_first l (renew_links src src_port local local_port ls) in
    let l' = renew_link src src_port local_port l in
    if same_pair src local l then some (l' ∷ ls, ports_differ l l') else later

unfoldable pub learn_with : ℕ → ℕ → ℕ → ℕ → Controller → Option (List Link × Bool) → Handled
learn_with src src_port local local_port c none =
    let l : Link = record {
      src_dpid = src;
      dst_dpid = local;
      src_port = src_port;
      dst_port = local_port;
    } in
    (update_topology (record c { links = c.links ++ (l ∷ []) }), true)
learn_with src src_port local local_port c (some (ls, changed)) =
    (update_topology (record c { links = ls }), changed)

unfoldable pub learn_link : ℕ → ℕ → ℕ → ℕ → Controller → Handled
learn_link src src_port local local_port c =
    learn_with src src_port local local_port c (renew_links src src_port local local_port c.links)
