-- ===== src/Nat/Packet/Verifies.antt =====
-- What both rewritings leave: an IP header that verifies.
use cs305_2026spring_project.Prelude.{
  ℕ, zero, suc, Option-cases, ◌+◌, ◌-◌, ◌*◌, ◌%◌, ◌≤◌, ◌<◌, ◌≡◌, ◌⊎◌, refl, sym, ap, subst, ◌∙◌,
  inl, inr, not, ◌||◌, Option, some, Bytes, Text, [], ◌∷◌, ◌++◌, ltb, nat_beq, arith, length, take,
  drop, get_elem?, All-append, ◌>>=◌, length-append, length-take, length-drop,
}
use cs305_2026spring_project.Codec.Pack.{IsBytes, unpack16}
use cs305_2026spring_project.Codec.Inet.{inet_aton, inet_ntoa, inet_aton-IsBytes}
use cs305_2026spring_project.Codec.Checksum.{checksum}
use cs305_2026spring_project.Nat.Table.{Entry}
use cs305_2026spring_project.Nat.Packet.{
  peer_address, Info, between, set_between, refresh_ip, set_dst_mac, rewrite_outbound, host_mac,
  rewrite_inbound, parse_eth_ip,
}
use cs305_2026spring_project.Nat.Packet.Keeps.{
  Every, Every-bind, Every-map, Keeps, after_read, after_require, rewrite_l4-Keeps,
}
use cs305_2026spring_project.Nat.Packet.Header.{All-take, All-drop, refresh_ip-verifies}

-- The bounds that `_parse_eth_ip` checks.
abbrev IsInside : Bytes → Info → Type 0
IsInside raw info =
    (34 ≤ length raw)
    × (20 ≤ info.ip_ihl)
    × (info.ip_ihl ≤ 60)
    × (info.l4_offset ≡ 14 + info.ip_ihl)
    × (14 + info.ip_ihl ≤ length raw)

parse_eth_ip-IsInside : (raw : Bytes) → Every (IsInside raw) (parse_eth_ip raw)
unfolding parse_eth_ip
parse_eth_ip-IsInside raw =
    let Q = IsInside raw in
    after_require Q (not (ltb (length raw) 34)) _ (λ long.
      after_read Q (unpack16 (between 12 14 raw)) _ (λ eth_type.
        after_require Q (nat_beq eth_type 0x0800) _ (λ is_ip.
          after_read Q (get_elem? raw 14) _ (λ ver.
            after_require Q (not (ltb (ver % 16 * 4) 20 || ltb (length raw) (14 + ver % 16 * 4))) _
              (λ fits. after_read Q (get_elem? raw 23) _ (λ proto.
                after_read Q (unpack16 (between 16 18 raw)) _ (λ total.
                  after_read Q (inet_ntoa (between 26 30 raw)) _ (λ src.
                    after_read Q (inet_ntoa (between 30 34 raw)) _ (λ dst.
                      let good : IsInside raw (record {
                        src_mac = between 0 6 raw;
                        dst_mac = between 6 12 raw;
                        src_ip = src;
                        dst_ip = dst;
                        proto = proto;
                        ip_ihl = ver % 16 * 4;
                        total_len = total;
                        l4_offset = 14 + ver % 16 * 4;
                        eth_header = between 0 14 raw;
                      }) =
                        (ground arith, ground arith, omega arith, refl, ground arith) in
                      good)))))))))

-- Four bytes written into a packet of bytes.
set_between-IsBytes :
    (a b : ℕ) (v d : Bytes) → IsBytes v → IsBytes d → IsBytes (set_between a b v d)
set_between-IsBytes a b v d hv hd =
    let small = λ (x : ℕ). x < 256 in
    All-append small (take a d) (v ++ drop b d) (All-take a d hd)
      (All-append small v (drop b d) hv (All-drop b d hd))

length-set_between :
    (a b : ℕ) (v d : Bytes)
    → a ≤ length d
    → length (set_between a b v d) ≡ a + (length v + (length d - b))
length-set_between a b v d h = omega (
  arith,
  length-append (take a d) (v ++ drop b d),
  length-append v (drop b d),
  length-take a d,
  length-drop b d,
)

take_nil : (n : ℕ) → take {A = ℕ} n [] ≡ []
take_nil zero = refl
take_nil (suc n) = refl

between-drop : (k m : ℕ) (d : Bytes) → between k m d ≡ drop k (take m d)
between-drop zero m d = ap (λ n. take n d) (omega arith)
between-drop (suc k) zero d =
    let nothing : 0 - suc k ≡ 0 = omega arith in ap (λ n. take n (drop (suc k) d)) nothing
between-drop (suc k) (suc m) [] = take_nil (suc m - suc k)
between-drop (suc k) (suc m) (x ∷ d) =
    let fewer : suc m - suc k ≡ m - k = omega arith in
    ap (λ n. take n (drop k d)) fewer ∙ between-drop k m d

-- From the packet with both addresses in place: the header is written, and what follows leaves it.
translated_verifies :
    (l4 : ℕ) (d : Bytes) (f : Bytes → Option (Bytes × Option ℕ))
    → 34 ≤ l4
    → l4 ≤ 74
    → 34 ≤ length d
    → IsBytes d
    → ((r : Bytes) → Every (λ (p : Bytes × Option ℕ). Keeps l4 r p.0) (f r))
    → Every (λ (p : Bytes × Option ℕ). checksum (between 14 l4 p.0) ≡ 0) (refresh_ip l4 d >>= f)
translated_verifies l4 d f low high long bytes keeps =
    let Good : Bytes × Option ℕ → Type 0 = λ p. checksum (between 14 l4 p.0) ≡ 0 in
    Every-bind (λ (r : Bytes). checksum (between 14 l4 r) ≡ 0) Good (refresh_ip l4 d) f
      (refresh_ip-verifies l4 d (omega arith) (omega arith) (omega arith) bytes)
      (λ r good.
        Every-map (λ (p : Bytes × Option ℕ). Keeps l4 r p.0) Good (f r)
          (λ p kept.
            ap checksum (between-drop 14 l4 p.0 ∙ ap (drop 14) kept.0 ∙ sym (between-drop 14 l4 r))
            ∙ good)
          (keeps r))

-- A hardware address as the code writes it: six bytes, or none.
abbrev pub IsMac : Bytes → Type 0
IsMac mac = IsBytes mac × ((mac ≡ []) ⊎ (length mac ≡ 6))

set_dst_mac-IsBytes :
    (mac d : Bytes)
    → IsMac mac
    → 34 ≤ length d
    → IsBytes d
    → IsBytes (set_dst_mac mac d) × (34 ≤ length (set_dst_mac mac d))
set_dst_mac-IsBytes [] d h long bytes = (bytes, long)
set_dst_mac-IsBytes (x ∷ mac) d h long bytes = (
  set_between-IsBytes 0 6 (x ∷ mac) d h.0 bytes,
  subst (λ n. 34 ≤ n) (sym (length-set_between 0 6 (x ∷ mac) d (omega arith)))
      (elim h.1 [ inl none_there ↦ cc none_there | inr six ↦ omega arith ]),
)

inet_aton-Every : (s : Text) → Every (λ (b : Bytes). IsBytes b × (length b ≡ 4)) (inet_aton s)
inet_aton-Every s = elim (Option-cases (inet_aton s)) [
  | inl e ↦ rw (e) tt
  | inr (b, e) ↦ rw (e) (inet_aton-IsBytes s e)
]

-- If _parse_eth_ip accepts a packet of bytes, the controller address is six bytes and the given
-- destination address is six bytes or empty, then in the packet that _rewrite_outbound returns, if
-- it does not raise, the IP header has checksum zero.
pub rewrite_outbound_verifies :
    (ctrl_mac raw : Bytes) (info : Info) (entry : Entry) (dst_mac : Bytes)
    → parse_eth_ip raw ≡ some info
    → IsBytes raw
    → IsBytes ctrl_mac
    → length ctrl_mac ≡ 6
    → IsMac dst_mac
    → Every
        (λ (p : Bytes × Option ℕ). checksum (between 14 info.l4_offset p.0) ≡ 0)
        (rewrite_outbound ctrl_mac raw info entry dst_mac)
unfolding rewrite_outbound
rewrite_outbound_verifies ctrl_mac raw info entry dst_mac parsed bytes ctrl_bytes six mac =
    let (long, low, high, l4_at, inside) =
      subst (Every (IsInside raw)) parsed (parse_eth_ip-IsInside raw) in
    let l4 = 14 + info.ip_ihl in
    let Good : Bytes × Option ℕ → Type 0 = λ p. checksum (between 14 l4 p.0) ≡ 0 in
    let base = set_between 6 12 ctrl_mac raw in
    let framed = set_dst_mac dst_mac base in
    let (framed_bytes, framed_long) =
      set_dst_mac-IsBytes dst_mac base mac (omega (arith, length-set_between 6 12 ctrl_mac raw))
        (set_between-IsBytes 6 12 ctrl_mac raw ctrl_bytes bytes) in
    subst
      (λ n.
        Every (λ (p : Bytes × Option ℕ). checksum (between 14 n p.0) ≡ 0)
          (rewrite_outbound ctrl_mac raw info entry dst_mac))
      (sym l4_at)
      (Every-bind (λ (b : Bytes). IsBytes b × (length b ≡ 4)) Good (inet_aton entry.nat_ip) _
        (inet_aton-Every entry.nat_ip)
        (λ nat known.
          translated_verifies l4 (set_between 26 30 nat framed) _ (omega arith) (omega arith)
            (subst (λ n. 34 ≤ n) (sym (length-set_between 26 30 nat framed (omega arith)))
              (omega arith))
            (set_between-IsBytes 26 30 nat framed known.0 framed_bytes)
            (λ r.
              after_read (λ (p : Bytes × Option ℕ). Keeps l4 r p.0)
                (peer_address info.proto entry.dst_ip) _
                (λ dst. rewrite_l4-Keeps info.proto l4 l4 entry.nat_port nat dst r (omega arith)))))

host_mac-IsBytes :
    (ctrl_mac mac : Bytes)
    → IsBytes ctrl_mac
    → length ctrl_mac ≡ 6
    → IsMac mac
    → IsBytes (host_mac ctrl_mac mac) × (length (host_mac ctrl_mac mac) ≡ 6)
host_mac-IsBytes ctrl_mac [] bytes six h = (bytes, six)
host_mac-IsBytes ctrl_mac (x ∷ mac) bytes six h =
    (h.0, elim h.1 [ inl none_there ↦ cc none_there | inr long ↦ long ])

-- If _parse_eth_ip accepts a packet of bytes, the controller address is six bytes and the hardware
-- address of the entry is six bytes or empty, then in the packet that _rewrite_inbound returns, if
-- it does not raise, the IP header has checksum zero.
pub rewrite_inbound_verifies :
    (ctrl_mac raw : Bytes) (info : Info) (entry : Entry)
    → parse_eth_ip raw ≡ some info
    → IsBytes raw
    → IsBytes ctrl_mac
    → length ctrl_mac ≡ 6
    → IsMac entry.src_mac
    → Every
        (λ (p : Bytes × Option ℕ). checksum (between 14 info.l4_offset p.0) ≡ 0)
        (rewrite_inbound ctrl_mac raw info entry)
unfolding rewrite_inbound
rewrite_inbound_verifies ctrl_mac raw info entry parsed bytes ctrl_bytes six mac =
    let (long, low, high, l4_at, inside) =
      subst (Every (IsInside raw)) parsed (parse_eth_ip-IsInside raw) in
    let l4 = 14 + info.ip_ihl in
    let Good : Bytes × Option ℕ → Type 0 = λ p. checksum (between 14 l4 p.0) ≡ 0 in
    let host = host_mac ctrl_mac entry.src_mac in
    let (host_bytes, host_six) = host_mac-IsBytes ctrl_mac entry.src_mac ctrl_bytes six mac in
    let framed = set_between 0 6 host raw in
    let framed_bytes = set_between-IsBytes 0 6 host raw host_bytes bytes in
    let framed_long : 34 ≤ length framed = omega (arith, length-set_between 0 6 host raw) in
    subst
      (λ n.
        Every (λ (p : Bytes × Option ℕ). checksum (between 14 n p.0) ≡ 0)
          (rewrite_inbound ctrl_mac raw info entry))
      (sym l4_at)
      (Every-bind (λ (b : Bytes). IsBytes b × (length b ≡ 4)) Good (inet_aton entry.src_ip) _
        (inet_aton-Every entry.src_ip)
        (λ src known.
          translated_verifies l4 (set_between 30 34 src framed) _ (omega arith) (omega arith)
            (subst (λ n. 34 ≤ n) (sym (length-set_between 30 34 src framed (omega arith)))
              (omega arith))
            (set_between-IsBytes 30 34 src framed known.0 framed_bytes)
            (λ r.
              after_read (λ (p : Bytes × Option ℕ). Keeps l4 r p.0) (inet_aton entry.nat_ip) _
                (λ nat.
                  after_read (λ (p : Bytes × Option ℕ). Keeps l4 r p.0)
                    (peer_address info.proto entry.dst_ip) _
                    (λ dst.
                      rewrite_l4-Keeps info.proto l4 (l4 + 2) entry.src_port dst src r
                        (omega arith))))))
