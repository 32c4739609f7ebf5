-- ===== src/Nat/Packet/Returned.antt =====
-- The hardware address that a translated reply is sent to.
use cs305_2026spring_project.Prelude.{
  ℕ, zero, suc, ◌+◌, ◌*◌, ◌%◌, ◌≤◌, ◌≡◌, refl, sym, ap, subst, ◌∙◌, not, ◌||◌, ltb, nat_beq, Option,
  some, Bytes, [], ◌∷◌, ◌++◌, arith, length, take, drop, get_elem?, length-append, length-take,
  length-drop, take_append_self,
}
use cs305_2026spring_project.Codec.Pack.{unpack16}
use cs305_2026spring_project.Codec.Inet.{inet_aton, inet_ntoa}
use cs305_2026spring_project.Codec.Checksum.{checksum}
use cs305_2026spring_project.Nat.Table.{Entry}
use cs305_2026spring_project.Nat.Packet.{
  peer_address, Info, between, set_between, set_word, refresh_ip, rewrite_l4, host_mac,
  rewrite_inbound, parse_eth_ip,
}
use cs305_2026spring_project.Nat.Packet.Keeps.{
  Every, Every-bind, Every-map, Keeps, after_read, after_require, after_zeros, set_word-Keeps,
  then-Keeps, take_prefix, rewrite_l4-Keeps,
}

-- The IP header starts behind the hardware addresses.
refresh_ip-Keeps : (l4 : ℕ) (d : Bytes) → Every (Keeps 6 d) (refresh_ip l4 d)
unfolding refresh_ip
refresh_ip-Keeps l4 d =
    after_zeros 6 24 25 d d (Keeps 6 d) _ (omega arith) (omega arith) (refl, refl)
      (λ zeroed kept.
        then-Keeps 6 d zeroed (λ r. r) (set_word 24 (checksum (between 14 l4 zeroed)) zeroed) kept
          (set_word-Keeps 6 24 (checksum (between 14 l4 zeroed)) zeroed (omega arith)))

-- What `_parse_eth_ip` calls the source address.
IsFront : Bytes → Info → Type 0
IsFront raw info = (info.src_mac ≡ take 6 raw) × (34 ≤ length raw)

take_front : (mac d : Bytes) → length mac ≡ 6 → take 6 (set_between 0 6 mac d) ≡ mac
take_front mac d e = ap (λ n. take n (mac ++ drop 6 d)) (sym e) ∙ take_append_self mac (drop 6 d)

take-take : (k m : ℕ) (d : Bytes) → k ≤ m → take k (take m d) ≡ take k d
take-take zero m d h = refl
take-take (suc k) zero d h = absurd (omega arith)
take-take (suc k) (suc m) [] h = refl
take-take (suc k) (suc m) (x ∷ d) h = ap (λ (t : Bytes). x ∷ t) (take-take k m d (omega arith))

narrow : (k m : ℕ) (d d' : Bytes) → k ≤ m → take m d' ≡ take m d → take k d' ≡ take k d
narrow k m d d' h e = sym (take-take k m d' h) ∙ ap (take k) e ∙ take-take k m d h

parse_eth_ip-IsFront : (raw : Bytes) → Every (IsFront raw) (parse_eth_ip raw)
unfolding parse_eth_ip IsFront
parse_eth_ip-IsFront raw =
    let Q = IsFront raw in
    after_require Q (not (ltb (length raw) 34)) _ (λ long.
      let enough : 34 ≤ length raw = ground arith in
      after_read Q (unpack16 (between 12 14 raw)) _ (λ eth_type.
        after_require Q (nat_beq eth_type 0x0800) _ (λ is_ip.
          after_read Q (get_elem? raw 14) _ (λ ver.
            after_require Q (not (ltb (ver % 16 * 4) 20 || ltb (length raw) (14 + ver % 16 * 4))) _
              (λ fits. after_read Q (get_elem? raw 23) _ (λ proto.
                after_read Q (unpack16 (between 16 18 raw)) _ (λ total.
                  after_read Q (inet_ntoa (between 26 30 raw)) _ (λ src.
                    after_read Q (inet_ntoa (between 30 34 raw)) _ (λ dst. (refl, enough))))))))))

host_mac_six : (ctrl_mac mac : Bytes) → length mac ≡ 6 → host_mac ctrl_mac mac ≡ mac
host_mac_six ctrl_mac [] e = absurd (omega arith)
host_mac_six ctrl_mac (x ∷ mac) e = refl

-- If the entry has the hardware address that _parse_eth_ip calls the source of an accepted packet,
-- then the packet that _rewrite_inbound returns for any accepted packet, if it does not raise, is
-- sent to the first six bytes of the former packet, which are its destination address.
pub rewrite_inbound_destination :
    (ctrl_mac raw back : Bytes) (info info' : Info) (entry : Entry)
    → parse_eth_ip raw ≡ some info
    → parse_eth_ip back ≡ some info'
    → entry.src_mac ≡ info.src_mac
    → Every
        (λ (p : Bytes × Option ℕ). take 6 p.0 ≡ take 6 raw)
        (rewrite_inbound ctrl_mac back info' entry)
unfolding rewrite_inbound IsFront
rewrite_inbound_destination ctrl_mac raw back info info' entry sent came same =
    let (front, long) = subst (Every (IsFront raw)) sent (parse_eth_ip-IsFront raw) in
    let (front', long') = subst (Every (IsFront back)) came (parse_eth_ip-IsFront back) in
    let Q : Bytes × Option ℕ → Type 0 = λ p. take 6 p.0 ≡ take 6 raw in
    let six : length entry.src_mac ≡ 6 =
      ap length (same ∙ front) ∙ omega (arith, length-take 6 raw) in
    let host = host_mac ctrl_mac entry.src_mac in
    let host_is : host ≡ take 6 raw = host_mac_six ctrl_mac entry.src_mac six ∙ same ∙ front in
    let host_six : length host ≡ 6 = ap length host_is ∙ omega (arith, length-take 6 raw) in
    let framed = set_between 0 6 host back in
    let framed_long : 30 ≤ length framed =
      omega (arith, length-append host (drop 6 back), length-drop 6 back) in
    let l4 = 14 + info'.ip_ihl in
    after_read Q (inet_aton entry.src_ip) _ (λ src.
      let d = set_between 30 34 src framed in
      let d_front : take 6 d ≡ take 6 raw =
        take_prefix 6 30 framed (src ++ drop 34 framed) (omega arith) framed_long
        ∙ take_front host back host_six
        ∙ host_is in
      Every-bind (Keeps 6 d) Q (refresh_ip l4 d) _ (refresh_ip-Keeps l4 d) (λ r kept.
        after_read Q (inet_aton entry.nat_ip) _ (λ nat.
          after_read Q (peer_address info'.proto entry.dst_ip) _ (λ dst.
            Every-map (λ (p : Bytes × Option ℕ). Keeps l4 r p.0) Q
              (rewrite_l4 info'.proto l4 (l4 + 2) entry.src_port dst src r)
              (λ p agrees. narrow 6 l4 r p.0 (omega arith) agrees.0 ∙ kept.0 ∙ d_front)
              (rewrite_l4-Keeps info'.proto l4 (l4 + 2) entry.src_port dst src r (omega arith))))))
