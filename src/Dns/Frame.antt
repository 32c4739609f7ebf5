-- ===== src/Dns/Frame.antt =====
-- dns_server.py, `_send_response`: the response as an Ethernet frame with IPv4 and UDP headers. The
-- hardware addresses come in binary, as os-ken's `addrconv` gives them.
use cs305_2026spring_project.Prelude.{
  ℕ, ◌+◌, ◌<◌, ◌≡◌, refl, Option, some, Bytes, Text, [], ◌∷◌, ◌++◌, arith, ◌>>=◌, length, take,
  drop, length-append, All-append, take_append_self, drop_append_self, drop-drop, subst, sym, ap,
  ◌∙◌, >>=-eq-some,
}
use cs305_2026spring_project.Codec.Pack.{IsBytes, be16, pack16}
use cs305_2026spring_project.Codec.Inet.{inet_aton, inet_aton-IsBytes}
use cs305_2026spring_project.Codec.Checksum.{checksum, with_field, checksum_verifies}

-- The 20 bytes of the IP header, with a checksum field.
unfoldable pub ip_header : Bytes → ℕ → Bytes → Bytes → Bytes
ip_header total csum src dst =
    with_field (0x45 ∷ 0 ∷ (total ++ (0 ∷ 0 ∷ 0x40 ∷ 0 ∷ 64 ∷ 17 ∷ []))) csum (src ++ dst)

unfoldable pub udp_header : Bytes → Bytes → ℕ → Bytes
udp_header client_port len csum = with_field (0 ∷ 53 ∷ (client_port ++ len)) csum []

abbrev pub pseudo_header : Bytes → Bytes → Bytes → Bytes
pseudo_header src dst len = src ++ (dst ++ (0 ∷ 17 ∷ len))

-- `full`: the headers and the payload, with both checksums.
unfoldable pub assemble : Bytes → Bytes → Bytes → Bytes → Bytes → Bytes → Bytes → Bytes → Bytes
unfolding ip_header udp_header
assemble dst_mac src_mac src dst total port len payload =
    let csum = checksum (pseudo_header src dst len ++ (udp_header port len 0 ++ payload)) in
    dst_mac
    ++ (src_mac
        ++ (0x08
            ∷ 0
            ∷ (ip_header total (checksum (ip_header total 0 src dst)) src dst
                ++ (udp_header port len csum ++ payload))))

-- For the addresses of the query with source and destination swapped; an exception is `none`.
unfoldable pub response_frame : Text → Text → Bytes → Bytes → ℕ → Bytes → Option Bytes
response_frame query_dst query_src src_mac dst_mac client_port payload = do
  src ← inet_aton query_dst
  dst ← inet_aton query_src
  total ← pack16 (20 + (8 + length payload))
  port ← pack16 client_port
  len ← pack16 (8 + length payload)
  some (assemble dst_mac src_mac src dst total port len payload)

-- The IP header that is sent has checksum zero, as a receiver tests.
ip_header_verifies :
    (n : ℕ) (src dst : Bytes)
    → length src ≡ 4
    → length dst ≡ 4
    → IsBytes src
    → IsBytes dst
    → checksum (ip_header (be16 n) (checksum (ip_header (be16 n) 0 src dst)) src dst) ≡ 0
unfolding ip_header be16
ip_header_verifies n src dst ls ld bs bd =
    let pre = 0x45 ∷ 0 ∷ (be16 n ++ (0 ∷ 0 ∷ 0x40 ∷ 0 ∷ 64 ∷ 17 ∷ [])) in
    let small = λ (x : ℕ). x < 256 in
    checksum_verifies pre (src ++ dst) refl
      (All-append small (pre ++ (0 ∷ 0 ∷ [])) (src ++ dst) (omega arith)
        (All-append small src dst bs bd))
      (omega (arith, length-append src dst))

pack16-eq : (n : ℕ) {b : Bytes} → pack16 n ≡ some b → b ≡ be16 n
unfolding pack16
pack16-eq n h = ground arith

-- A prefix of known length is cut off.
drop_prefix : (n : ℕ) (xs ys : Bytes) → length xs ≡ n → drop n (xs ++ ys) ≡ ys
drop_prefix n xs ys e = subst (λ k. drop k (xs ++ ys) ≡ ys) e (drop_append_self xs ys)

take_prefix : (n : ℕ) (xs ys : Bytes) → length xs ≡ n → take n (xs ++ ys) ≡ xs
take_prefix n xs ys e = subst (λ k. take k (xs ++ ys) ≡ xs) e (take_append_self xs ys)

length-ip_header :
    (n c : ℕ) (src dst : Bytes)
    → length src ≡ 4
    → length dst ≡ 4
    → length (ip_header (be16 n) c src dst) ≡ 20
unfolding ip_header be16
length-ip_header n c src dst ls ld = omega (arith, length-append src dst)

-- Where the header stands in the frame.
header_in_frame :
    (dm sm header rest : Bytes) (a b : ℕ)
    → length dm ≡ 6
    → length sm ≡ 6
    → length header ≡ 20
    → take 20 (drop 14 (dm ++ (sm ++ (a ∷ b ∷ (header ++ rest))))) ≡ header
header_in_frame dm sm header rest a b ldm lsm lh =
    let tail = a ∷ b ∷ (header ++ rest) in
    let behind : drop 14 (dm ++ (sm ++ tail)) ≡ header ++ rest =
      sym (drop-drop 8 6 (dm ++ (sm ++ tail)))
      ∙ ap (drop 8) (drop_prefix 6 dm (sm ++ tail) ldm)
      ∙ sym (drop-drop 2 6 (sm ++ tail))
      ∙ ap (drop 2) (drop_prefix 6 sm tail lsm) in
    ap (take 20) behind ∙ take_prefix 20 header rest lh

assemble_verifies :
    (n : ℕ) (dm sm src dst total port len payload : Bytes)
    → length dm ≡ 6
    → length sm ≡ 6
    → IsBytes src × (length src ≡ 4)
    → IsBytes dst × (length dst ≡ 4)
    → total ≡ be16 n
    → checksum (take 20 (drop 14 (assemble dm sm src dst total port len payload))) ≡ 0
unfolding assemble
assemble_verifies n dm sm src dst total port len payload ldm lsm hs hd e =
    let c = checksum (ip_header (be16 n) 0 src dst) in
    rw
      (
        e,
        header_in_frame dm sm (ip_header (be16 n) c src dst) _ 0x08 0 ldm lsm
            (length-ip_header n c src dst hs.1 hd.1),
      )
      (ip_header_verifies n src dst hs.1 hd.1 hs.0 hd.0)

-- In every frame that _send_response builds for six-byte hardware addresses, the IP header has
-- checksum zero.
pub response_frame_verifies :
    (query_dst query_src : Text) (src_mac dst_mac payload f : Bytes) (client_port : ℕ)
    → length src_mac ≡ 6
    → length dst_mac ≡ 6
    → response_frame query_dst query_src src_mac dst_mac client_port payload ≡ some f
    → checksum (take 20 (drop 14 f)) ≡ 0
unfolding response_frame
response_frame_verifies qd qs sm dm payload f port lsm ldm h =
    let (src, es, h1) = >>=-eq-some (inet_aton qd) _ h in
    let (dst, ed, h2) = >>=-eq-some (inet_aton qs) _ h1 in
    let (total, et, h3) = >>=-eq-some (pack16 (20 + (8 + length payload))) _ h2 in
    let (p, ep, h4) = >>=-eq-some (pack16 port) _ h3 in
    let (len, el, h5) = >>=-eq-some (pack16 (8 + length payload)) _ h4 in
    let e : f ≡ assemble dm sm src dst total p len payload = cc h5 in
    subst (λ x. checksum (take 20 (drop 14 x)) ≡ 0) (sym e)
      (assemble_verifies (20 + (8 + length payload)) dm sm src dst total p len payload ldm lsm
        (inet_aton-IsBytes qd es) (inet_aton-IsBytes qs ed) (pack16-eq _ et))
