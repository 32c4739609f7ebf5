-- ===== src/Codec/Inet.antt =====
-- Python's `socket.inet_aton` and `socket.inet_ntoa`, and the program's conversions by them: nat.py
-- and dhcp.py, `_ip_to_int` and `_int_to_ip`. Of the notations that `inet_aton` reads, the model has
-- the dotted quad of plain decimal numbers, the only one that the program writes.

use cs305_2026spring_project.Prelude.{
  ℕ, ◌+◌, ◌-◌, ◌*◌, ◌/◌, ◌%◌, ◌<◌, ◌≡◌, refl, Option, none, some, Bytes, Text, List, [], ◌∷◌, map,
  All, arith, ltb, leb, nat_beq, if◌then◌else◌, ◌>>=◌, ◌>>◌, require, >>=-eq-some, subst, ◌&&◌, not,
  length,
}
use cs305_2026spring_project.Prelude.Split.{split, join, split-join, Lacks}
use cs305_2026spring_project.Codec.Pack.{IsBytes, be32, unpack32, be32-IsBytes, unpack32-be32}

-- A byte in decimal.
unfoldable pub octet : ℕ → Text
octet n =
    if ltb n 10
    then (48 + n) ∷ []
    else if ltb n 100
    then (48 + n / 10) ∷ (48 + n % 10) ∷ []
    else (48 + n / 100) ∷ (48 + n / 10 % 10) ∷ (48 + n % 10) ∷ []

unfoldable pub digit : ℕ → Option ℕ
digit c = if leb 48 c && leb c 57 then some (c - 48) else none

unfoldable pub parse_octet : Text → Option ℕ
unfolding digit
parse_octet (a ∷ []) = digit a
parse_octet (a ∷ b ∷ []) = do
  x ← digit a
  y ← digit b
  require (not (nat_beq x 0))
  some (x * 10 + y)
parse_octet (a ∷ b ∷ c ∷ []) = do
  x ← digit a
  y ← digit b
  z ← digit c
  require (not (nat_beq x 0) && ltb (x * 100 + y * 10 + z) 256)
  some (x * 100 + y * 10 + z)
parse_octet _ = none

unfoldable pub parse_octets : List Text → Option Bytes
parse_octets [] = some []
parse_octets (w ∷ ws) = do x ← parse_octet w; xs ← parse_octets ws; some (x ∷ xs)

-- `socket.inet_ntoa(packed)` raises unless there are four bytes.
unfoldable pub inet_ntoa : Bytes → Option Text
unfolding octet join
inet_ntoa (a ∷ b ∷ c ∷ d ∷ []) = some (join b'.' (map octet (a ∷ b ∷ c ∷ d ∷ [])))
inet_ntoa _ = none

-- `socket.inet_aton(ip)`
unfoldable pub inet_aton : Text → Option Bytes
unfolding split parse_octet parse_octets
inet_aton s = do b ← parse_octets (split b'.' s); require (nat_beq (length b) 4); some b

unfoldable pub ip_to_int : Text → Option ℕ
unfolding inet_aton unpack32
ip_to_int s = do b ← inet_aton s; unpack32 b

-- `_int_to_ip(i)`
unfoldable pub int_to_ip : ℕ → Text
unfolding octet join be32
int_to_ip i = join b'.' (map octet (be32 i))

parse_octet-octet : (n : ℕ) → n < 256 → parse_octet (octet n) ≡ some n
unfolding parse_octet octet
parse_octet-octet n h = ground arith

octet-Lacks : (n : ℕ) → n < 256 → Lacks b'.' (octet n)
unfolding octet
octet-Lacks n h = ground arith

octets-Lacks : (b : Bytes) → IsBytes b → All (Lacks b'.') (map octet b)
octets-Lacks [] h = tt
octets-Lacks (x ∷ b) h = (octet-Lacks x h.0, octets-Lacks b h.1)

parse_octets-octets : (b : Bytes) → IsBytes b → parse_octets (map octet b) ≡ some b
unfolding parse_octets
parse_octets-octets [] h = refl
parse_octets-octets (x ∷ b) h = rw (parse_octet-octet x h.0, parse_octets-octets b h.1)

-- A packed address is read back from its dotted text.
pub inet_aton-octets :
    (a b c d : ℕ)
    → IsBytes (a ∷ b ∷ c ∷ d ∷ [])
    → inet_aton (join b'.' (map octet (a ∷ b ∷ c ∷ d ∷ []))) ≡ some (a ∷ b ∷ c ∷ d ∷ [])
unfolding inet_aton
inet_aton-octets a b c d h =
    let quad = a ∷ b ∷ c ∷ d ∷ [] in
    rw (
      split-join b'.' (octet a) (map octet (b ∷ c ∷ d ∷ [])) (octets-Lacks quad h),
      parse_octets-octets quad h,
    )

-- _ip_to_int reads every number below 2 ^ 32 back from the dotted text that _int_to_ip makes of
-- it.
pub ip_to_int-int_to_ip : (i : ℕ) → i < 4294967296 → ip_to_int (int_to_ip i) ≡ some i
unfolding ip_to_int int_to_ip be32
ip_to_int-int_to_ip i h =
    let quad =
      inet_aton-octets (i / 16777216 % 256) (i / 65536 % 256) (i / 256 % 256) (i % 256)
        (be32-IsBytes i) in
    rw quad (unpack32-be32 i h)

parse_octet-lt : (w : Text) {x : ℕ} → parse_octet w ≡ some x → x < 256
unfolding parse_octet
parse_octet-lt [] h = cc
parse_octet-lt (a ∷ []) h = ground arith
parse_octet-lt (a ∷ b ∷ []) h = ground arith
parse_octet-lt (a ∷ b ∷ c ∷ []) h = ground arith
parse_octet-lt (a ∷ b ∷ c ∷ d ∷ w) h = cc

parse_octets-IsBytes : (ws : List Text) {b : Bytes} → parse_octets ws ≡ some b → IsBytes b
unfolding parse_octets
parse_octets-IsBytes [] {b} h = let e : [] ≡ b = cc h in subst IsBytes e tt
parse_octets-IsBytes (w ∷ ws) {b} h =
    let (x, ex, rest) = >>=-eq-some (parse_octet w) _ h in
    let (xs, exs, last) = >>=-eq-some (parse_octets ws) _ rest in
    let e : x ∷ xs ≡ b = cc last in
    subst IsBytes e (parse_octet-lt w ex, parse_octets-IsBytes ws exs)

-- What `inet_aton` returns is four bytes.
pub inet_aton-IsBytes : (s : Text) {b : Bytes} → inet_aton s ≡ some b → IsBytes b × (length b ≡ 4)
unfolding inet_aton
inet_aton-IsBytes s {b} h =
    let (x, ex, rest) = >>=-eq-some (parse_octets (split b'.' s)) _ h in
    let e : x ≡ b = ground arith in
    (subst IsBytes e (parse_octets-IsBytes (split b'.' s) ex), ground arith)
