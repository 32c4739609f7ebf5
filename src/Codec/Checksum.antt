-- ===== src/Codec/Checksum.antt =====
-- The Internet checksum: nat.py `_checksum`, and the same code in dns_server.py.
use cs305_2026spring_project.Prelude.{
  ℕ, ◌+◌, ◌-◌, ◌*◌, ◌/◌, ◌%◌, ◌≤◌, ◌<◌, ◌≡◌, Bytes, [], ◌∷◌, ◌++◌, arith, length,
}
use cs305_2026spring_project.Codec.Pack.{IsBytes}

-- The sum of the 16-bit words; an odd last byte is padded with a zero.
unfoldable pub word_sum : Bytes → ℕ
word_sum [] = 0
word_sum (a ∷ []) = a * 256
word_sum (a ∷ b ∷ rest) = a * 256 + b + word_sum rest

-- `s = (s >> 16) + (s & 0xFFFF); s += s >> 16; return ~s & 0xFFFF`
unfoldable pub fold_carry : ℕ → ℕ
fold_carry s = let t = s / 65536 + s % 65536 in 65535 - (t + t / 65536) % 65536

unfoldable pub checksum : Bytes → ℕ
unfolding word_sum fold_carry
checksum b = fold_carry (word_sum b)

pub checksum-lt : (b : Bytes) → checksum b < 65536
unfolding checksum fold_carry
checksum-lt b = omega arith

-- Adding the checksum to the sum makes the folded result zero.
fold_carry_self : (s : ℕ) → s < 4294901760 → fold_carry (s + fold_carry s) ≡ 0
unfolding fold_carry
fold_carry_self s h = omega arith

word_sum_set :
    (pre post : Bytes) (hi lo : ℕ)
    → length pre % 2 ≡ 0
    → word_sum (pre ++ (hi ∷ lo ∷ post)) ≡ word_sum (pre ++ (0 ∷ 0 ∷ post)) + (hi * 256 + lo)
unfolding word_sum
word_sum_set [] post hi lo h = omega arith
word_sum_set (a ∷ []) post hi lo h = absurd (omega arith)
word_sum_set (a ∷ b ∷ pre) post hi lo h = omega (arith, word_sum_set pre post hi lo (omega arith))

word_sum-le : (b : Bytes) → IsBytes b → 2 * word_sum b ≤ 65535 * (length b + 1)
unfolding word_sum
word_sum-le [] h = omega arith
word_sum-le (a ∷ []) h = omega arith
word_sum-le (a ∷ b ∷ rest) h = omega (arith, word_sum-le rest h.1.1)

-- The bytes with a 16-bit field written between two parts of them.
abbrev pub with_field : Bytes → ℕ → Bytes → Bytes
with_field pre v post = pre ++ (v / 256 % 256 ∷ v % 256 ∷ post)

-- A block of at most 131068 bytes with the checksum of the block written into its zeroed checksum
-- field, at an even offset, has checksum zero.
pub checksum_verifies :
    (pre post : Bytes)
    → length pre % 2 ≡ 0
    → IsBytes (with_field pre 0 post)
    → length (with_field pre 0 post) ≤ 131068
    → checksum (with_field pre (checksum (with_field pre 0 post)) post) ≡ 0
unfolding checksum
checksum_verifies pre post even bytes short =
    let s = word_sum (with_field pre 0 post) in
    let c = fold_carry s in
    let moved : word_sum (with_field pre c post) ≡ s + c = omega (
      arith,
      word_sum_set pre post (c / 256 % 256) (c % 256) even,
      checksum-lt (with_field pre 0 post),
    ) in
    rw moved (fold_carry_self s (omega (arith, word_sum-le (with_field pre 0 post) bytes)))
