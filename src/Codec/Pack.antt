-- ===== src/Codec/Pack.antt =====
-- Python's `struct.pack` and `struct.unpack` in network order, over bytes as numbers below 256.
use cs305_2026spring_project.Prelude.{
  ℕ, ◌+◌, ◌*◌, ◌/◌, ◌%◌, ◌<◌, ◌≡◌, Option, none, some, Bytes, [], ◌∷◌, All, arith, ltb,
  if◌then◌else◌,
}

abbrev pub IsBytes : Bytes → Type 0
IsBytes b = All (λ x. x < 256) b

-- `struct.pack('!H', n)`, for n below 2 ^ 16.
unfoldable pub be16 : ℕ → Bytes
be16 n = n / 256 % 256 ∷ n % 256 ∷ []

-- `struct.pack('!I', n & 0xFFFFFFFF)`.
unfoldable pub be32 : ℕ → Bytes
be32 n = n / 16777216 % 256 ∷ n / 65536 % 256 ∷ n / 256 % 256 ∷ n % 256 ∷ []

-- `struct.pack('!H', n)` raises for a number that does not fit.
unfoldable pub pack16 : ℕ → Option Bytes
unfolding be16
pack16 n = if ltb n 65536 then some (be16 n) else none

-- `struct.unpack('!H', b)[0]`, which raises unless there are two bytes.
unfoldable pub unpack16 : Bytes → Option ℕ
unpack16 (a ∷ b ∷ []) = some (a * 256 + b)
unpack16 _ = none

-- `struct.unpack('!I', b)[0]`
unfoldable pub unpack32 : Bytes → Option ℕ
unpack32 (a ∷ b ∷ c ∷ d ∷ []) = some (a * 16777216 + b * 65536 + c * 256 + d)
unpack32 _ = none

pub unpack16-be16 : (n : ℕ) → n < 65536 → unpack16 (be16 n) ≡ some n
unfolding unpack16 be16
unpack16-be16 n h = ground arith

pub unpack32-be32 : (n : ℕ) → n < 4294967296 → unpack32 (be32 n) ≡ some n
unfolding unpack32 be32
unpack32-be32 n h = ground arith

be16-IsBytes : (n : ℕ) → IsBytes (be16 n)
unfolding be16
be16-IsBytes n = omega arith

pub be32-IsBytes : (n : ℕ) → IsBytes (be32 n)
unfolding be32
be32-IsBytes n = omega arith
