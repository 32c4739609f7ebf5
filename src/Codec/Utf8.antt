-- ===== src/Codec/Utf8.antt =====
-- Python's `str.encode()` and `bytes.decode()`, both UTF-8. Texts hold no surrogates.
use cs305_2026spring_project.Prelude.{
  ℕ, zero, suc, ◌+◌, ◌*◌, ◌/◌, ◌%◌, ◌<◌, ◌≡◌, refl, true, Option, none, some, Bytes, Text, [], ◌∷◌,
  ◌++◌, All, arith, ltb, leb, if◌then◌else◌, ◌>>=◌, ◌&&◌, nat_beq,
}

unfoldable pub encode_char : ℕ → Bytes
encode_char c =
    if ltb c 128
    then c ∷ []
    else if ltb c 2048
    then (192 + c / 64) ∷ (128 + c % 64) ∷ []
    else if ltb c 65536
    then (224 + c / 4096) ∷ (128 + c / 64 % 64) ∷ (128 + c % 64) ∷ []
    else (240 + c / 262144) ∷ (128 + c / 4096 % 64) ∷ (128 + c / 64 % 64) ∷ (128 + c % 64) ∷ []

-- `s.encode()`
unfoldable pub encode : Text → Bytes
unfolding encode_char
encode [] = []
encode (c ∷ s) = encode_char c ++ encode s

-- Within a character: how many bytes are to come, the bits so far, the range of the next byte.
record Partial : Type 0 where
  need : ℕ
  bits : ℕ
  low : ℕ
  high : ℕ

abbrev fresh : Partial
fresh = record { need = 0; bits = 0; low = 0; high = 0 }

abbrev start : ℕ → ℕ → ℕ → ℕ → Option (Partial × Text)
start n bits low high = some (record { need = n; bits = bits; low = low; high = high }, [])

-- A first byte. The ranges exclude overlong forms, surrogates and what is past the last code point.
first_byte : ℕ → Option (Partial × Text)
first_byte b =
    if ltb b 128
    then some (fresh, b ∷ [])
    else if leb 194 b && leb b 223
    then start 1 (b % 32) 128 191
    else if nat_beq b 224
    then start 2 0 160 191
    else if nat_beq b 237
    then start 2 13 128 159
    else if leb 225 b && leb b 239
    then start 2 (b % 16) 128 191
    else if nat_beq b 240
    then start 3 0 144 191
    else if leb 241 b && leb b 243
    then start 3 (b % 8) 128 191
    else if nat_beq b 244
    then start 3 4 128 143
    else none

next_byte : ℕ → Partial → ℕ → Option (Partial × Text)
unfolding first_byte
next_byte zero p b = first_byte b
next_byte (suc zero) p b =
    if leb p.low b && leb b p.high then some (fresh, (p.bits * 64 + b % 64) ∷ []) else none
next_byte (suc (suc n)) p b =
    if leb p.low b && leb b p.high then start (suc n) (p.bits * 64 + b % 64) 128 191 else none

finish : ℕ → Option Text
finish zero = some []
finish (suc n) = none

decode_from : Partial → Bytes → Option Text
unfolding next_byte finish
decode_from p [] = finish p.need
decode_from p (b ∷ rest) = elim (next_byte p.need p b) [
  | none ↦ none
  | some (p', out) ↦ decode_from p' rest >>= λ s. some (out ++ s)
]

-- `b.decode()` raises for bytes that are not UTF-8.
unfoldable pub decode : Bytes → Option Text
unfolding decode_from
decode b = decode_from fresh b

abbrev replacement : ℕ
replacement = 0xfffd

-- After a byte that does not fit: the state behind it and what is put out.
restart : ℕ → ℕ → Partial × Text
unfolding first_byte
restart zero b = (fresh, replacement ∷ [])
restart (suc n) b = elim (first_byte b) [
  | none ↦ (fresh, replacement ∷ replacement ∷ [])
  | some (p, out) ↦ (p, replacement ∷ out)
]

replace_step : Partial → ℕ → Partial × Text
unfolding next_byte restart
replace_step p b = elim (next_byte p.need p b) [ none ↦ restart p.need b | some r ↦ r ]

replace_from : Partial → Bytes → Text
unfolding replace_step
replace_from p [] = if nat_beq p.need 0 then [] else replacement ∷ []
replace_from p (b ∷ rest) = let (p', out) = replace_step p b in out ++ replace_from p' rest

-- `b.decode('utf-8', errors='replace')`
unfoldable pub decode_replace : Bytes → Text
unfolding replace_from
decode_replace b = replace_from fresh b

abbrev pub IsAscii : Text → Type 0
IsAscii s = All (λ c. c < 128) s

pub encode_ascii : (s : Text) → IsAscii s → encode s ≡ s
unfolding encode
encode_ascii [] h = refl
encode_ascii (c ∷ s) h = ground (arith, encode_ascii s h.1)

decode_from_ascii : (s : Text) → IsAscii s → decode_from fresh s ≡ some s
unfolding decode_from
decode_from_ascii [] h = refl
decode_from_ascii (c ∷ s) h =
    let plain : ltb c 128 ≡ true = ground arith in
    rw (plain, decode_from) (rw (decode_from_ascii s h.1))

-- An ASCII text is its own encoding.
pub decode_ascii : (s : Text) → IsAscii s → decode s ≡ some s
unfolding decode
decode_ascii s h = decode_from_ascii s h

euro : decode (encode (8364 ∷ [])) ≡ some (8364 ∷ [])
unfolding decode encode
euro = refl

-- A character cut off by another one is replaced, and the other one is read.
replaced :
    decode_replace (65 ∷ 0xe2 ∷ 0x82 ∷ 66 ∷ 0xe0 ∷ 0x80 ∷ [])
    ≡ 65 ∷ 0xfffd ∷ 66 ∷ 0xfffd ∷ 0xfffd ∷ []
unfolding decode_replace
replaced = refl
