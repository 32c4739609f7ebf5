-- ===== src/Dns/Name.antt =====
-- dns_server.py, `_encode_domain` and `_decode_domain`: names in wire format, the labels behind
-- their lengths, with compression pointers. Reverse names, `_ip_to_ptr_name` and `_ptr_name_to_ip`.
pub mod RoundTrip
pub mod Reverse
pub mod Pointer
use mathlib.Core.List.{reverse}
use cs305_2026spring_project.Prelude.{
  ℕ, zero, suc, ◌+◌, ◌-◌, ◌*◌, ◌%◌, ◌≡◌, Bool, Option, none, some, Bytes, Text, List, [], ◌∷◌, ◌++◌,
  ltb, leb, if◌then◌else◌, ◌>>=◌, ◌>>◌, require, length, take, drop, nat_beq, get_elem?, codes,
  ◌==◌, text_eq, ◌&&◌,
}
use cs305_2026spring_project.Prelude.Split.{split, join}
use cs305_2026spring_project.Codec.Utf8.{encode, decode}
use cs305_2026spring_project.Codec.Pack.{unpack16}

-- `struct.pack('B', len(part)) + part.encode()`: the length counts characters.
unfoldable pub encode_label : Text → Option Bytes
unfolding encode
encode_label part = if ltb (length part) 256 then some (length part ∷ encode part) else none

unfoldable pub encode_labels : List Text → Option Bytes
unfolding encode_label
encode_labels [] = some (0 ∷ [])
encode_labels (part ∷ parts) = do
  first ← encode_label part
  rest ← encode_labels parts
  some (first ++ rest)

-- `_encode_domain(name)`; `none` is an exception.
unfoldable pub encode_domain : Text → Option Bytes
unfolding encode_labels split
encode_domain name = encode_labels (split b'.' name)

-- How a decoding ends. `running` means that the fuel ran out, which the code does not have.
pub data Decoded : Type 0 where
  done : Text → ℕ → Decoded
  raised : Decoded
  running : Decoded

-- The loop's variables: `jumped` and `jumped_offset` are one option.
pub record Scan : Type 0 where
  pub offset : ℕ
  pub labels : List Text
  pub jumped : Option ℕ

-- What one round of the loop does.
pub data Round : Type 0 where
  stop : Scan → Round
  again : Scan → Round
  fail : Round

-- `jumped_offset if jumped else offset`
abbrev pub end_offset : Option ℕ → ℕ → ℕ
end_offset none offset = offset
end_offset (some o) offset = o

-- `data[offset:offset + n]`
abbrev pub slice : ℕ → ℕ → Bytes → Bytes
slice offset n b = take n (drop offset b)

-- The branch for a length byte with both high bits set.
unfoldable pub follow_pointer : Bytes → Scan → Round
unfolding unpack16
follow_pointer b s = elim (unpack16 (slice s.offset 2 b)) [
  | none ↦ fail
  | some w ↦
      again (record s { offset = w % 16384; jumped = some (end_offset s.jumped (s.offset + 2)) })
]

-- The branch for a label.
unfoldable pub read_label : Bytes → ℕ → Scan → Round
unfolding decode
read_label b n s = elim (decode (slice (s.offset + 1) n b)) [
  | none ↦ fail
  | some l ↦ again (record s { offset = s.offset + 1 + n; labels = s.labels ++ (l ∷ []) })
]

-- One round: a byte has both high bits set if it is at least 192.
unfoldable pub round : Bytes → Scan → Round
unfolding follow_pointer read_label
round b s = elim (get_elem? b s.offset) [
  | none ↦ stop s
  | some n ↦
      if nat_beq n 0
      then stop (record s { offset = s.offset + 1 })
      else if leb 192 n
      then follow_pointer b s
      else read_label b n s
]

-- `while True:` on fuel.
unfoldable pub decode_loop : ℕ → Bytes → Scan → Decoded
unfolding round join
decode_loop zero b s = running
decode_loop (suc fuel) b s = elim (round b s) [
  | stop t ↦ done (join b'.' t.labels) (end_offset t.jumped t.offset)
  | again t ↦ decode_loop fuel b t
  | fail ↦ raised
]

-- `_decode_domain(data, offset)`
unfoldable pub decode_domain : ℕ → Bytes → ℕ → Decoded
unfolding decode_loop
decode_domain fuel b offset =
    decode_loop fuel b (record { offset = offset; labels = []; jumped = none })

abbrev pub suffix : Text
suffix = codes ".in-addr.arpa"

-- `name.endswith(suffix)`: the name without it, if it has it.
unfoldable pub strip_suffix : Text → Text
strip_suffix name =
    if leb (length suffix) (length name) && (drop (length name - length suffix) name == suffix)
    then take (length name - length suffix) name
    else name

-- `_ip_to_ptr_name(ip_str)`
unfoldable pub ip_to_ptr_name : Text → Text
unfolding split join
ip_to_ptr_name ip = join b'.' (reverse (split b'.' ip)) ++ suffix

-- `_ptr_name_to_ip(name)`
unfoldable pub ptr_name_to_ip : Text → Text
unfolding split join strip_suffix
ptr_name_to_ip name = join b'.' (reverse (split b'.' (strip_suffix name)))
