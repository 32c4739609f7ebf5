-- ===== src/Nat/Packet/Header.antt =====
-- The IP header of a rewritten packet verifies.
use mathlib.Core.List.{append_assoc}
use cs305_2026spring_project.Prelude.{
  ℕ, suc, zero, ◌+◌, ◌-◌, ◌/◌, ◌%◌, ◌≤◌, ◌<◌, ◌≡◌, refl, sym, ap, subst, ◌∙◌, true, some, Bytes, [],
  ◌∷◌, ◌++◌, ltb, arith, length, take, drop, All-append, length-append, length-take, length-drop,
  drop_append_self, drop-drop, take_append_self,
}
use cs305_2026spring_project.Codec.Pack.{IsBytes}
use cs305_2026spring_project.Codec.Checksum.{checksum, with_field, checksum_verifies}
use cs305_2026spring_project.Nat.Packet.{between, set_byte, set_word, refresh_ip}
use cs305_2026spring_project.Nat.Packet.Keeps.{Every}

-- One byte behind a prefix.
set_byte_behind :
    (k : ℕ) (pre : Bytes) (v x : ℕ) (post : Bytes)
    → length pre ≡ k
    → set_byte k v (pre ++ (x ∷ post)) ≡ some (pre ++ (v ∷ post))
unfolding set_byte
set_byte_behind k pre v x post e =
    let inside : ltb k (length (pre ++ (x ∷ post))) ≡ true =
      ground (arith, length-append pre (x ∷ post)) in
    let first : take k (pre ++ (x ∷ post)) ≡ pre =
      ap (λ n. take n (pre ++ (x ∷ post))) (sym e) ∙ take_append_self pre (x ∷ post) in
    let rest : drop (k + 1) (pre ++ (x ∷ post)) ≡ post =
      sym (drop-drop 1 k (pre ++ (x ∷ post)))
      ∙ ap (λ n. drop 1 (drop n (pre ++ (x ∷ post)))) (sym e)
      ∙ ap (drop 1) (drop_append_self pre (x ∷ post)) in
    rw (inside, first, rest) refl

-- And the one after it.
set_byte_second :
    (pre : Bytes) (v x y : ℕ) (post : Bytes)
    → length pre ≡ 24
    → set_byte 25 v (pre ++ (x ∷ y ∷ post)) ≡ some (pre ++ (x ∷ v ∷ post))
set_byte_second pre v x y post e =
    subst (λ (d : Bytes). set_byte 25 v d ≡ some (pre ++ (x ∷ v ∷ post)))
      (append_assoc pre (x ∷ []) (y ∷ post))
      (set_byte_behind 25 (pre ++ (x ∷ [])) v y post
          (length-append pre (x ∷ []) ∙ ap (λ n. n + 1) e)
        ∙ ap some (append_assoc pre (x ∷ []) (v ∷ post)))

refresh_ip_written :
    (l4 : ℕ) (pre : Bytes) (x y : ℕ) (post : Bytes)
    → length pre ≡ 24
    → refresh_ip l4 (pre ++ (x ∷ y ∷ post))
      ≡ some (with_field pre (checksum (between 14 l4 (with_field pre 0 post))) post)
unfolding refresh_ip set_word
refresh_ip_written l4 pre x y post e =
    let c = checksum (between 14 l4 (with_field pre 0 post)) in
    rw
      (
        set_byte_behind 24 pre 0 x (y ∷ post) e,
        set_byte_second pre 0 0 y post e,
        set_byte_behind 24 pre (c / 256 % 256) 0 (0 ∷ post) e,
        set_byte_second pre (c % 256) (c / 256 % 256) 0 post e,
      )
      refl

pub All-take : (n : ℕ) (d : Bytes) → IsBytes d → IsBytes (take n d)
All-take zero d h = tt
All-take (suc n) [] h = tt
All-take (suc n) (x ∷ d) h = (h.0, All-take n d h.1)

pub All-drop : (n : ℕ) (d : Bytes) → IsBytes d → IsBytes (drop n d)
All-drop zero d h = h
All-drop (suc n) [] h = tt
All-drop (suc n) (x ∷ d) h = All-drop n d h.1

drop_prefix : (k : ℕ) (pre r : Bytes) → k ≤ length pre → drop k (pre ++ r) ≡ drop k pre ++ r
drop_prefix zero pre r h = refl
drop_prefix (suc k) [] r h = absurd (omega arith)
drop_prefix (suc k) (p ∷ pre) r h = drop_prefix k pre r (omega arith)

take_behind :
    (n : ℕ) (pre r : Bytes) → length pre ≤ n → take n (pre ++ r) ≡ pre ++ take (n - length pre) r
take_behind n [] r h = ap (λ m. take m r) (omega arith)
take_behind zero (p ∷ pre) r h = absurd (omega arith)
take_behind (suc n) (p ∷ pre) r h =
    ap (λ (t : Bytes). p ∷ t) (take_behind n pre r (omega arith))
    ∙ ap (λ m. p ∷ (pre ++ take m r)) (omega arith)

-- The header's part of a packet with a field at 24.
between_field :
    (l4 : ℕ) (pre : Bytes) (v : ℕ) (post : Bytes)
    → length pre ≡ 24
    → 26 ≤ l4
    → between 14 l4 (with_field pre v post) ≡ with_field (drop 14 pre) v (take (l4 - 26) post)
between_field l4 pre v post e low =
    let r = v / 256 % 256 ∷ v % 256 ∷ post in
    let len : length (drop 14 pre) ≡ 10 = length-drop 14 pre ∙ ap (λ n. n - 14) e in
    let left : l4 - 14 - length (drop 14 pre) ≡ suc (suc (l4 - 26)) = omega arith in
    ap (take (l4 - 14)) (drop_prefix 14 pre r (omega arith))
    ∙ take_behind (l4 - 14) (drop 14 pre) r (omega arith)
    ∙ ap (λ n. drop 14 pre ++ take n r) left

-- The header's part of the packet, with the checksum written.
header_verifies :
    (l4 : ℕ) (pre post : Bytes)
    → length pre ≡ 24
    → 26 ≤ l4
    → l4 ≤ 131082
    → IsBytes pre
    → IsBytes post
    → checksum
        (between 14 l4 (with_field pre (checksum (between 14 l4 (with_field pre 0 post))) post))
      ≡ 0
header_verifies l4 pre post e low high bp bq =
    let head = drop 14 pre in
    let rest = take (l4 - 26) post in
    let zeroed = between_field l4 pre 0 post e low in
    let len : length head ≡ 10 = length-drop 14 pre ∙ ap (λ n. n - 14) e in
    let small = λ (x : ℕ). x < 256 in
    let bytes : IsBytes (with_field head 0 rest) =
      All-append small head (0 ∷ 0 ∷ rest) (All-drop 14 pre bp)
        (omega arith, (omega arith, All-take (l4 - 26) post bq)) in
    ap (λ c. checksum (between 14 l4 (with_field pre (checksum c) post))) zeroed
    ∙ ap checksum (between_field l4 pre (checksum (with_field head 0 rest)) post e low)
    ∙ checksum_verifies head rest (omega arith) bytes
        (omega (arith, length-append head (0 ∷ 0 ∷ rest), length-take (l4 - 26) post))

-- A packet taken apart at the field.
split_field :
    (n : ℕ) (d : Bytes)
    → n + 2 ≤ length d
    → (x : ℕ) × (y : ℕ) × (d ≡ take n d ++ (x ∷ y ∷ drop (n + 2) d))
split_field zero [] h = absurd (omega arith)
split_field zero (x ∷ []) h = absurd (omega arith)
split_field zero (x ∷ y ∷ d) h = (x, y, refl)
split_field (suc n) [] h = absurd (omega arith)
split_field (suc n) (x ∷ d) h =
    let moved : suc (n + 2) ≡ suc n + 2 = omega arith in
    let (a, b, e) = split_field n d (omega arith) in
    (a, b, ap (λ (t : Bytes). x ∷ t) e ∙ ap (λ m. x ∷ (take n d ++ (a ∷ b ∷ drop m (x ∷ d)))) moved)

-- Any packet of bytes.
pub refresh_ip-verifies :
    (l4 : ℕ) (d : Bytes)
    → 26 ≤ l4
    → l4 ≤ 131082
    → 26 ≤ length d
    → IsBytes d
    → Every (λ (r : Bytes). checksum (between 14 l4 r) ≡ 0) (refresh_ip l4 d)
refresh_ip-verifies l4 d low high long bytes =
    let (x, y, e) = split_field 24 d long in
    let pre = take 24 d in
    let post = drop 26 d in
    let len : length pre ≡ 24 = omega (arith, length-take 24 d) in
    subst (Every (λ (r : Bytes). checksum (between 14 l4 r) ≡ 0))
      (sym (ap (refresh_ip l4) e ∙ refresh_ip_written l4 pre x y post len))
      (header_verifies l4 pre post len low high (All-take 24 d bytes) (All-drop 26 d bytes))
