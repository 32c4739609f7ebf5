-- ===== src/Dns/Name/RoundTrip.antt =====
-- A name that is encoded is read back, wherever it stands in a message.
use mathlib.Core.List.{append_assoc, append-nil}
use mathlib.Core.Path.{ap₂}
use cs305_2026spring_project.Prelude.{
  ℕ, zero, suc, ◌+◌, ◌<◌, ◌≡◌, refl, sym, ap, ◌∙◌, none, some, Bytes, Text, List, [], ◌∷◌, ◌++◌,
  All, arith, ltb, length, drop, leb, nat_beq, length-append, get_elem?_of_drop, drop-drop,
  take_append_self, drop_append_self, true, false,
}
use cs305_2026spring_project.Prelude.Split.{split, join, join-split}
use cs305_2026spring_project.Codec.Utf8.{IsAscii, encode_ascii, decode_ascii}
use cs305_2026spring_project.Dns.Name.{
  encode_labels, encode_domain, done, again, stop, Scan, round, read_label, decode_loop,
  decode_domain,
}

-- A label that is not empty, is ASCII, and has a length byte that is no pointer.
abbrev pub IsLabel : Text → Type 0
IsLabel p = (0 < length p) × (length p < 192) × IsAscii p

abbrev pub IsName : Text → Type 0
IsName name = All IsLabel (split b'.' name)

-- Labels in wire format.
wire : List Text → Bytes
wire [] = 0 ∷ []
wire (p ∷ ps) = length p ∷ (p ++ wire ps)

encode_labels-eq-wire : (ps : List Text) → All IsLabel ps → encode_labels ps ≡ some (wire ps)
unfolding encode_labels wire
encode_labels-eq-wire [] h = refl
encode_labels-eq-wire (p ∷ ps) h =
    let short : ltb (length p) 256 ≡ true = ground arith in
    rw (short, encode_ascii p h.0.2, encode_labels-eq-wire ps h.1)

-- One round over a label.
round_label :
    (b : Bytes) (s : Scan) (p : Text) (r : Bytes)
    → IsLabel p
    → drop s.offset b ≡ length p ∷ (p ++ r)
    → round b s
      ≡ again (record s { offset = s.offset + 1 + length p; labels = s.labels ++ (p ∷ []) })
unfolding round
round_label b s p r h e =
    let here = get_elem?_of_drop s.offset b e in
    let rest : drop (s.offset + 1) b ≡ p ++ r = sym (drop-drop 1 s.offset b) ∙ ap (drop 1) e in
    let plain : leb 192 (length p) ≡ false = ground arith in
    let some_length : nat_beq (length p) 0 ≡ false = ground arith in
    rw (here, round)
      (rw (plain, some_length)
        (rw (rest, read_label) (rw (take_append_self p r, decode_ascii p h.2))))

-- One round over the final zero.
round_end :
    (b : Bytes) (s : Scan) (r : Bytes)
    → drop s.offset b ≡ 0 ∷ r
    → round b s ≡ stop (record s { offset = s.offset + 1 })
unfolding round
round_end b s r e = let here = get_elem?_of_drop s.offset b e in rw (here, round)

-- The loop reads all labels of a name that starts at the offset.
decode_loop-wire :
    (fuel : ℕ) (ps : List Text) (b : Bytes) (s : Scan) (rest : Bytes)
    → length ps < fuel
    → All IsLabel ps
    → s.jumped ≡ none
    → drop s.offset b ≡ wire ps ++ rest
    → decode_loop fuel b s ≡ done (join b'.' (s.labels ++ ps)) (s.offset + length (wire ps))
unfolding decode_loop wire
decode_loop-wire zero ps b s rest f h j e = absurd (omega arith)
decode_loop-wire (suc fuel) [] b s rest f h j e =
    rw (round_end b s rest e, decode_loop) (rw (j, append-nil))
decode_loop-wire (suc fuel) (p ∷ ps) b s rest f h j e =
    let tail = wire ps ++ rest in
    let here : drop s.offset b ≡ length p ∷ (p ++ tail) =
      e ∙ ap (λ (x : Bytes). length p ∷ x) (append_assoc p (wire ps) rest) in
    let body : drop (s.offset + 1) b ≡ p ++ tail =
      sym (drop-drop 1 s.offset b) ∙ ap (drop 1) here in
    let beyond : drop (s.offset + 1 + length p) b ≡ tail =
      sym (drop-drop (length p) (s.offset + 1) b)
      ∙ ap (drop (length p)) body
      ∙ drop_append_self p tail in
    let s' : Scan = record s { offset = s.offset + 1 + length p; labels = s.labels ++ (p ∷ []) } in
    rw (round_label b s p tail h.0 here, decode_loop)
      (decode_loop-wire fuel ps b s' rest (omega arith) h.1 j beyond
        ∙ ap₂ (λ (l : List Text) (n : ℕ). done (join b'.' l) n) (append_assoc s.labels (p ∷ []) ps)
            (omega (arith, length-append p (wire ps))))

-- _decode_domain reads back what _encode_domain wrote for a name of ASCII labels of 1 to 191
-- characters, wherever it stands in a message, with fuel above the number of labels, and returns
-- the offset behind it.
pub decode_domain-encode_domain :
    (fuel : ℕ) (pre : Bytes) (name : Text) (w rest : Bytes)
    → IsName name
    → length (split b'.' name) < fuel
    → encode_domain name ≡ some w
    → decode_domain fuel (pre ++ (w ++ rest)) (length pre) ≡ done name (length pre + length w)
unfolding decode_domain encode_domain
decode_domain-encode_domain fuel pre name w rest h f e =
    let labels = split b'.' name in
    let is_wire : wire labels ≡ w = cc (encode_labels-eq-wire labels h) in
    let start : Scan = record { offset = length pre; labels = []; jumped = none } in
    let there : drop (length pre) (pre ++ (w ++ rest)) ≡ wire labels ++ rest =
      drop_append_self pre (w ++ rest) ∙ ap (λ (x : Bytes). x ++ rest) (sym is_wire) in
    decode_loop-wire fuel labels (pre ++ (w ++ rest)) start rest f h refl there
    ∙ ap₂ done (join-split b'.' name) (ap (λ (x : Bytes). length pre + length x) is_wire)

-- Such a name has an encoding.
pub encode_domain_total : (name : Text) → IsName name → (w : Bytes) × (encode_domain name ≡ some w)
unfolding encode_domain
encode_domain_total name h = (wire (split b'.' name), encode_labels-eq-wire (split b'.' name) h)
