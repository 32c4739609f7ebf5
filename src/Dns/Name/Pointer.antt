-- ===== src/Dns/Name/Pointer.antt =====
-- Compression pointers: what a pointer to a name does, and pointers that lead back to themselves.
use cs305_2026spring_project.Prelude.{
  ℕ, zero, suc, ◌+◌, ◌*◌, ◌%◌, ◌<◌, ◌≡◌, ◌≢◌, inl, inr, Option-cases, get_elem?-lt, get_elem?-All,
  refl, ap, ◌∙◌, none, some, Bytes, [], ◌∷◌, All, arith, leb, nat_beq, length, drop, get_elem?,
  get_elem?_of_drop, true, false, ◌≤◌,
}
use cs305_2026spring_project.Codec.Utf8.{decode}
use cs305_2026spring_project.Codec.Pack.{unpack16}
use cs305_2026spring_project.Dns.Name.{
  running, stop, again, fail, Round, Scan, round, follow_pointer, read_label, decode_loop,
  decode_domain, end_offset, slice,
}

-- One round over a pointer.
pub round_pointer :
    (b : Bytes) (s : Scan) (hi lo : ℕ) (r : Bytes)
    → 192 ≤ hi
    → drop s.offset b ≡ hi ∷ lo ∷ r
    → round b s
      ≡ again (record s {
        offset = (hi * 256 + lo) % 16384;
        jumped = some (end_offset s.jumped (s.offset + 2));
      })
unfolding round follow_pointer unpack16
round_pointer b s hi lo r h e =
    let here = get_elem?_of_drop s.offset b e in
    let pointer : leb 192 hi ≡ true = ground arith in
    let nonzero : nat_beq hi 0 ≡ false = ground arith in
    rw (here, round) (rw (pointer, nonzero) (rw (e, follow_pointer)))

-- The loop stays at a pointer whose target is the pointer itself.
self_pointer_loop :
    (fuel : ℕ) (b : Bytes) (s : Scan) (hi lo : ℕ) (r : Bytes)
    → 192 ≤ hi
    → drop s.offset b ≡ hi ∷ lo ∷ r
    → (hi * 256 + lo) % 16384 ≡ s.offset
    → decode_loop fuel b s ≡ running
unfolding decode_loop
self_pointer_loop zero b s hi lo r h e t = refl
self_pointer_loop (suc fuel) b s hi lo r h e t =
    let s' : Scan = record s {
      offset = (hi * 256 + lo) % 16384;
      jumped = some (end_offset s.jumped (s.offset + 2));
    } in
    rw (round_pointer b s hi lo r h e, decode_loop)
      (self_pointer_loop fuel b s' hi lo r h (ap (λ (n : ℕ). drop n b) t ∙ e) refl)

-- On a compression pointer to itself, _decode_domain does not end, whatever the number of rounds.
pub decode_domain_self_pointer :
    (fuel : ℕ) (b : Bytes) (offset hi lo : ℕ) (r : Bytes)
    → 192 ≤ hi
    → drop offset b ≡ hi ∷ lo ∷ r
    → (hi * 256 + lo) % 16384 ≡ offset
    → decode_domain fuel b offset ≡ running
unfolding decode_domain
decode_domain_self_pointer fuel b offset hi lo r h e t =
    self_pointer_loop fuel b (record { offset = offset; labels = []; jumped = none }) hi lo r h e t

-- A round that goes on over a message with no pointer byte moves on, from inside the message.
round_advances :
    (b : Bytes) (s t : Scan)
    → All (λ n. n < 192) b
    → round b s ≡ again t
    → (s.offset < length b) × (s.offset < t.offset)
unfolding round read_label
round_advances b s t plain e = elim (Option-cases (get_elem? b s.offset)) [
  | inl past ↦ ground arith
  | inr (n, here) ↦
      let low = get_elem?-All (λ n. n < 192) b s.offset plain here in
      ground (arith, get_elem?-lt b s.offset here, Option-cases (decode (slice (s.offset + 1) n b)))
]

-- The loop with one more round, by what the round does.
loop_step :
    (fuel : ℕ) (b : Bytes) (s : Scan)
    → ((t : Scan) → round b s ≡ again t → decode_loop fuel b t ≢ running)
    → (r : Round) → round b s ≡ r
    → decode_loop (suc fuel) b s ≢ running
unfolding decode_loop
loop_step fuel b s next (stop t) e = rw (e, decode_loop) (λ h. cc h)
loop_step fuel b s next (again t) e = rw (e, decode_loop) (next t e)
loop_step fuel b s next fail e = rw (e, decode_loop) (λ h. cc h)

-- A message with no pointer byte: one round more than it has bytes ends the loop.
decode_loop_ends :
    (fuel : ℕ) (b : Bytes) (s : Scan)
    → All (λ n. n < 192) b
    → length b < fuel + s.offset
    → 0 < fuel
    → decode_loop fuel b s ≢ running
decode_loop_ends zero b s plain f pos = absurd (omega arith)
decode_loop_ends (suc fuel) b s plain f pos =
    loop_step fuel b s
      (λ t e.
        let moved = round_advances b s t plain e in
        decode_loop_ends fuel b t plain (omega arith) (omega arith))
      (round b s) refl

-- On a message without a byte of 192 or more, _decode_domain returns or raises within one round
-- more than the message has bytes.
pub decode_domain_ends :
    (b : Bytes) (offset : ℕ)
    → All (λ n. n < 192) b
    → decode_domain (length b + 1) b offset ≢ running
unfolding decode_domain
decode_domain_ends b offset plain =
    decode_loop_ends (length b + 1) b (record { offset = offset; labels = []; jumped = none }) plain
      (omega arith) (omega arith)
