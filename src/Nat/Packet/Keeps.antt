-- ===== src/Nat/Packet/Keeps.antt =====
-- What the writes to a packet leave as it was: everything before the place that is written.
use cs305_2026spring_project.Prelude.{
  ℕ, suc, zero, ◌+◌, ◌/◌, ◌%◌, ◌≤◌, ◌≡◌, refl, ◌∙◌, inl, inr, Bool, true, false, Bool-cases, Option,
  none, some, Bytes, [], ◌∷◌, ◌++◌, ltb, arith, length, take, drop, ◌>>=◌, ◌>>◌, require,
  if◌then◌else◌, nat_beq, length-append, length-take, length-drop, get_elem?,
}
use cs305_2026spring_project.Codec.Pack.{be16, pack16, unpack16}
use cs305_2026spring_project.Codec.Checksum.{checksum}
use cs305_2026spring_project.Nat.Table.{proto_icmp, proto_tcp, proto_udp}
use cs305_2026spring_project.Nat.Packet.{
  between, set_byte, set_word, pack_into, rewrite_tcp, rewrite_udp, rewrite_icmp, rewrite_l4,
}

-- A predicate of what a call returns, if it does not raise.
abbrev pub Every {ℓ κ} : {A : Type ℓ} → (A → Type κ) → Option A → Type κ
Every P none = Unit
Every P (some a) = P a

pub Every-bind {ℓ κ} :
    {A : Type ℓ} {B : Type κ} (P : A → Type 0) (Q : B → Type 0) (m : Option A) (f : A → Option B)
    → Every P m
    → ((a : A) → P a → Every Q (f a))
    → Every Q (m >>= f)
Every-bind P Q none f h k = tt
Every-bind P Q (some a) f h k = k a h

pub Every-map {ℓ} :
    {A : Type ℓ} (P Q : A → Type 0) (m : Option A) → ((a : A) → P a → Q a) → Every P m → Every Q m
Every-map P Q none f h = tt
Every-map P Q (some a) f h = f a h

-- Two packets of one length that agree on the first `k` bytes.
abbrev pub Keeps : ℕ → Bytes → Bytes → Type 0
Keeps k d d' = (take k d' ≡ take k d) × (length d' ≡ length d)

pub take_prefix : (k j : ℕ) (d r : Bytes) → k ≤ j → j ≤ length d → take k (take j d ++ r) ≡ take k d
take_prefix zero j d r h f = refl
take_prefix (suc k) zero d r h f = absurd (omega arith)
take_prefix (suc k) (suc j) [] r h f = absurd (omega arith)
take_prefix (suc k) (suc j) (x ∷ d) r h f =
    rw (take_prefix k j d r (omega arith) (omega arith)) refl

set_byte-Keeps : (k j v : ℕ) (d : Bytes) → k ≤ j → Every (Keeps k d) (set_byte j v d)
unfolding set_byte
set_byte-Keeps k j v d h = elim (Bool-cases (ltb j (length d))) [
  | inl inside ↦ rw (inside) (
    take_prefix k j d (v ∷ drop (j + 1) d) h (ground arith),
    ground (
      arith,
      length-append (take j d) (v ∷ drop (j + 1) d),
      length-take j d,
      length-drop (j + 1) d,
    ),
  )
  | inr outside ↦ rw (outside) tt
]

-- One write after another.
pub then-Keeps {ℓ} :
    {A : Type ℓ} (k : ℕ) (d a : Bytes) (get : A → Bytes) (m : Option A)
    → Keeps k d a
    → Every (λ r. Keeps k a (get r)) m
    → Every (λ r. Keeps k d (get r)) m
then-Keeps k d a get none h e = tt
then-Keeps k d a get (some r) h e = (e.0 ∙ h.0, e.1 ∙ h.1)

pub set_word-Keeps : (k j v : ℕ) (d : Bytes) → k ≤ j → Every (Keeps k d) (set_word j v d)
unfolding set_word
set_word-Keeps k j v d h =
    Every-bind (Keeps k d) (Keeps k d) (set_byte j (v / 256 % 256) d) _
      (set_byte-Keeps k j (v / 256 % 256) d h)
      (λ a kept.
        then-Keeps k d a (λ r. r) (set_byte (j + 1) (v % 256) a) kept
          (set_byte-Keeps k (j + 1) (v % 256) a (omega arith)))

pack_into-Keeps : (k j v : ℕ) (d : Bytes) → k ≤ j → Every (Keeps k d) (pack_into j v d)
unfolding pack_into pack16 be16
pack_into-Keeps k j v d h = elim (Bool-cases (ltb v 65536)) [
  | inr large ↦ rw (large) tt
  | inl fits ↦ elim (Bool-cases (ltb (length d) (j + 2))) [
    | inl short ↦ rw (fits, short) tt
    | inr inside ↦
        rw (fits, inside)
          (
            take_prefix k j d (be16 v ++ drop (j + 2) d) h (ground arith),
            ground (
              arith,
              length-append (take j d) (v / 256 % 256 ∷ v % 256 ∷ drop (j + 2) d),
              length-take j d,
              length-drop (j + 2) d,
            ),
          )
  ]
]

-- Bytes that are zeroed, and what follows on them.
pub after_zeros :
    {B : Type 0} (k i j : ℕ) (d a : Bytes) (Q : B → Type 0) (f : Bytes → Option B)
    → k ≤ i
    → k ≤ j
    → Keeps k d a
    → ((b : Bytes) → Keeps k d b → Every Q (f b))
    → Every Q (set_byte i 0 a >>= λ first. set_byte j 0 first >>= f)
after_zeros k i j d a Q f h h' kept next =
    Every-bind (Keeps k d) Q (set_byte i 0 a) _
      (then-Keeps k d a (λ r. r) (set_byte i 0 a) kept (set_byte-Keeps k i 0 a h))
      (λ b kept'.
        Every-bind (Keeps k d) Q (set_byte j 0 b) f
          (then-Keeps k d b (λ r. r) (set_byte j 0 b) kept' (set_byte-Keeps k j 0 b h')) next)

-- The checksum that is written, and what follows on it.
after_word :
    {B : Type 0} (k j v : ℕ) (d a : Bytes) (Q : B → Type 0) (f : Bytes → Option B)
    → k ≤ j
    → Keeps k d a
    → ((b : Bytes) → Keeps k d b → Every Q (f b))
    → Every Q (set_word j v a >>= f)
after_word k j v d a Q f h kept next =
    Every-bind (Keeps k d) Q (set_word j v a) f
      (then-Keeps k d a (λ r. r) (set_word j v a) kept (set_word-Keeps k j v a h)) next

-- A step that only reads.
pub after_read :
    {A B : Type 0} (Q : B → Type 0) (m : Option A) (f : A → Option B)
    → ((a : A) → Every Q (f a))
    → Every Q (m >>= f)
after_read Q none f next = tt
after_read Q (some a) f next = next a

pub after_require :
    {B : Type 0} (Q : B → Type 0) (t : Bool) (m : Option B)
    → (t ≡ true → Every Q m)
    → Every Q (require t >> m)
after_require Q true m next = next refl
after_require Q false m next = tt

abbrev Result : Type 0
Result = Bytes × Option ℕ

abbrev Agrees : ℕ → Bytes → Result → Type 0
Agrees l4 d r = Keeps l4 d r.0

if_both :
    {B : Type 0} (Q : B → Type 0) (t : Bool) (x y : Option B)
    → Every Q x
    → Every Q y
    → Every Q (if t then x else y)
if_both Q true x y p q = p
if_both Q false x y p q = q

rewrite_icmp-Keeps : (l4 : ℕ) (d : Bytes) → Every (Agrees l4 d) (rewrite_icmp l4 d)
unfolding rewrite_icmp
rewrite_icmp-Keeps l4 d =
    after_zeros l4 (l4 + 2) (l4 + 3) d d (Agrees l4 d) _ (omega arith) (omega arith) (refl, refl)
      (λ zeroed kept.
        after_word l4 (l4 + 2) (checksum (drop l4 zeroed)) d zeroed (Agrees l4 d) _ (omega arith)
          kept (λ b final. final))

rewrite_udp-Keeps :
    (l4 spot port : ℕ) (a b d : Bytes)
    → l4 ≤ spot
    → Every (Agrees l4 d) (rewrite_udp l4 spot port a b d)
unfolding rewrite_udp
rewrite_udp-Keeps l4 spot port a b d h =
    Every-bind (Keeps l4 d) (Agrees l4 d) (pack_into spot port d) _
      (pack_into-Keeps l4 spot port d h)
      (λ ported kept.
        after_zeros l4 (l4 + 6) (l4 + 7) d ported (Agrees l4 d) _ (omega arith) (omega arith) kept
          (λ zeroed kept'.
            after_read (Agrees l4 d) (unpack16 (between (l4 + 4) (l4 + 6) zeroed)) _ (λ size.
              after_word l4 (l4 + 6) _ d zeroed (Agrees l4 d) _ (omega arith) kept'
                (λ b final. final))))

rewrite_tcp-Keeps :
    (l4 spot port : ℕ) (a b d : Bytes)
    → l4 ≤ spot
    → Every (Agrees l4 d) (rewrite_tcp l4 spot port a b d)
unfolding rewrite_tcp
rewrite_tcp-Keeps l4 spot port a b d h =
    Every-bind (Keeps l4 d) (Agrees l4 d) (pack_into spot port d) _
      (pack_into-Keeps l4 spot port d h)
      (λ ported kept.
        after_zeros l4 (l4 + 16) (l4 + 17) d ported (Agrees l4 d) _ (omega arith) (omega arith) kept
          (λ zeroed kept'. after_read (Agrees l4 d) (get_elem? zeroed (l4 + 12)) _ (λ high.
            after_read (Agrees l4 d) (pack16 _) _ (λ size.
              after_word l4 (l4 + 16) _ d zeroed (Agrees l4 d) _ (omega arith) kept' (λ final good.
                after_read (Agrees l4 d) (get_elem? final (l4 + 13)) _ (λ flags. good))))))

-- Behind the IP header, whatever the protocol.
pub rewrite_l4-Keeps :
    (proto l4 spot port : ℕ) (a b d : Bytes)
    → l4 ≤ spot
    → Every (λ (r : Bytes × Option ℕ). Keeps l4 d r.0) (rewrite_l4 proto l4 spot port a b d)
unfolding rewrite_l4
rewrite_l4-Keeps proto l4 spot port a b d h =
    if_both (Agrees l4 d) (nat_beq proto proto_tcp) _ _ (rewrite_tcp-Keeps l4 spot port a b d h) (
      if_both (Agrees l4 d) (nat_beq proto proto_udp) _ _ (rewrite_udp-Keeps l4 spot port a b d h) (
        if_both (Agrees l4 d) (nat_beq proto proto_icmp) _ _ (rewrite_icmp-Keeps l4 d)
          (refl, refl)))
