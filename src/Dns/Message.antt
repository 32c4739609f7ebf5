-- ===== src/Dns/Message.antt =====
-- dns_server.py, `_build_response`, `handle_dns` and `_send_response`: a query in, a response out.
pub mod Answering
use Prim.Native.Nat.{bit_and, bit_or}
use mathlib.Core.List.{filter_map}
use cs305_2026spring_project.Prelude.{
  ℕ, zero, suc, ◌+◌, ◌*◌, ◌/◌, ◌≡◌, Bool, Option, none, some, Bytes, Text, List, [], ◌∷◌, ◌++◌, ltb,
  leb, if◌then◌else◌, ◌>>=◌, length, take, drop, nat_beq, not, true, false, text_eq,
}
use cs305_2026spring_project.Prelude.Table.{lookup}
use cs305_2026spring_project.Codec.Pack.{pack16, be32, unpack16}
use cs305_2026spring_project.Codec.Inet.{inet_aton}
use cs305_2026spring_project.Dns.Name.{
  encode_domain, decode_domain, ptr_name_to_ip, slice, Decoded, done,
}
use cs305_2026spring_project.Dns.Records.{Records}

abbrev pub qtype_a : ℕ
qtype_a = 1

abbrev pub qtype_ptr : ℕ
qtype_ptr = 12

abbrev pub qclass_in : ℕ
qclass_in = 1

-- `DNSConfig.ttl`
abbrev pub record_ttl : ℕ
record_ttl = 60

pub record Question : Type 0 where
  pub qname : Text
  pub qtype : ℕ
  pub qclass : ℕ

pub record Answer : Type 0 where
  pub name : Text
  pub atype : ℕ
  pub ttl : ℕ
  pub rdata : Text

unfoldable pub question_bytes : Question → Option Bytes
unfolding pack16
question_bytes q = do
  name ← encode_domain q.qname
  t ← pack16 q.qtype
  c ← pack16 q.qclass
  some (name ++ (t ++ c))

-- The data of an answer behind its length.
unfoldable pub rdata_bytes : Answer → Option Bytes
unfolding pack16
rdata_bytes a =
    if nat_beq a.atype qtype_a
    then (do ip ← inet_aton a.rdata; some (0 ∷ 4 ∷ ip))
    else if nat_beq a.atype qtype_ptr
    then (do enc ← encode_domain a.rdata; n ← pack16 (length enc); some (n ++ enc))
    else some []

-- The name of an answer is a pointer to offset 12, where the first question stands.
unfoldable pub answer_bytes : Answer → Option Bytes
unfolding rdata_bytes pack16 be32
answer_bytes a = do
  t ← pack16 a.atype
  c ← pack16 qclass_in
  d ← rdata_bytes a
  some (0xc0 ∷ 0x0c ∷ (t ++ (c ++ (be32 a.ttl ++ d))))

unfoldable pub concat_bytes {ℓ} : {A : Type ℓ} → (A → Option Bytes) → List A → Option Bytes
concat_bytes f [] = some []
concat_bytes f (x ∷ xs) = do b ← f x; rest ← concat_bytes f xs; some (b ++ rest)

-- `answers is None` stands for a name that is not known.
abbrev pub response_flags : Option (List Answer) → ℕ
response_flags none = bit_or (bit_or 0x8000 0x0400) 3
response_flags (some answers) = bit_or 0x8000 0x0400

abbrev pub answer_list : Option (List Answer) → List Answer
answer_list none = []
answer_list (some answers) = answers

-- `_build_response`
unfoldable pub build_response : ℕ → List Question → Option (List Answer) → Option Bytes
unfolding concat_bytes question_bytes answer_bytes pack16
build_response txid questions answers = do
  t ← pack16 txid
  f ← pack16 (response_flags answers)
  q ← pack16 (length questions)
  n ← pack16 (length (answer_list answers))
  qsection ← concat_bytes question_bytes questions
  asection ← concat_bytes answer_bytes (answer_list answers)
  some (t ++ (f ++ (q ++ (n ++ (0 ∷ 0 ∷ 0 ∷ 0 ∷ (qsection ++ asection))))))

-- How a part of the handler ends; `running` means that it is still in a loop of `_decode_domain`.
pub data Outcome (A : Type 0) : Type 0 where
  ok : A → Outcome A
  raised : Outcome A
  running : Outcome A

-- The two fields behind a name: `none` is the `break`.
unfoldable pub read_question : Bytes → Text → ℕ → Option Question
unfolding unpack16
read_question b qname offset = if ltb (length b) (offset + 4) then none else do
  t ← unpack16 (slice offset 2 b)
  c ← unpack16 (slice (offset + 2) 2 b)
  some (record { qname = qname; qtype = t; qclass = c })

abbrev pub with_first : Question → Outcome (List Question) → Outcome (List Question)
with_first q (ok qs) = ok (q ∷ qs)
with_first q raised = raised
with_first q running = running

-- `for _ in range(qdcount)`
unfoldable pub read_questions : ℕ → ℕ → Bytes → ℕ → Outcome (List Question)
unfolding read_question
read_questions fuel zero b offset = ok []
read_questions fuel (suc n) b offset = elim (leb (length b) offset) [
  | true ↦ ok []
  | false ↦ elim (decode_domain fuel b offset) [
    | done qname o ↦ elim (read_question b qname o) [
      | none ↦ ok []
      | some q ↦ with_first q (read_questions fuel n b (o + 4))
    ]
    | Decoded.raised ↦ raised
    | Decoded.running ↦ running
  ]
]

-- `dict.get` and the answer that is made of what it finds.
abbrev pub answer_with : Question → ℕ → Option Text → Option Answer
answer_with q t none = none
answer_with q t (some v) = some (record { name = q.qname; atype = t; ttl = record_ttl; rdata = v })

-- The body of the loop over the questions.
unfoldable pub answer_for : Records → Question → Option Answer
answer_for r q =
    if not (nat_beq q.qclass qclass_in)
    then none
    else if nat_beq q.qtype qtype_a
    then answer_with q qtype_a (lookup q.qname r.forward)
    else if nat_beq q.qtype qtype_ptr
    then answer_with q qtype_ptr (lookup (ptr_name_to_ip q.qname) r.backward)
    else none

unfoldable pub answers_for : Records → List Question → List Answer
unfolding answer_for
answers_for r [] = []
answers_for r (q ∷ qs) = elim (answer_for r q) [
  | none ↦ answers_for r qs
  | some a ↦ a ∷ answers_for r qs
]

-- `answers if found else None`
abbrev pub found : List Answer → Option (List Answer)
found [] = none
found (a ∷ as') = some (a ∷ as')

-- What the handler does: nothing, also where an exception is caught and logged; a response; or it
-- does not return.
pub data Reply : Type 0 where
  silent : Reply
  send : Bytes → Reply
  hang : Reply

abbrev pub send_or_log : Option Bytes → Reply
send_or_log none = silent
send_or_log (some b) = send b

-- From the parsed questions to the response.
unfoldable pub reply_to : Records → ℕ → Outcome (List Question) → Reply
unfolding answers_for build_response
reply_to r txid (ok qs) = send_or_log (build_response txid (take 1 qs) (found (answers_for r qs)))
reply_to r txid raised = silent
reply_to r txid running = hang

-- The two tests on the flags: a response, or an opcode that is not a standard query.
unfoldable pub is_query : ℕ → Bool
is_query flags =
    if not (nat_beq (bit_and flags 0x8000) 0)
    then false
    else nat_beq (bit_and flags 0x7800 / 2048) 0

-- The handler behind the cut to `dns_data`.
unfoldable pub respond : ℕ → Records → Bytes → Reply
unfolding unpack16 read_questions reply_to is_query
respond fuel r b = elim (unpack16 (slice 0 2 b)) [
  | none ↦ silent
  | some txid ↦ elim (unpack16 (slice 2 2 b)) [
    | none ↦ silent
    | some flags ↦ elim (unpack16 (slice 4 2 b)) [
      | none ↦ silent
      | some qdcount ↦
          if is_query flags then reply_to r txid (read_questions fuel qdcount b 12) else silent
    ]
  ]
]

-- `handle_dns`, up to the response that it sends.
unfoldable pub handle_dns : ℕ → Records → Bytes → Reply
unfolding respond
handle_dns fuel r msg = elim (slice 14 1 msg) [
  | [] ↦ silent
  | first ∷ _ ↦
      let dns_offset = 14 + bit_and first 0x0F * 4 + 8 in
      if ltb (length msg) (dns_offset + 12) then silent else respond fuel r (drop dns_offset msg)
]
