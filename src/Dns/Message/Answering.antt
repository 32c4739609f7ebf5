-- ===== src/Dns/Message/Answering.antt =====
-- From a query with one question to its response, byte by byte.

use mathlib.Core.List.{append-nil}
use cs305_2026spring_project.Prelude.{
  ℕ, ◌+◌, ◌<◌, ◌≤◌, ◌≡◌, refl, sym, ap, ◌∙◌, true, false, none, some, Bytes, Text, List, [], ◌∷◌,
  ◌++◌, ltb, leb, arith, length, take, drop, length-append, drop_append_self, drop-drop, text_eq,
}
use cs305_2026spring_project.Prelude.Split.{split}
use cs305_2026spring_project.Prelude.Table.{lookup}
use cs305_2026spring_project.Codec.Pack.{be16, unpack16}
use cs305_2026spring_project.Codec.Inet.{inet_aton}
use cs305_2026spring_project.Dns.Name.{encode_domain, decode_domain, done, slice}
use cs305_2026spring_project.Dns.Name.RoundTrip.{IsName, decode_domain-encode_domain}
use cs305_2026spring_project.Dns.Records.{Records}
use cs305_2026spring_project.Dns.Message.{
  Question, Outcome, ok, send, read_question, read_questions, answer_for, answers_for, found,
  build_response, reply_to, send_or_log, respond, is_query, qtype_a, qclass_in, record_ttl,
}

-- A message with one question: the header fields, five words of zeros or of anything, and the
-- question.
abbrev pub query : ℕ → ℕ → Bytes → ℕ → Bytes
query txid flags w t =
    be16 txid ++ (be16 flags ++ (0 ∷ 1 ∷ 0 ∷ 0 ∷ 0 ∷ 0 ∷ 0 ∷ 0 ∷ (w ++ (be16 t ++ be16 qclass_in))))

-- The two fields behind the name.
read_question-be16 :
    (b : Bytes) (name : Text) (o t c : ℕ)
    → t < 65536
    → c < 65536
    → o + 4 ≤ length b
    → drop o b ≡ be16 t ++ be16 c
    → read_question b name o ≡ some (record { qname = name; qtype = t; qclass = c })
unfolding read_question be16
read_question-be16 b name o t c ht hc fits e =
    let inside : ltb (length b) (o + 4) ≡ false = ground arith in
    let second : drop (o + 2) b ≡ be16 c = sym (drop-drop 2 o b) ∙ ap (drop 2) e in
    rw (inside, e, second) (ground arith)

-- The loop for one question, and the handler, by the parts of the message that they read.
read_questions_one :
    (fuel : ℕ) (b : Bytes) (name : Text) (o : ℕ) (q : Question)
    → leb (length b) 12 ≡ false
    → decode_domain fuel b 12 ≡ done name o
    → read_question b name o ≡ some q
    → read_questions fuel 1 b 12 ≡ ok (q ∷ [])
unfolding read_questions
read_questions_one fuel b name o q inside decoded fields =
    rw (inside, read_questions) (rw decoded (rw fields))

respond_parts :
    (fuel : ℕ) (r : Records) (b : Bytes) (txid flags : ℕ) (qs : Outcome (List Question))
    → unpack16 (slice 0 2 b) ≡ some txid
    → unpack16 (slice 2 2 b) ≡ some flags
    → unpack16 (slice 4 2 b) ≡ some 1
    → is_query flags ≡ true
    → read_questions fuel 1 b 12 ≡ qs
    → respond fuel r b ≡ reply_to r txid qs
unfolding respond
respond_parts fuel r b txid flags qs a f n standard e =
    rw (a, respond) (rw f (rw n (rw standard (ap (reply_to r txid) e))))

abbrev question : Text → ℕ → Question
question name t = record { qname = name; qtype = t; qclass = qclass_in }

module _ (fuel txid flags t : ℕ) (name : Text) (w : Bytes) (plain : IsName name)
    (enough : length (split b'.' name) < fuel) (encoded : encode_domain name ≡ some w)
    (ht : t < 65536) where
  -- The one question is read back.
  read_questions-query : read_questions fuel 1 (query txid flags w t) 12 ≡ ok (question name t ∷ [])
  unfolding be16
  read_questions-query =
      let b = query txid flags w t in
      let fields = be16 t ++ be16 qclass_in in
      let size : length b ≡ 12 + length w + 4 = omega (arith, length-append w fields) in
      let inside : leb (length b) 12 ≡ false = ground arith in
      let decoded : decode_domain fuel b 12 ≡ done name (12 + length w) =
        decode_domain-encode_domain fuel (take 12 b) name w fields plain enough encoded in
      let behind : drop (12 + length w) b ≡ fields =
        sym (drop-drop (length w) 12 b) ∙ drop_append_self w fields in
      read_questions_one fuel b name (12 + length w) (question name t) inside decoded (
        read_question-be16 b name (12 + length w) t qclass_in ht (omega arith) (omega arith) behind)

  -- So the response is that of the one question.
  respond-query :
      (r : Records)
      → txid < 65536
      → flags < 65536
      → is_query flags ≡ true
      → respond fuel r (query txid flags w t) ≡ reply_to r txid (ok (question name t ∷ []))
  unfolding be16 unpack16
  respond-query r hx hf standard =
      respond_parts fuel r (query txid flags w t) txid flags (ok (question name t ∷ []))
        (ground arith) (ground arith) refl standard read_questions-query

reply_to_lem :
    (r : Records) (txid : ℕ) (qs : List Question)
    → reply_to r txid (ok qs)
      ≡ send_or_log (build_response txid (take 1 qs) (found (answers_for r qs)))
unfolding reply_to
reply_to_lem r txid qs = refl

answers_for_registered :
    (r : Records) (name ip : Text)
    → lookup name r.forward ≡ some ip
    → answers_for r (question name qtype_a ∷ [])
      ≡ record { name = name; atype = qtype_a; ttl = record_ttl; rdata = ip } ∷ []
unfolding answers_for
answers_for_registered r name ip known = rw (known, answer_for, answers_for)

answers_for_unknown :
    (r : Records) (name : Text)
    → lookup name r.forward ≡ none
    → answers_for r (question name qtype_a ∷ []) ≡ []
unfolding answers_for
answers_for_unknown r name unknown = rw (unknown, answer_for, answers_for)

-- The response for one known name, and for one unknown name.
reply_registered :
    (txid : ℕ) (name ip : Text) (w packed : Bytes) (r : Records)
    → encode_domain name ≡ some w
    → ltb txid 65536 ≡ true
    → lookup name r.forward ≡ some ip
    → inet_aton ip ≡ some packed
    → reply_to r txid (ok (question name qtype_a ∷ []))
      ≡ send (
          be16 txid
          ++ (0x84
              ∷ 0
              ∷ 0
              ∷ 1
              ∷ 0
              ∷ 1
              ∷ 0
              ∷ 0
              ∷ 0
              ∷ 0
              ∷ (((w ++ (0 ∷ 1 ∷ 0 ∷ 1 ∷ [])) ++ [])
                  ++ ((0xc0 ∷ 0x0c ∷ 0 ∷ 1 ∷ 0 ∷ 1 ∷ 0 ∷ 0 ∷ 0 ∷ 60 ∷ 0 ∷ 4 ∷ packed) ++ []))))
unfolding build_response
reply_registered txid name ip w packed r encoded hx known quad =
    rw (reply_to_lem r txid (question name qtype_a ∷ []))
      (rw (answers_for_registered r name ip known) (rw (hx, encoded, quad)))

reply_unknown :
    (txid : ℕ) (name : Text) (w : Bytes) (r : Records)
    → encode_domain name ≡ some w
    → ltb txid 65536 ≡ true
    → lookup name r.forward ≡ none
    → reply_to r txid (ok (question name qtype_a ∷ []))
      ≡ send (
          be16 txid
          ++ (0x84
              ∷ 3
              ∷ 0
              ∷ 1
              ∷ 0
              ∷ 0
              ∷ 0
              ∷ 0
              ∷ 0
              ∷ 0
              ∷ (((w ++ (0 ∷ 1 ∷ 0 ∷ 1 ∷ [])) ++ []) ++ [])))
unfolding build_response
reply_unknown txid name w r encoded hx unknown =
    rw (reply_to_lem r txid (question name qtype_a ∷ []))
      (rw (answers_for_unknown r name unknown) (rw (hx, encoded)))

-- A standard query of class IN with an identifier and flags of 16 bits, one question and no other
-- section, for the address of a registered name of ASCII labels of 1 to 191 characters, gets a
-- response with the same identifier, the question repeated, and one answer whose data is the
-- registered address, if that is a dotted quad and the fuel is above the number of labels.
pub respond_registered :
    (fuel txid flags : ℕ) (name ip : Text) (w packed : Bytes) (r : Records)
    → IsName name
    → length (split b'.' name) < fuel
    → encode_domain name ≡ some w
    → txid < 65536
    → flags < 65536
    → is_query flags ≡ true
    → lookup name r.forward ≡ some ip
    → inet_aton ip ≡ some packed
    → respond fuel r (query txid flags w qtype_a)
      ≡ send (
          be16 txid
          ++ (0x84
              ∷ 0
              ∷ 0
              ∷ 1
              ∷ 0
              ∷ 1
              ∷ 0
              ∷ 0
              ∷ 0
              ∷ 0
              ∷ ((w ++ (0 ∷ 1 ∷ 0 ∷ 1 ∷ []))
                  ++ (0xc0 ∷ 0x0c ∷ 0 ∷ 1 ∷ 0 ∷ 1 ∷ 0 ∷ 0 ∷ 0 ∷ 60 ∷ 0 ∷ 4 ∷ packed))))
respond_registered fuel txid flags name ip w packed r plain enough encoded hx hf standard known
      quad =
    respond-query fuel txid flags qtype_a name w plain enough encoded (omega arith) r hx hf standard
    ∙ simp append-nil at
        (reply_registered txid name ip w packed r encoded (ground arith) known quad)

-- A standard query of class IN with an identifier and flags of 16 bits, one question and no other
-- section, for the address of a name of ASCII labels of 1 to 191 characters that is not
-- registered, gets a response with the same identifier, the question repeated, code 3 and no
-- answer, if the fuel is above the number of labels.
pub respond_unknown :
    (fuel txid flags : ℕ) (name : Text) (w : Bytes) (r : Records)
    → IsName name
    → length (split b'.' name) < fuel
    → encode_domain name ≡ some w
    → txid < 65536
    → flags < 65536
    → is_query flags ≡ true
    → lookup name r.forward ≡ none
    → respond fuel r (query txid flags w qtype_a)
      ≡ send (be16 txid ++ (0x84 ∷ 3 ∷ 0 ∷ 1 ∷ 0 ∷ 0 ∷ 0 ∷ 0 ∷ 0 ∷ 0 ∷ (w ++ (0 ∷ 1 ∷ 0 ∷ 1 ∷ []))))
respond_unknown fuel txid flags name w r plain enough encoded hx hf standard unknown =
    respond-query fuel txid flags qtype_a name w plain enough encoded (omega arith) r hx hf standard
    ∙ simp append-nil at (reply_unknown txid name w r encoded (ground arith) unknown)
