-- ===== src/Dns/Tests.antt =====
-- The theorems on the name server, at concrete records and messages.
use cs305_2026spring_project.Prelude.{
  ◌≡◌, ◌≢◌, refl, none, some, [], ◌∷◌, ◌++◌, ◌+◌, text_eq, Text, Bytes, codes, arith, length, take,
  drop,
}
use cs305_2026spring_project.Prelude.Split.{split}
use cs305_2026spring_project.Prelude.Table.{lookup}
use cs305_2026spring_project.Codec.Pack.{be16, pack16}
use cs305_2026spring_project.Codec.Inet.{inet_aton, digit, parse_octet, parse_octets}
use cs305_2026spring_project.Codec.Utf8.{encode, encode_char}
use cs305_2026spring_project.Codec.Checksum.{checksum}
use cs305_2026spring_project.Dns.Records.{Records, empty, add_record, remove_record}
use cs305_2026spring_project.Dns.Records.Agree.{
  IsConsistent, add_record-IsConsistent, remove_record-IsConsistent,
}
use cs305_2026spring_project.Dns.Records.Lookup.{add_record_resolves, renamed_host_stays}
use cs305_2026spring_project.Dns.Name.{
  encode_domain, encode_labels, encode_label, decode_domain, done, running, ip_to_ptr_name,
  ptr_name_to_ip,
}
use cs305_2026spring_project.Dns.Name.RoundTrip.{IsName, decode_domain-encode_domain}
use cs305_2026spring_project.Dns.Name.Pointer.{decode_domain_self_pointer, decode_domain_ends}
use cs305_2026spring_project.Dns.Name.Reverse.{ptr_name_to_ip-ip_to_ptr_name}
use cs305_2026spring_project.Dns.Message.{respond, send, qtype_a, is_query}
use cs305_2026spring_project.Dns.Message.Answering.{query, respond_registered, respond_unknown}
use cs305_2026spring_project.Dns.Frame.{response_frame, assemble, response_frame_verifies}

abbrev host : Text
host = codes "h1.lan"

abbrev other : Text
other = codes "h2.lan"

abbrev address : Text
address = codes "10.0.0.1"

empty-IsConsistent : IsConsistent empty
unfolding lookup
empty-IsConsistent = record { confirmed = λ ip hn e. cc; named = λ ip hn e. cc }

abbrev one_host : Records
one_host = add_record host address empty

add_record-IsConsistent_example : IsConsistent (add_record host address empty)
add_record-IsConsistent_example = add_record-IsConsistent host address empty empty-IsConsistent

remove_record-IsConsistent_test : IsConsistent (remove_record (some host) none one_host)
remove_record-IsConsistent_test =
    remove_record-IsConsistent (some host) none one_host add_record-IsConsistent_example

add_record_resolves_example :
    (lookup host one_host.forward ≡ some address)
    × (lookup address one_host.backward ≡ some host)
    × ((g : Text) → g ≢ host → lookup g one_host.forward ≡ lookup g empty.forward)
    × ((ip : Text) → ip ≢ address → lookup ip one_host.backward ≢ some host)
add_record_resolves_example = add_record_resolves host address empty empty-IsConsistent refl refl

renamed_host_stays_example :
    lookup host (remove_record none (some address) (add_record other address one_host)).forward
    ≡ some address
renamed_host_stays_example =
    renamed_host_stays host other address empty (λ e. ground arith) refl refl refl

abbrev wire_name : Bytes
wire_name = 2 ∷ 104 ∷ 49 ∷ 3 ∷ 108 ∷ 97 ∷ 110 ∷ 0 ∷ []

host-IsName : IsName host
unfolding split
host-IsName = ground arith

host-encoded : encode_domain host ≡ some wire_name
unfolding encode_domain encode_labels encode_label split encode encode_char
host-encoded = refl

decode_domain-encode_domain_example :
    decode_domain 3 ((7 ∷ []) ++ (wire_name ++ (9 ∷ []))) 1 ≡ done host 9
unfolding split
decode_domain-encode_domain_example =
    decode_domain-encode_domain 3 (7 ∷ []) host wire_name (9 ∷ []) host-IsName (omega arith)
      host-encoded

decode_domain_self_pointer_example : decode_domain 1000 (0xc0 ∷ 0 ∷ []) 0 ≡ running
decode_domain_self_pointer_example =
    decode_domain_self_pointer 1000 (0xc0 ∷ 0 ∷ []) 0 0xc0 0 [] (omega arith) refl refl

decode_domain_ends_example : decode_domain (length wire_name + 1) wire_name 0 ≢ running
decode_domain_ends_example = decode_domain_ends wire_name 0 (ground arith)

ptr_name_to_ip-ip_to_ptr_name_test : ptr_name_to_ip (ip_to_ptr_name address) ≡ address
ptr_name_to_ip-ip_to_ptr_name_test = ptr_name_to_ip-ip_to_ptr_name address

address-packed : inet_aton address ≡ some (10 ∷ 0 ∷ 0 ∷ 1 ∷ [])
unfolding inet_aton parse_octets parse_octet digit split
address-packed = refl

respond_registered_example :
    respond 3 one_host (query 7 256 wire_name qtype_a)
    ≡ send (
        be16 7
        ++ (0x84
            ∷ 0
            ∷ 0
            ∷ 1
            ∷ 0
            ∷ 1
            ∷ 0
            ∷ 0
            ∷ 0
            ∷ 0
            ∷ ((wire_name ++ (0 ∷ 1 ∷ 0 ∷ 1 ∷ []))
                ++ (0xc0 ∷ 0x0c ∷ 0 ∷ 1 ∷ 0 ∷ 1 ∷ 0 ∷ 0 ∷ 0 ∷ 60 ∷ 0 ∷ 4 ∷ 10 ∷ 0 ∷ 0 ∷ 1 ∷ []))))
unfolding split is_query
respond_registered_example =
    respond_registered 3 7 256 host address wire_name (10 ∷ 0 ∷ 0 ∷ 1 ∷ []) one_host host-IsName
      (omega arith) host-encoded (omega arith) (omega arith) refl add_record_resolves_example.0
      address-packed

respond_unknown_example :
    respond 3 empty (query 7 256 wire_name qtype_a)
    ≡ send
        (be16 7 ++ (0x84 ∷ 3 ∷ 0 ∷ 1 ∷ 0 ∷ 0 ∷ 0 ∷ 0 ∷ 0 ∷ 0 ∷ (wire_name ++ (0 ∷ 1 ∷ 0 ∷ 1 ∷ []))))
unfolding split is_query lookup
respond_unknown_example =
    respond_unknown 3 7 256 host wire_name empty host-IsName (omega arith) host-encoded
      (omega arith) (omega arith) refl refl

abbrev far : Text
far = codes "10.0.0.2"

abbrev mac : Bytes
mac = 2 ∷ 0 ∷ 0 ∷ 0 ∷ 0 ∷ 1 ∷ []

far-packed : inet_aton far ≡ some (10 ∷ 0 ∷ 0 ∷ 2 ∷ [])
unfolding inet_aton parse_octets parse_octet digit split
far-packed = refl

abbrev sent_frame : Bytes
sent_frame =
    assemble mac mac (10 ∷ 0 ∷ 0 ∷ 1 ∷ []) (10 ∷ 0 ∷ 0 ∷ 2 ∷ []) (be16 30) (be16 5000) (be16 10)
      (7 ∷ 9 ∷ [])

frame-sent : response_frame address far mac mac 5000 (7 ∷ 9 ∷ []) ≡ some sent_frame
unfolding response_frame pack16
frame-sent = rw (address-packed, far-packed) refl

response_frame_verifies_example : checksum (take 20 (drop 14 sent_frame)) ≡ 0
response_frame_verifies_example =
    response_frame_verifies address far mac mac (7 ∷ 9 ∷ []) sent_frame 5000 refl refl frame-sent
