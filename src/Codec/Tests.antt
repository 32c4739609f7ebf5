-- ===== src/Codec/Tests.antt =====
-- The theorems on the codecs, at concrete blocks and addresses.
use cs305_2026spring_project.Prelude.{◌≡◌, some, [], ◌∷◌, refl, Bytes, arith}
use cs305_2026spring_project.Codec.Inet.{ip_to_int, int_to_ip, ip_to_int-int_to_ip}
use cs305_2026spring_project.Codec.Checksum.{checksum, with_field, checksum_verifies}

ip_to_int-int_to_ip_example : ip_to_int (int_to_ip 3232235778) ≡ some 3232235778
ip_to_int-int_to_ip_example = ip_to_int-int_to_ip 3232235778 (omega arith)

abbrev before : Bytes
before = 0x45 ∷ 0 ∷ 0 ∷ 60 ∷ []

abbrev behind : Bytes
behind = 192 ∷ 168 ∷ 1 ∷ []

checksum_verifies_example :
    checksum (with_field before (checksum (with_field before 0 behind)) behind) ≡ 0
checksum_verifies_example = checksum_verifies before behind refl (ground arith) (omega arith)
