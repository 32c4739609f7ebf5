-- ===== src/Dns/Name/Reverse.antt =====
-- Reverse names: `_ptr_name_to_ip` undoes `_ip_to_ptr_name`.
use mathlib.Core.List.{reverse, reverse-reverse, reverse-append}
use cs305_2026spring_project.Prelude.{
  ◌-◌, ◌≡◌, ◌≢◌, sym, ap, ◌∙◌, Text, List, [], ◌∷◌, ◌++◌, All, All-append, arith, leb, length,
  length-append, take_append_self, drop_append_self, ==_refl, text_eq, true,
}
use cs305_2026spring_project.Prelude.Split.{
  split, join, split-join_ne, split-ne-nil, join-split, split-Lacks, Lacks,
}
use cs305_2026spring_project.Dns.Name.{suffix, strip_suffix, ip_to_ptr_name, ptr_name_to_ip}

strip_suffix-append : (s : Text) → strip_suffix (s ++ suffix) ≡ s
unfolding strip_suffix
strip_suffix-append s =
    let long : length (s ++ suffix) - length suffix ≡ length s =
      omega (arith, length-append s suffix) in
    let fits : leb (length suffix) (length (s ++ suffix)) ≡ true =
      ground (arith, length-append s suffix) in
    rw (fits, long)
      (rw (drop_append_self s suffix, take_append_self s suffix) (rw (==_refl suffix)))

All-reverse {ℓ κ} : {A : Type ℓ} (P : A → Type κ) (xs : List A) → All P xs → All P (reverse xs)
All-reverse P [] h = h
All-reverse P (x ∷ xs) h =
    rw (reverse-append (x ∷ []) xs)
      (All-append P (reverse xs) (x ∷ []) (All-reverse P xs h.1) (h.0, tt))

-- _ptr_name_to_ip reads any text back from what _ip_to_ptr_name makes of it.
pub ptr_name_to_ip-ip_to_ptr_name : (ip : Text) → ptr_name_to_ip (ip_to_ptr_name ip) ≡ ip
unfolding ptr_name_to_ip ip_to_ptr_name
ptr_name_to_ip-ip_to_ptr_name ip =
    let parts = split b'.' ip in
    let back : reverse (reverse parts) ≡ parts = reverse-reverse parts in
    let some_part : reverse parts ≢ [] = λ e. split-ne-nil b'.' ip (sym back ∙ ap reverse e) in
    rw
      (
        strip_suffix-append (join b'.' (reverse parts)),
        split-join_ne b'.' (reverse parts) some_part
            (All-reverse (Lacks b'.') parts (split-Lacks b'.' ip)),
        back,
      )
      (join-split b'.' ip)
