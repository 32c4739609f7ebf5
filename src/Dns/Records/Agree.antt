-- ===== src/Dns/Records/Agree.antt =====
-- The invariant of the two dicts: what a reverse lookup answers, the forward lookup confirms.
use cs305_2026spring_project.Prelude.{
  ◌≡◌, inl, inr, Bool-cases, Option-cases, Option, none, some, Text, truthy, arith, ==_iff, true,
  text_eq,
}
use cs305_2026spring_project.Prelude.Table.{lookup, lookup-insert, lookup-erase}
use cs305_2026spring_project.Dns.Records.{
  Records, add_record, drop_old, maps_to, remove_record, remove_hostname, remove_address,
  remove_by_ip,
}

-- An address answers with a hostname that has that address, and no address is the empty text.
pub record IsConsistent (r : Records) : Type 0 where
  pub confirmed :
      (ip hostname : Text)
      → lookup ip r.backward ≡ some hostname
      → lookup hostname r.forward ≡ some ip
  pub named : (ip hostname : Text) → lookup ip r.backward ≡ some hostname → truthy ip ≡ true

-- What is left after the old address is dropped was there before.
drop_old-sub :
    (h i ip hn : Text) (r : Records)
    → lookup ip (drop_old h i (lookup h r.forward) r.backward) ≡ some hn
    → lookup ip r.backward ≡ some hn
unfolding drop_old
drop_old-sub h i ip hn r e = elim (Option-cases (lookup h r.forward)) [
  | inl new ↦ ground arith
  | inr (old, known) ↦ ground (arith, lookup-erase ip old r.backward)
]

-- If the hostname's reverse entry survives, its address is the new one.
pub drop_old-own :
    (h i ip : Text) (r : Records)
    → IsConsistent r
    → lookup ip (drop_old h i (lookup h r.forward) r.backward) ≡ some h
    → ip ≡ i
unfolding drop_old maps_to
drop_old-own h i ip r good e =
    let before = drop_old-sub h i ip h r e in
    ground (
      arith,
      good.confirmed ip h before,
      good.named ip h before,
      lookup-erase ip ip r.backward,
      ==_iff ip i,
      ==_iff ip ip,
      ==_iff h h,
    )

-- add_record keeps the records consistent: every reverse answer is confirmed by the forward one,
-- and no address with a reverse answer is empty.
pub add_record-IsConsistent :
    (h i : Text) (r : Records) → IsConsistent r → IsConsistent (add_record h i r)
unfolding add_record
add_record-IsConsistent h i r good = record {
  confirmed = λ ip hn e. ground (
    arith,
    good.confirmed ip hn,
    drop_old-sub h i ip hn r,
    drop_old-own h i ip r good,
    lookup-insert ip i h (drop_old h i (lookup h r.forward) r.backward),
    lookup-insert hn h i r.forward,
    ==_iff i ip,
    ==_iff h hn,
  );
  named = λ ip hn e. ground (
    arith,
    good.named ip hn,
    drop_old-sub h i ip hn r,
    lookup-insert ip i h (drop_old h i (lookup h r.forward) r.backward),
    ==_iff i ip,
  );
}

remove_address-IsConsistent :
    (i h : Text) (r : Records)
    → IsConsistent r
    → lookup i r.backward ≡ some h
    → IsConsistent (remove_address i h r)
unfolding remove_address maps_to
remove_address-IsConsistent i h r good known = record {
  confirmed = λ ip hn e. ground (
    arith,
    good.confirmed ip hn,
    good.confirmed i h known,
    lookup-erase ip i r.backward,
    lookup-erase hn h r.forward,
    ==_iff i ip,
    ==_iff h hn,
    ==_iff i i,
  );
  named = λ ip hn e. ground (arith, good.named ip hn, lookup-erase ip i r.backward);
}

remove_hostname-IsConsistent :
    (h i : Text) (r : Records)
    → IsConsistent r
    → lookup h r.forward ≡ some i
    → IsConsistent (remove_hostname h i r)
unfolding remove_hostname maps_to
remove_hostname-IsConsistent h i r good known = record {
  confirmed = λ ip hn e. ground (
    arith,
    good.confirmed ip hn,
    lookup-erase ip i r.backward,
    lookup-erase hn h r.forward,
    ==_iff i ip,
    ==_iff h hn,
    ==_iff h h,
  );
  named = λ ip hn e. ground (arith, good.named ip hn, lookup-erase ip i r.backward);
}

remove_by_ip-IsConsistent :
    (ip : Option Text) (r : Records) → IsConsistent r → IsConsistent (remove_by_ip ip r)
unfolding remove_by_ip
remove_by_ip-IsConsistent none r good = good
remove_by_ip-IsConsistent (some i) r good = elim (Bool-cases (truthy i)) [
  | inl named ↦ elim (Option-cases (lookup i r.backward)) [
    | inl absent ↦ rw (named, absent) good
    | inr (h, known) ↦ rw (named, known) (remove_address-IsConsistent i h r good known)
  ]
  | inr nameless ↦ rw nameless good
]

-- remove_record, by name or by address, keeps the records consistent.
pub remove_record-IsConsistent :
    (h i : Option Text) (r : Records) → IsConsistent r → IsConsistent (remove_record h i r)
unfolding remove_record
remove_record-IsConsistent none i r good = remove_by_ip-IsConsistent i r good
remove_record-IsConsistent (some h) i r good = elim (Bool-cases (truthy h)) [
  | inl named ↦ elim (Option-cases (lookup h r.forward)) [
    | inl absent ↦ rw (named, absent) (remove_by_ip-IsConsistent i r good)
    | inr (old, known) ↦ rw (named, known) (remove_hostname-IsConsistent h old r good known)
  ]
  | inr nameless ↦ rw nameless (remove_by_ip-IsConsistent i r good)
]
