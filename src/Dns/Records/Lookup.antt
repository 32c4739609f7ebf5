-- ===== src/Dns/Records/Lookup.antt =====
-- What a registration and a removal do to the two lookups.
use cs305_2026spring_project.Prelude.{
  ◌≡◌, ◌≢◌, none, some, Text, truthy, arith, ==_iff, true, text_eq,
}
use cs305_2026spring_project.Prelude.Table.{lookup, lookup-insert, lookup-erase}
use cs305_2026spring_project.Dns.Records.{
  Records, add_record, drop_old, maps_to, remove_record, remove_address, remove_by_ip,
}
use cs305_2026spring_project.Dns.Records.Agree.{IsConsistent, drop_old-own}

-- In consistent records a registered name resolves both ways, every other name resolves as before,
-- and no other address answers with the name.
pub add_record_resolves :
    (h i : Text) (r : Records)
    → IsConsistent r
    → truthy h ≡ true
    → truthy i ≡ true
    → (lookup h (add_record h i r).forward ≡ some i)
      × (lookup i (add_record h i r).backward ≡ some h)
      × ((g : Text) → g ≢ h → lookup g (add_record h i r).forward ≡ lookup g r.forward)
      × ((ip : Text) → ip ≢ i → lookup ip (add_record h i r).backward ≢ some h)
unfolding add_record
add_record_resolves h i r good th ti = (
  ground (arith, lookup-insert h h i r.forward, ==_iff h h),
  ground (arith, lookup-insert i i h (drop_old h i (lookup h r.forward) r.backward), ==_iff i i),
  λ g ne. ground (arith, lookup-insert g h i r.forward, ==_iff h g),
  λ ip ne e. ne (
      drop_old-own h i ip r good (
        ground (
          arith,
          lookup-insert ip i h (drop_old h i (lookup h r.forward) r.backward),
          ==_iff i ip,
        ))),
)

-- A name whose address was registered to another name still resolves to the address after the
-- records of the address are removed.
pub renamed_host_stays :
    (g h i : Text) (r : Records)
    → g ≢ h
    → truthy g ≡ true
    → truthy h ≡ true
    → truthy i ≡ true
    → lookup g (remove_record none (some i) (add_record h i (add_record g i r))).forward ≡ some i
unfolding remove_record remove_by_ip remove_address add_record maps_to
renamed_host_stays g h i r ne tg th ti =
    let first = add_record g i r in
    let kept = drop_old h i (lookup h first.forward) first.backward in
    ground (
      arith,
      lookup-insert i i h kept,
      lookup-insert g g i r.forward,
      lookup-insert g h i first.forward,
      lookup-insert h h i first.forward,
      lookup-erase g h (add_record h i first).forward,
      ==_iff i i,
      ==_iff g g,
      ==_iff h g,
      ==_iff h h,
    )
