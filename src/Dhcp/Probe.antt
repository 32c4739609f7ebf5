-- ===== src/Dhcp/Probe.antt =====
-- dhcp.py, `_send_arp_probe`, `_arp_probe` and `_mark_arp_conflict`. The sleep in the middle of a
-- probe is where other greenlets run: `during ip` is what they, and the clock, do to the state then.
pub mod Conflict
pub mod Avoid
use cs305_2026spring_project.Prelude.{
  ℕ, ◌-◌, Bool, true, false, Option, none, some, Bytes, Text, List, [], ◌∷◌, ◌++◌, leb, nat_beq,
  ◌||◌, if◌then◌else◌, text_eq, ◌==◌,
}
use cs305_2026spring_project.Prelude.Table.{Dict, lookup, insert, erase, contains}
use cs305_2026spring_project.Dhcp.State.{State, Pool, Sent, arp_request, emit}

unfoldable pub member : ℕ → List ℕ → Bool
member a [] = false
member a (x ∷ xs) = nat_beq a x || member a xs

-- The loop over the switches, with the set of those that were served.
unfoldable pub send_probes : List ℕ → List ℕ → Text → State → State
unfolding member
send_probes sends [] ip s = s
send_probes sends (dp ∷ dps) ip s = elim (member dp sends) [
  | true ↦ send_probes sends dps ip s
  | false ↦ send_probes (dp ∷ sends) dps ip (emit (arp_request dp ip) s)
]

-- `_send_arp_probe(datapath, target_ip)`
unfoldable pub send_arp_probe : ℕ → Text → State → State
unfolding send_probes
send_arp_probe datapath ip s = send_probes [] (s.all_datapaths ++ (datapath ∷ [])) ip s

-- The conflicts that are not yet stale.
unfoldable pub drop_stale : ℕ → ℕ → Dict Text ℕ → Dict Text ℕ
drop_stale ttl now [] = []
drop_stale ttl now ((ip, ts) ∷ d) =
    let rest = drop_stale ttl now d in if leb (now - ts) ttl then (ip, ts) ∷ rest else rest

-- `cls._probing.pop(ip_str, False)` is true
unfoldable pub is_clear : Text → State → Bool
is_clear ip s = elim (lookup ip s.probes) [ none ↦ false | some b ↦ b ]

-- Behind the sleep; `now` is the time before it.
unfoldable pub finish_probe : Text → ℕ → State → Bool × State
unfolding is_clear
finish_probe ip now s = if is_clear ip s then (true, record s { probes = erase ip s.probes }) else (
  false,
  record s { probes = erase ip s.probes; conflict_ips = insert ip now s.conflict_ips },
)

-- `_arp_probe(ip_str, datapath)`
unfoldable pub arp_probe : Pool → (Text → State → State) → ℕ → Text → State → Bool × State
unfolding send_arp_probe drop_stale finish_probe
arp_probe pool during datapath ip s =
    let fresh = drop_stale pool.conflict_ttl s.clock s.conflict_ips in
    let s1 = record s { conflict_ips = fresh } in
    if contains ip fresh
    then (false, s1)
    else finish_probe ip s.clock
        (during ip (send_arp_probe datapath ip (record s1 { probes = insert ip true s1.probes })))

-- `_mark_arp_conflict(ip_str)`
unfoldable pub mark_arp_conflict : Text → State → State
mark_arp_conflict ip s =
    if contains ip s.probes then record s { probes = insert ip false s.probes } else s
