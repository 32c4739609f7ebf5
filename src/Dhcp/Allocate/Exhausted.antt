-- ===== src/Dhcp/Allocate/Exhausted.antt =====
-- When the pool is exhausted.
use cs305_2026spring_project.Prelude.{
  ℕ, ◌+◌, ◌-◌, ◌≤◌, ◌≡◌, inl, inr, refl, true, false, none, some, Bytes, Text, [], ◌∷◌, arith,
  Bool-cases, text_eq, ==_iff, ◌==◌, ◌&&◌,
}
use cs305_2026spring_project.Prelude.Table.{Dict, IsDict, lookup}
use cs305_2026spring_project.Codec.Inet.{int_to_ip}
use cs305_2026spring_project.Dhcp.State.{Lease, Pool, State}
use cs305_2026spring_project.Dhcp.Release.{is_allocated}
use cs305_2026spring_project.Dhcp.Allocate.{
  is_live, used_ips, in_set, probe_ok, search_pool, find_free_ip,
}
use cs305_2026spring_project.Dhcp.Allocate.Found.{search_exhausted, find_free_ip_idle}

-- An address in the set is that of a live lease.
used_ips-inv :
    (now : ℕ) (d : Dict Bytes Lease) (ip : Text)
    → IsDict d
    → in_set ip (used_ips now d) ≡ true
    → (m : Bytes) × (info : Lease) × (lookup m d ≡ some info)
      × (is_live now info ≡ true)
      × (info.ip ≡ ip)
unfolding used_ips in_set lookup
used_ips-inv now [] ip u e = cc
used_ips-inv now ((m, i) ∷ d) ip u e = elim (Bool-cases (is_live now i && i.ip == ip)) [
  | inl here ↦ (m, i, ground (arith, ==_iff m m), ground arith, ground (arith, ==_iff i.ip ip))
  | inr there ↦
      let (m', i', known, live, same) =
        used_ips-inv now d ip u.1 (ground (arith, ==_iff i.ip ip)) in
      (m', i', ground (arith, ==_iff m m'), live, same)
]

-- Without probes, a client without an allocated lease is refused only if every address of the pool
-- has a live lease.
pub find_free_ip_exhausted :
    (pool : Pool) (during : Text → State → State) (mac : Bytes) (s : State)
    → IsDict s.mac_to_lease
    → ((info : Lease) → lookup mac s.mac_to_lease ≡ some info → is_allocated info.state ≡ false)
    → (find_free_ip pool during none mac s).0 ≡ none
    → (k : ℕ) → pool.first ≤ k
    → k ≤ pool.last
    → (m : Bytes) × (info : Lease) × (lookup m s.mac_to_lease ≡ some info)
      × (is_live s.clock info ≡ true)
      × (info.ip ≡ int_to_ip k)
unfolding probe_ok
find_free_ip_exhausted pool during mac s u idle e k lo hi =
    let used = used_ips s.clock s.mac_to_lease in
    let n = pool.last + 1 - pool.first in
    let none_left : (search_pool pool during none n pool.first used mac s.clock s).0 ≡ none =
      rw (← find_free_ip_idle pool during none mac s idle) e in
    used_ips-inv s.clock s.mac_to_lease (int_to_ip k) u (
      search_exhausted pool during none n pool.first used mac s.clock s (λ ip t. refl) none_left k
        lo (omega arith))
