-- ===== src/Dhcp/Allocate/Overlap.antt =====
-- Offers that are outstanding do not keep an address from the next client.
use cs305_2026spring_project.Prelude.{
  ℕ, zero, suc, ◌+◌, ◌-◌, ◌≡◌, ◌≢◌, inl, inr, refl, false, Option, none, some, Bytes, Text, List,
  [], ◌∷◌, arith, Bool-cases, text_eq, ==_iff, ◌==◌,
}
use cs305_2026spring_project.Prelude.Table.{Dict, lookup, insert, lookup-insert}
use cs305_2026spring_project.Dhcp.State.{Lease, Pool, State}
use cs305_2026spring_project.Dhcp.Release.{is_allocated}
use cs305_2026spring_project.Dhcp.Allocate.{used_ips, claim, probe_ok, search_pool, find_free_ip}
use cs305_2026spring_project.Dhcp.Allocate.Found.{offer_of, find_free_ip_idle}

-- The client holds no allocated lease.
abbrev pub IsIdle : Bytes → State → Type 0
IsIdle mac s =
    (info : Lease) → lookup mac s.mac_to_lease ≡ some info → is_allocated info.state ≡ false

-- An offer uses no address: the set is the same before and after it.
used_ips-insert :
    (now : ℕ) (d : Dict Bytes Lease) (mac : Bytes) (l : Lease)
    → is_allocated l.state ≡ false
    → ((info : Lease) → lookup mac d ≡ some info → is_allocated info.state ≡ false)
    → used_ips now (insert mac l d) ≡ used_ips now d
unfolding used_ips insert lookup
used_ips-insert now [] mac l dead idle = ground arith
used_ips-insert now ((m, i) ∷ d) mac l dead idle = elim (Bool-cases (m == mac)) [
  | inl same ↦ rw same (ground (arith, idle i (rw same)))
  | inr other ↦
      rw other (ground (arith, used_ips-insert now d mac l dead (λ info e. idle info (rw other e))))
]

module _ (pool : Pool) (during : Text → State → State) where
  abbrev search : ℕ → ℕ → List Text → Bytes → ℕ → State → Option Text × State
  search = search_pool pool during none

  -- Without probes, the search claims the first address that is not used, for any client.
  search_first :
      (n i : ℕ) (used : List Text) (mac mac' : Bytes) (now now' : ℕ) (s s' : State) (ip : Text)
      → (search n i used mac now s).0 ≡ some ip
      → (search n i used mac now s ≡ (some ip, claim pool mac ip now s))
        × ((search n i used mac' now' s').0 ≡ some ip)
  unfolding search_pool probe_ok
  search_first zero i used mac mac' now now' s s' ip e = cc
  search_first (suc n) i used mac mac' now now' s s' ip e =
      ground (arith, search_first n (i + 1) used mac mac' now now' s s' ip)

  -- Without probes, an address that was offered to a client is offered to the next client as well.
  pub find_free_ip_twice :
      (mac mac' : Bytes) (s : State) (ip : Text)
      → mac ≢ mac'
      → IsIdle mac s
      → IsIdle mac' s
      → (find_free_ip pool during none mac s).0 ≡ some ip
      → (find_free_ip pool during none mac' (find_free_ip pool during none mac s).1).0 ≡ some ip
  unfolding claim
  find_free_ip_twice mac mac' s ip ne idle idle' e =
      let n = pool.last + 1 - pool.first in
      let used = used_ips s.clock s.mac_to_lease in
      let t = claim pool mac ip s.clock s in
      let first = find_free_ip_idle pool during none mac s idle in
      let found = search_first n pool.first used mac mac' s.clock s.clock s t ip (rw (← first) e) in
      let after : (find_free_ip pool during none mac s).1 ≡ t = cc (first, found.0) in
      let idle_t : IsIdle mac' t = λ info known. idle' info (
        ground (
          arith,
          lookup-insert mac' mac (offer_of pool ip s.clock) s.mac_to_lease,
          ==_iff mac mac',
        )) in
      let same : used_ips s.clock t.mac_to_lease ≡ used =
        used_ips-insert s.clock s.mac_to_lease mac (offer_of pool ip s.clock) refl idle in
      rw after (rw (find_free_ip_idle pool during none mac' t idle_t) (rw same found.1))
