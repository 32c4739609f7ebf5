-- ===== src/Dhcp/Allocate/Avoid.antt =====
-- No search returns an address in conflict.
use cs305_2026spring_project.Prelude.{
  ℕ, zero, suc, ◌+◌, ◌-◌, ◌*◌, ◌≡◌, ◌≢◌, inl, inr, Option, some, Bytes, Text, List, Bool-cases,
  subst, sym, ap, arith,
}
use cs305_2026spring_project.Codec.Inet.{int_to_ip}
use cs305_2026spring_project.Dhcp.State.{Pool, State}
use cs305_2026spring_project.Dhcp.Probe.{arp_probe}
use cs305_2026spring_project.Dhcp.Probe.Conflict.{
  IsConflictedFor, Spares, arp_probe-IsConflicted_refused,
}
use cs305_2026spring_project.Dhcp.Probe.Avoid.{arp_probe-IsConflictedFor}
use cs305_2026spring_project.Dhcp.Allocate.{used_ips, in_set, probe_ok, search_pool, find_free_ip}
use cs305_2026spring_project.Dhcp.Allocate.Found.{
  search_used, search_clear, search_taken, find_free_ip_idle,
}
use cs305_2026spring_project.Dhcp.Allocate.Overlap.{IsIdle}

module _ (pool : Pool) (during : Text → State → State) (datapath : ℕ) (ip : Text) (sleep : ℕ)
    (keeps : Spares pool ip sleep during) where
  search_avoids :
      (n i : ℕ) (used : List Text) (mac : Bytes) (now : ℕ) (s : State)
      → IsConflictedFor pool ip (n * sleep) s
      → (search_pool pool during (some datapath) n i used mac now s).0 ≢ some ip
  unfolding search_pool probe_ok
  search_avoids zero i used mac now s h = λ e. cc e
  search_avoids (suc n) i used mac now s h =
      let (ts, known, recent) = h in
      let fewer : IsConflictedFor pool ip (n * sleep + sleep) s = (ts, known, omega arith) in
      let Misses = λ (r : Option Text × State). r.0 ≢ some ip in
      let probe = arp_probe pool during datapath (int_to_ip i) s in
      elim (Bool-cases (in_set (int_to_ip i) used)) [
        | inl old ↦
            subst Misses (sym (search_used pool during (some datapath) n i used mac now s old))
              (search_avoids n (i + 1) used mac now s (ts, known, omega arith))
        | inr free ↦ elim (Bool-cases probe.0) [
          | inl clear ↦
              subst Misses
                (sym (search_clear pool during (some datapath) n i used mac now s free clear))
                (λ e.
                  let same : int_to_ip i ≡ ip = cc e in
                  let refused =
                    (arp_probe-IsConflicted_refused pool during datapath ip s
                      (ts, known, omega arith)).0 in
                  cc (refused, clear, ap (λ j. (arp_probe pool during datapath j s).0) same))
          | inr taken ↦
              subst Misses
                (sym (search_taken pool during (some datapath) n i used mac now s free taken))
                (search_avoids n (i + 1) used mac now probe.1 (
                  arp_probe-IsConflictedFor pool during datapath sleep (n * sleep) ip (int_to_ip i)
                    s keeps fewer))
        ]
      ]

  -- No client without an allocated lease is given an address that is in conflict, as long as the
  -- sleeps of a search of the whole pool do not outlast the conflict.
  pub find_free_ip_avoids :
      (mac : Bytes) (s : State)
      → IsIdle mac s
      → IsConflictedFor pool ip ((pool.last + 1 - pool.first) * sleep) s
      → (find_free_ip pool during (some datapath) mac s).0 ≢ some ip
  find_free_ip_avoids mac s idle h = rw (find_free_ip_idle pool during (some datapath) mac s idle) (
      search_avoids (pool.last + 1 - pool.first) pool.first (used_ips s.clock s.mac_to_lease) mac
        s.clock s h)
