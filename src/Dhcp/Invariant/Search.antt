-- ===== src/Dhcp/Invariant/Search.antt =====
-- The search for an address keeps the leases in the pool, and finds an address of the pool.
use cs305_2026spring_project.Prelude.{
  ℕ, zero, suc, ◌+◌, ◌-◌, ◌≤◌, ◌≡◌, inl, inr, refl, true, Option, none, some, Bytes, Text, List, [],
  ◌∷◌, ◌++◌, arith, Bool-cases, Option-cases, text_eq, subst, sym,
}
use cs305_2026spring_project.Prelude.Table.{lookup, insert, contains}
use cs305_2026spring_project.Codec.Inet.{int_to_ip}
use cs305_2026spring_project.Dhcp.State.{Pool, State, emit, arp_request}
use cs305_2026spring_project.Dhcp.Release.{is_allocated}
use cs305_2026spring_project.Dhcp.Probe.{
  arp_probe, finish_probe, send_probes, send_arp_probe, member,
}
use cs305_2026spring_project.Dhcp.Probe.Conflict.{
  asking, recent_conflicts, arp_probe_refused, arp_probe_asked,
}
use cs305_2026spring_project.Dhcp.Allocate.{
  in_set, used_ips, claim, probe_ok, search_pool, find_new_ip, find_free_ip,
}
use cs305_2026spring_project.Dhcp.Allocate.Found.{offer_of, search_used, search_clear, search_taken}
use cs305_2026spring_project.Dhcp.Invariant.{InPool, IsPooled, IsPooled-of, insert-IsPooled}

module _ (pool : Pool) (during : Text → State → State)
    (keeps : (ip : Text) (t : State) → IsPooled pool t → IsPooled pool (during ip t)) where
  send_probes_leases :
      (sends dps : List ℕ) (ip : Text) (s : State)
      → (send_probes sends dps ip s).mac_to_lease ≡ s.mac_to_lease
  unfolding send_probes
  send_probes_leases sends [] ip s = refl
  send_probes_leases sends (dp ∷ dps) ip s = elim (Bool-cases (member dp sends)) [
    | inl served ↦ rw (served, send_probes) (send_probes_leases sends dps ip s)
    | inr fresh ↦
        rw (fresh, send_probes)
          (send_probes_leases (dp ∷ sends) dps ip (emit (arp_request dp ip) s))
  ]

  finish_probe_leases :
      (ip : Text) (now : ℕ) (s : State) → (finish_probe ip now s).1.mac_to_lease ≡ s.mac_to_lease
  unfolding finish_probe
  finish_probe_leases ip now s = ground arith

  arp_probe-IsPooled :
      (dp : ℕ) (ip : Text) (s : State)
      → IsPooled pool s
      → IsPooled pool (arp_probe pool during dp ip s).1
  unfolding send_arp_probe
  arp_probe-IsPooled dp ip s h =
      let recent = recent_conflicts pool during dp ip s in
      let s1 : State = record s { conflict_ips = recent; probes = insert ip true s.probes } in
      let asleep = asking pool during dp ip s in
      elim (Bool-cases (contains ip recent)) [
        | inl there ↦ rw (arp_probe_refused pool during dp ip s there) h
        | inr absent ↦ rw (arp_probe_asked pool during dp ip s absent) (
            IsPooled-of pool (during ip asleep) (finish_probe ip s.clock (during ip asleep)).1
              (finish_probe_leases ip s.clock (during ip asleep))
              (keeps ip asleep (
                IsPooled-of pool s asleep
                  (send_probes_leases [] (s.all_datapaths ++ (dp ∷ [])) ip s1) h)))
      ]

  probe_ok-IsPooled :
      (datapath : Option ℕ) (ip : Text) (s : State)
      → IsPooled pool s
      → IsPooled pool (probe_ok pool during datapath ip s).1
  unfolding probe_ok
  probe_ok-IsPooled none ip s h = h
  probe_ok-IsPooled (some dp) ip s h = arp_probe-IsPooled dp ip s h

  -- What a search leaves, and what it finds.
  abbrev pub Pooled : Option Text × State → Type 0
  Pooled r = IsPooled pool r.1 × ((ip : Text) → r.0 ≡ some ip → InPool pool ip)

  claim-Pooled :
      (mac : Bytes) (ip : Text) (now : ℕ) (s : State)
      → IsPooled pool s
      → InPool pool ip
      → Pooled (some ip, claim pool mac ip now s)
  unfolding claim
  claim-Pooled mac ip now s h i = (
    insert-IsPooled pool mac (offer_of pool ip now) s.mac_to_lease h i,
    λ ip' e. let same : ip ≡ ip' = cc e in subst (InPool pool) same i,
  )

  search-Pooled :
      (datapath : Option ℕ) (n i : ℕ) (used : List Text) (mac : Bytes) (now : ℕ) (s : State)
      → pool.first ≤ i
      → i + n ≤ pool.last + 1
      → IsPooled pool s
      → Pooled (search_pool pool during datapath n i used mac now s)
  unfolding search_pool
  search-Pooled datapath zero i used mac now s lo hi h = (h, λ ip e. cc e)
  search-Pooled datapath (suc n) i used mac now s lo hi h =
      let probe = probe_ok pool during datapath (int_to_ip i) s in
      let h' = probe_ok-IsPooled datapath (int_to_ip i) s h in
      elim (Bool-cases (in_set (int_to_ip i) used)) [
        | inl old ↦
            subst Pooled (sym (search_used pool during datapath n i used mac now s old))
              (search-Pooled datapath n (i + 1) used mac now s (omega arith) (omega arith) h)
        | inr free ↦ elim (Bool-cases probe.0) [
          | inl clear ↦
              subst Pooled (sym (search_clear pool during datapath n i used mac now s free clear))
                (claim-Pooled mac (int_to_ip i) now probe.1 h' (i, lo, omega arith, refl))
          | inr taken ↦
              subst Pooled (sym (search_taken pool during datapath n i used mac now s free taken)) (
                search-Pooled datapath n (i + 1) used mac now probe.1 (omega arith) (omega arith)
                  h')
        ]
      ]

  find_new_ip-Pooled :
      (datapath : Option ℕ) (mac : Bytes) (s : State)
      → pool.first ≤ pool.last
      → IsPooled pool s
      → Pooled (find_new_ip pool during datapath mac s)
  unfolding find_new_ip
  find_new_ip-Pooled datapath mac s order h =
      search-Pooled datapath (pool.last + 1 - pool.first) pool.first
        (used_ips s.clock s.mac_to_lease) mac s.clock s (omega arith) (omega arith) h

  pub find_free_ip-Pooled :
      (datapath : Option ℕ) (mac : Bytes) (s : State)
      → pool.first ≤ pool.last
      → IsPooled pool s
      → Pooled (find_free_ip pool during datapath mac s)
  unfolding find_free_ip
  find_free_ip-Pooled datapath mac s order h = elim (Option-cases (lookup mac s.mac_to_lease)) [
    | inl absent ↦ rw (absent, find_free_ip) (find_new_ip-Pooled datapath mac s order h)
    | inr (info, known) ↦ elim (Bool-cases (is_allocated info.state)) [
      | inl own ↦
          rw (known, find_free_ip)
            (rw own (
              h,
              λ ip e. let same : info.ip ≡ ip = cc e in subst (InPool pool) same (h mac info known),
            ))
      | inr idle ↦ rw (known, find_free_ip) (rw idle (find_new_ip-Pooled datapath mac s order h))
    ]
  ]
