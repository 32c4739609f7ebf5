-- ===== src/Dhcp/Invariant.antt =====
-- The invariant of the DHCP server: each lease is of an address of the pool. Every message and every
-- round of the reaper keeps it, if what runs during a probe does.
pub mod Search
pub mod Handle
use cs305_2026spring_project.Prelude.{
  ℕ, zero, suc, ◌+◌, ◌-◌, ◌≤◌, ◌≡◌, ◌≢◌, inl, inr, refl, Bool, true, false, Option, none, some,
  Bytes, Text, List, [], ◌∷◌, ◌++◌, arith, Bool-cases, Option-cases, text_eq, ==_iff, ◌==◌, subst,
  sym, ap, ◌∙◌, truthy, ◌>>=◌, nat_beq,
}
use cs305_2026spring_project.Prelude.Table.{Dict, lookup, insert, contains, lookup-insert}
use cs305_2026spring_project.Codec.Inet.{int_to_ip}
use cs305_2026spring_project.Dhcp.State.{
  Lease, LeaseState, Pool, Reply, State, Sent, emit, arp_request, probing, offered, allocated,
  released, conflicted,
}
use cs305_2026spring_project.Dhcp.Release.{
  ended, release_info, release_lease, release_all, expired_macs, reap, is_allocated,
}
use cs305_2026spring_project.Dhcp.Probe.{
  arp_probe, finish_probe, send_probes, send_arp_probe, member,
}
use cs305_2026spring_project.Dhcp.Probe.Conflict.{
  asking, recent_conflicts, arp_probe_refused, arp_probe_asked,
}
use cs305_2026spring_project.Dhcp.Allocate.{
  in_set, used_ips, claim, probe_ok, search_pool, find_new_ip, find_free_ip,
}
use cs305_2026spring_project.Dhcp.Allocate.Found.{offer_of}
use cs305_2026spring_project.Dhcp.Server.Ack.{register_name_leases}
use cs305_2026spring_project.Dhcp.Packet.{Request, first_option, get_hostname}
use cs305_2026spring_project.Dhcp.Server.{
  register_name, grant, renew, ack_offered, ack_allocated, ack_new, ack_by_state, assemble_ack,
  assemble_offer, send_reply, decline, note_hostname, dispatch, handle_from, handle_dhcp,
  mismatches,
}

-- The text of an address of the pool.
abbrev pub InPool : Pool → Text → Type 0
InPool pool ip = (k : ℕ) × (pool.first ≤ k) × (k ≤ pool.last) × (ip ≡ int_to_ip k)

abbrev pub IsPooled : Pool → State → Type 0
IsPooled pool s =
    (mac : Bytes) (info : Lease) → lookup mac s.mac_to_lease ≡ some info → InPool pool info.ip

IsPooled-of :
    (pool : Pool) (s t : State)
    → t.mac_to_lease ≡ s.mac_to_lease
    → IsPooled pool s
    → IsPooled pool t
IsPooled-of pool s t same h m info e =
    h m info (subst (λ (d : Dict Bytes Lease). lookup m d ≡ some info) same e)

-- Writing a lease of an address of the pool.
insert-IsPooled :
    (pool : Pool) (mac : Bytes) (l : Lease) (d : Dict Bytes Lease)
    → ((m : Bytes) (info : Lease) → lookup m d ≡ some info → InPool pool info.ip)
    → InPool pool l.ip
    → (m : Bytes) (info : Lease) → lookup m (insert mac l d) ≡ some info
    → InPool pool info.ip
insert-IsPooled pool mac l d h new m info e = elim (Bool-cases (mac == m)) [
  | inl same ↦
      let is_l : l ≡ info = ground (arith, lookup-insert m mac l d) in
      subst (λ (x : Lease). InPool pool x.ip) is_l new
  | inr other ↦ h m info (ground (arith, lookup-insert m mac l d))
]

release_lease-IsPooled :
    (pool : Pool) (mac : Bytes) (s : State) → IsPooled pool s → IsPooled pool (release_lease mac s)
unfolding release_lease
release_lease-IsPooled pool mac s h = elim (Option-cases (lookup mac s.mac_to_lease)) [
  | inl absent ↦ rw (absent, release_lease) h
  | inr (info, known) ↦
      rw (known, release_lease)
        (insert-IsPooled pool mac (ended info) s.mac_to_lease h (h mac info known))
]

release_all-IsPooled :
    (pool : Pool) (macs : List Bytes) (s : State)
    → IsPooled pool s
    → IsPooled pool (release_all macs s)
unfolding release_all
release_all-IsPooled pool [] s h = h
release_all-IsPooled pool (mac ∷ macs) s h =
    release_all-IsPooled pool macs (release_lease mac s) (release_lease-IsPooled pool mac s h)

-- A round of the reaper keeps every lease on an address of the pool.
pub reap-IsPooled : (pool : Pool) (s : State) → IsPooled pool s → IsPooled pool (reap s)
unfolding reap
reap-IsPooled pool s h = release_all-IsPooled pool (expired_macs s.clock s.mac_to_lease) s h

register_name-IsPooled :
    (pool : Pool) (mac : Bytes) (ip : Text) (s : State)
    → IsPooled pool s
    → IsPooled pool (register_name mac ip s)
register_name-IsPooled pool mac ip s h =
    IsPooled-of pool s (register_name mac ip s) (register_name_leases mac ip s).0 h

grant-IsPooled :
    (pool : Pool) (mac : Bytes) (ip : Text) (now : ℕ) (s : State)
    → IsPooled pool s
    → InPool pool ip
    → IsPooled pool (grant pool mac ip now s)
unfolding grant
grant-IsPooled pool mac ip now s h i =
    register_name-IsPooled pool mac ip _ (insert-IsPooled pool mac _ s.mac_to_lease h i)

renew-IsPooled :
    (pool : Pool) (mac : Bytes) (info : Lease) (now : ℕ) (s : State)
    → IsPooled pool s
    → InPool pool info.ip
    → IsPooled pool (renew pool mac info now s)
unfolding renew
renew-IsPooled pool mac info now s h i =
    register_name-IsPooled pool mac info.ip _ (insert-IsPooled pool mac _ s.mac_to_lease h i)
