-- ===== src/Dhcp/Probe/Avoid.antt =====
-- An address in conflict stays in conflict through the probes of others, and no search returns it.
use cs305_2026spring_project.Prelude.{
  ℕ, ◌+◌, ◌≢◌, inl, inr, true, Text, List, [], ◌∷◌, ◌++◌, arith, Bool-cases, text_eq, ==_iff,
}
use cs305_2026spring_project.Prelude.Table.{insert, contains, lookup-insert}
use cs305_2026spring_project.Dhcp.State.{Pool, State, emit, arp_request}
use cs305_2026spring_project.Dhcp.Probe.{
  arp_probe, finish_probe, send_arp_probe, send_probes, member,
}
use cs305_2026spring_project.Dhcp.Probe.Conflict.{
  IsConflictedFor, Spares, drop_stale_keeps, asking, recent_conflicts, arp_probe_refused,
  arp_probe_asked,
}

-- Sending changes what was sent, and nothing else that a conflict depends on.
send_probes-IsConflictedFor :
    (pool : Pool) (ip j : Text) (left : ℕ) (sends dps : List ℕ) (s : State)
    → IsConflictedFor pool ip left s
    → IsConflictedFor pool ip left (send_probes sends dps j s)
unfolding send_probes
send_probes-IsConflictedFor pool ip j left sends [] s h = h
send_probes-IsConflictedFor pool ip j left sends (dp ∷ dps) s h =
    elim (Bool-cases (member dp sends)) [
      | inl served ↦
          rw (served, send_probes) (send_probes-IsConflictedFor pool ip j left sends dps s h)
      | inr fresh ↦
          rw (fresh, send_probes)
            (send_probes-IsConflictedFor pool ip j left (dp ∷ sends) dps (emit (arp_request dp j) s)
              h)
    ]

finish_probe-IsConflictedFor :
    (pool : Pool) (ip j : Text) (left : ℕ) (now : ℕ) (s : State)
    → ip ≢ j
    → IsConflictedFor pool ip left s
    → IsConflictedFor pool ip left (finish_probe j now s).1
unfolding finish_probe
finish_probe-IsConflictedFor pool ip j left now s ne (ts, known, recent) =
    (ts, ground (arith, lookup-insert ip j now s.conflict_ips, ==_iff j ip), ground arith)

-- A probe of any address costs an address in conflict no more time than the sleep.
pub arp_probe-IsConflictedFor :
    (pool : Pool) (during : Text → State → State) (datapath sleep left : ℕ) (ip j : Text)
    (s : State)
    → Spares pool ip sleep during
    → IsConflictedFor pool ip (left + sleep) s
    → IsConflictedFor pool ip left (arp_probe pool during datapath j s).1
unfolding send_arp_probe
arp_probe-IsConflictedFor pool during datapath sleep left ip j s keeps (ts, known, recent) =
    let kept =
      drop_stale_keeps pool.conflict_ttl s.clock s.conflict_ips ip ts known (omega arith) in
    let fresh = recent_conflicts pool during datapath j s in
    let s1 : State = record s { conflict_ips = fresh; probes = insert j true s.probes } in
    elim (Bool-cases (contains j fresh)) [
      | inl there ↦ rw (arp_probe_refused pool during datapath j s there) (ts, kept, omega arith)
      | inr absent ↦
          let (ts', known', recent') =
            send_probes-IsConflictedFor pool ip j (left + sleep) []
              (s.all_datapaths ++ (datapath ∷ [])) s1 (ts, kept, recent) in
          let (later, newer, still, waited) =
            keeps j (asking pool during datapath j s) ts' known' (omega arith) in
          rw (arp_probe_asked pool during datapath j s absent) (
            finish_probe-IsConflictedFor pool ip j left s.clock
              (during j (asking pool during datapath j s)) (λ same. cc (absent, kept))
              (later, still, omega arith))
    ]
