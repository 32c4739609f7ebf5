-- ===== src/Dhcp/Probe/Conflict.antt =====
-- Conflicts: what makes a probe fail, and for how long.
use cs305_2026spring_project.Prelude.{
  ℕ, ◌+◌, ◌-◌, ◌≤◌, ◌≡◌, ◌≢◌, inl, inr, refl, true, false, none, some, Text, [], ◌∷◌, arith,
  Bool-cases, text_eq, ==_iff, ◌==◌, if◌then◌else◌,
}
use cs305_2026spring_project.Prelude.Table.{Dict, lookup, insert, contains, lookup-insert}
use cs305_2026spring_project.Dhcp.State.{Pool, State}
use cs305_2026spring_project.Dhcp.Probe.{
  arp_probe, finish_probe, is_clear, drop_stale, send_arp_probe, mark_arp_conflict,
}

-- The address was found in conflict no longer ago than the pool's time to live.
abbrev pub IsConflicted : Pool → Text → State → Type 0
IsConflicted pool ip s =
    (ts : ℕ) × (lookup ip s.conflict_ips ≡ some ts) × (s.clock - ts ≤ pool.conflict_ttl)

-- It will be so for as long again as `left`, if it is not probed.
abbrev pub IsConflictedFor : Pool → Text → ℕ → State → Type 0
IsConflictedFor pool ip left s =
    (ts : ℕ) × (lookup ip s.conflict_ips ≡ some ts) × (s.clock - ts + left ≤ pool.conflict_ttl)

-- What runs during the sleep of a probe takes no longer than `sleep`, and leaves or renews the
-- conflict of the address when it does not become stale by then.
abbrev pub Spares : Pool → Text → ℕ → (Text → State → State) → Type 0
Spares pool ip sleep during =
    (j : Text) (t : State) (ts : ℕ)
    → lookup ip t.conflict_ips ≡ some ts
    → t.clock + sleep - ts ≤ pool.conflict_ttl
    → (later : ℕ) × (ts ≤ later)
      × (lookup ip (during j t).conflict_ips ≡ some later)
      × ((during j t).clock ≤ t.clock + sleep)

pub drop_stale_keeps :
    (ttl now : ℕ) (d : Dict Text ℕ) (ip : Text) (ts : ℕ)
    → lookup ip d ≡ some ts
    → now - ts ≤ ttl
    → lookup ip (drop_stale ttl now d) ≡ some ts
unfolding drop_stale lookup
drop_stale_keeps ttl now [] ip ts e h = cc
drop_stale_keeps ttl now ((k, t) ∷ d) ip ts e h = ground (arith, drop_stale_keeps ttl now d ip ts)

finish_probe_flag :
    (ip : Text) (now : ℕ) (s : State)
    → lookup ip s.probes ≢ some true
    → ((finish_probe ip now s).0 ≡ false)
      × (contains ip (finish_probe ip now s).1.conflict_ips ≡ true)
unfolding finish_probe
finish_probe_flag ip now s down =
    let conflict : is_clear ip s ≡ false = unfold is_clear in ground arith in
    rw conflict (refl, ground (arith, lookup-insert ip ip now s.conflict_ips, ==_iff ip ip))

module _ (pool : Pool) (during : Text → State → State) (datapath : ℕ) (ip : Text) (s : State) where
  abbrev pub recent_conflicts : Dict Text ℕ
  recent_conflicts = drop_stale pool.conflict_ttl s.clock s.conflict_ips

  -- The state in which the probe goes to sleep.
  abbrev pub asking : State
  asking =
      send_arp_probe datapath ip
        (record s { conflict_ips = recent_conflicts; probes = insert ip true s.probes })

  pub arp_probe_refused :
      contains ip recent_conflicts ≡ true
      → arp_probe pool during datapath ip s ≡ (false, record s { conflict_ips = recent_conflicts })
  unfolding arp_probe
  arp_probe_refused e = rw (e, arp_probe)

  pub arp_probe_asked :
      contains ip recent_conflicts ≡ false
      → arp_probe pool during datapath ip s ≡ finish_probe ip s.clock (during ip asking)
  unfolding arp_probe
  arp_probe_asked e = rw (e, arp_probe)

  -- A probe of an address in conflict fails at once: nothing is sent, no lease changes, and the
  -- address stays in conflict.
  pub arp_probe-IsConflicted_refused :
      IsConflicted pool ip s
      → ((arp_probe pool during datapath ip s).0 ≡ false)
        × ((arp_probe pool during datapath ip s).1.outbox ≡ s.outbox)
        × ((arp_probe pool during datapath ip s).1.mac_to_lease ≡ s.mac_to_lease)
        × IsConflicted pool ip (arp_probe pool during datapath ip s).1
  arp_probe-IsConflicted_refused (ts, known, recent) =
      let kept = drop_stale_keeps pool.conflict_ttl s.clock s.conflict_ips ip ts known recent in
      let there : contains ip recent_conflicts ≡ true = ground arith in
      rw (arp_probe_refused there) (refl, refl, refl, (ts, kept, recent))

  -- A probe during which the flag of the address is not left up fails, and the address is then
  -- listed as a conflict.
  pub arp_probe_answered :
      ((t : State) → lookup ip (during ip t).probes ≢ some true)
      → ((arp_probe pool during datapath ip s).0 ≡ false)
        × (contains ip (arp_probe pool during datapath ip s).1.conflict_ips ≡ true)
  arp_probe_answered answered = elim (Bool-cases (contains ip recent_conflicts)) [
    | inl there ↦ rw (arp_probe_refused there) (refl, there)
    | inr absent ↦
        rw (arp_probe_asked absent)
          (finish_probe_flag ip s.clock (during ip asking) (answered asking))
  ]

-- An ARP reply for an address that is being probed takes its flag down; others are left alone.
pub mark_arp_conflict_flag :
    (ip j : Text) (s : State)
    → lookup j (mark_arp_conflict ip s).probes
      ≡ elim (lookup j s.probes) [ none ↦ none | some b ↦ if ip == j then some false else some b ]
unfolding mark_arp_conflict
mark_arp_conflict_flag ip j s = ground (arith, lookup-insert j ip false s.probes, ==_iff ip j)
