-- ===== src/Dhcp/Tests.antt =====
-- The theorems on the DHCP server, at concrete states.
use cs305_2026spring_project.Prelude.{
  ℕ, ◌+◌, ◌≤◌, ◌≡◌, ◌≢◌, subst, inl, inr, refl, true, false, none, some, [], ◌∷◌, Text, Bytes,
  codes, arith, text_beq, text_eq, ==_iff, ◌==◌, Bool-cases,
}
use cs305_2026spring_project.Prelude.Split.{join, split}
use cs305_2026spring_project.Prelude.Table.{lookup, insert, erase, contains, lookup-insert}
use cs305_2026spring_project.Codec.Pack.{be32}
use cs305_2026spring_project.Codec.Inet.{
  int_to_ip, octet, inet_ntoa, inet_aton, parse_octets, parse_octet, digit,
}
use cs305_2026spring_project.Dns.Records.{empty, remove_record}
use cs305_2026spring_project.Dhcp.State.{
  Lease, Pool, State, default_pool, allocated, offered, released, LeaseState,
}
use cs305_2026spring_project.Dhcp.Release.{release_lease, reap}
use cs305_2026spring_project.Dhcp.Release.Reaping.{release_lease_unmaps, reap_lem}
use cs305_2026spring_project.Dhcp.Probe.{
  arp_probe, mark_arp_conflict, send_arp_probe, send_probes, member, drop_stale, finish_probe,
  is_clear,
}
use cs305_2026spring_project.Dhcp.Probe.Conflict.{
  IsConflicted, IsConflictedFor, Spares, arp_probe-IsConflicted_refused, arp_probe_answered,
}
use cs305_2026spring_project.Dhcp.Allocate.{
  find_free_ip, is_live, find_new_ip, search_pool, used_ips, in_set, claim, probe_ok,
}
use cs305_2026spring_project.Dhcp.Allocate.Found.{find_free_ip_fresh, offer_of}
use cs305_2026spring_project.Dhcp.Allocate.Exhausted.{find_free_ip_exhausted}
use cs305_2026spring_project.Dhcp.Allocate.Overlap.{IsIdle, find_free_ip_twice}
use cs305_2026spring_project.Dhcp.Allocate.Avoid.{find_free_ip_avoids}
use cs305_2026spring_project.Dhcp.Packet.{Request, get_requested_ip, get_option, first_option}
use cs305_2026spring_project.Dhcp.Server.{assemble_ack, handle_dhcp, mismatches}
use cs305_2026spring_project.Dhcp.Server.Ack.{
  granted, assemble_ack-mismatch, assemble_ack_offered, assemble_ack_renewed, assemble_ack_twice,
}
use cs305_2026spring_project.Dhcp.Server.Answers.{HasAddresses, Acknowledges, Refuses}
use cs305_2026spring_project.Dhcp.Invariant.{InPool, IsPooled, reap-IsPooled}
use cs305_2026spring_project.Dhcp.Invariant.Handle.{handle_dhcp-IsPooled}

abbrev mac : Bytes
mac = 2 ∷ 0 ∷ 0 ∷ 0 ∷ 0 ∷ 1 ∷ []

abbrev mac' : Bytes
mac' = 2 ∷ 0 ∷ 0 ∷ 0 ∷ 0 ∷ 2 ∷ []

-- Nothing else runs during a probe.
abbrev quiet : Text → State → State
quiet ip s = s

-- During each probe the address answers.
abbrev busy : Text → State → State
busy ip s = mark_arp_conflict ip s

abbrev address : Text
address = codes "192.168.1.2"

abbrev lease : LeaseState → Lease
lease st = record { ip = address; assigned_at = 0; expires_at = 60; state = st }

abbrev idle_state : State
idle_state = record {
  mac_to_lease = [];
  ip_to_mac = [];
  mac_to_hostname = [];
  all_datapaths = [];
  probes = [];
  conflict_ips = [];
  dns = empty;
  clock = 100;
  outbox = [];
}

abbrev offered_state : State
offered_state = record idle_state { mac_to_lease = (mac, lease offered) ∷ [] }

abbrev leased_state : State
leased_state = record idle_state { mac_to_lease = (mac, lease allocated) ∷ [] }

abbrev both_offered : State
both_offered = record idle_state {
  mac_to_lease = (mac, lease offered) ∷ (mac', lease offered) ∷ [];
}

abbrev conflict_state : State
conflict_state = record idle_state { conflict_ips = (address, 90) ∷ [] }

abbrev discover : Request
discover = record { op = 1; xid = 7; mac = some mac; options = some ((53, 1 ∷ []) ∷ []) }

abbrev ask_other : Request
ask_other = record {
  op = 1;
  xid = 7;
  mac = some mac;
  options = some ((53, 3 ∷ []) ∷ (50, 10 ∷ 0 ∷ 0 ∷ 1 ∷ []) ∷ []);
}

address-InPool : InPool default_pool address
unfolding int_to_ip octet join be32
address-InPool = (0xc0a80102, omega arith, omega arith, refl)

leased-IsPooled : IsPooled default_pool leased_state
unfolding lookup
leased-IsPooled m info e = elim (Bool-cases (mac == m)) [
  | inl same ↦
      let is_lease : lease allocated ≡ info = ground arith in
      subst (λ (l : Lease). InPool default_pool l.ip) is_lease address-InPool
  | inr other ↦ absurd (ground arith)
]

nobody_leased : (m : Bytes) → IsIdle m idle_state
unfolding lookup text_beq
nobody_leased m info e = cc

handle_dhcp-IsPooled_example :
    IsPooled default_pool (handle_dhcp default_pool quiet 1 2 discover leased_state)
handle_dhcp-IsPooled_example =
    handle_dhcp-IsPooled default_pool quiet 1 (omega arith) (λ ip t h. h) 2 discover leased_state
      leased-IsPooled

reap-IsPooled_test : IsPooled default_pool (reap leased_state)
reap-IsPooled_test = reap-IsPooled default_pool leased_state leased-IsPooled

reap_lem_example :
    lookup mac (reap leased_state).mac_to_lease
    ≡ some (record { ip = address; assigned_at = 0; expires_at = 0; state = released })
unfolding lookup text_beq
reap_lem_example = reap_lem leased_state mac (lease allocated) (refl, tt) refl

release_lease_unmaps_test :
    (lookup address (release_lease mac leased_state).ip_to_mac ≡ none)
    × (lookup mac (release_lease mac leased_state).mac_to_hostname ≡ none)
    × ((release_lease mac leased_state).dns ≡ remove_record none (some address) empty)
unfolding lookup text_beq
release_lease_unmaps_test = release_lease_unmaps mac leased_state (lease allocated) refl

arp_probe-IsConflicted_refused_test :
    ((arp_probe default_pool quiet 1 address conflict_state).0 ≡ false)
    × ((arp_probe default_pool quiet 1 address conflict_state).1.outbox ≡ [])
    × ((arp_probe default_pool quiet 1 address conflict_state).1.mac_to_lease ≡ [])
    × IsConflicted default_pool address (arp_probe default_pool quiet 1 address conflict_state).1
unfolding lookup text_beq
arp_probe-IsConflicted_refused_test =
    arp_probe-IsConflicted_refused default_pool quiet 1 address conflict_state
      (90, refl, omega arith)

-- The flag is down after an answer, whatever the state was.
busy_flag : (ip : Text) (t : State) → lookup ip (busy ip t).probes ≢ some true
unfolding mark_arp_conflict
busy_flag ip t e = ground (arith, lookup-insert ip ip false t.probes, ==_iff ip ip)

arp_probe_answered_test :
    ((arp_probe default_pool busy 1 address idle_state).0 ≡ false)
    × (contains address (arp_probe default_pool busy 1 address idle_state).1.conflict_ips ≡ true)
arp_probe_answered_test =
    arp_probe_answered default_pool busy 1 address idle_state (busy_flag address)

-- The one address of a small pool.
abbrev small_pool : Pool
small_pool = record default_pool { last = 0xc0a80102 }

-- The sleep of two seconds.
abbrev two_seconds : Text → State → State
two_seconds ip s = record s { clock = s.clock + 2 }

first_free : (find_free_ip small_pool quiet none mac idle_state).0 ≡ some address
unfolding find_free_ip find_new_ip search_pool probe_ok used_ips in_set claim lookup int_to_ip octet
    join be32
first_free = refl

first_probed : (find_free_ip small_pool two_seconds (some 1) mac idle_state).0 ≡ some address
unfolding find_free_ip find_new_ip search_pool probe_ok arp_probe send_arp_probe send_probes member
    drop_stale finish_probe is_clear insert erase text_beq used_ips in_set claim lookup int_to_ip
    octet join be32
first_probed = refl

find_free_ip_fresh_example :
    (k : ℕ) × (0xc0a80102 ≤ k)
    × (k ≤ 0xc0a80102)
    × (address ≡ int_to_ip k)
    × ((m : Bytes) (info : Lease)
        → lookup m idle_state.mac_to_lease ≡ some info
        → is_live 100 info ≡ true
        → info.ip ≢ address)
    × (lookup mac (find_free_ip small_pool two_seconds (some 1) mac idle_state).1.mac_to_lease
        ≡ some (offer_of small_pool address 100))
find_free_ip_fresh_example =
    find_free_ip_fresh small_pool two_seconds (some 1) mac idle_state address (nobody_leased mac)
      first_probed

find_free_ip_twice_test :
    (find_free_ip small_pool quiet none mac'
      (find_free_ip small_pool quiet none mac idle_state).1).0
    ≡ some address
find_free_ip_twice_test =
    find_free_ip_twice small_pool quiet mac mac' idle_state address (λ e. ground arith)
      (nobody_leased mac) (nobody_leased mac') first_free

-- The lease is live, so the small pool has no address for another client.
abbrev live_state : State
live_state = record leased_state { clock = 10 }

live-IsIdle : IsIdle mac' live_state
unfolding lookup text_beq
live-IsIdle info e = cc

none_free : (find_free_ip small_pool quiet none mac' live_state).0 ≡ none
unfolding find_free_ip find_new_ip search_pool probe_ok used_ips in_set lookup text_beq int_to_ip
    octet join be32
none_free = refl

find_free_ip_exhausted_example :
    (m : Bytes) × (info : Lease) × (lookup m live_state.mac_to_lease ≡ some info)
    × (is_live 10 info ≡ true)
    × (info.ip ≡ int_to_ip 0xc0a80102)
unfolding lookup text_beq
find_free_ip_exhausted_example =
    find_free_ip_exhausted small_pool quiet mac' live_state (refl, tt) live-IsIdle none_free
      0xc0a80102 (omega arith) (omega arith)

conflict-IsConflictedFor : IsConflictedFor default_pool address 198 conflict_state
unfolding lookup text_beq
conflict-IsConflictedFor = (90, refl, omega arith)

conflict-IsIdle : (m : Bytes) → IsIdle m conflict_state
unfolding lookup
conflict-IsIdle m info e = cc

two_seconds-Spares : (ip : Text) → Spares default_pool ip 2 two_seconds
two_seconds-Spares ip j t ts known recent = (ts, omega arith, known, omega arith)

find_free_ip_avoids_test :
    (find_free_ip default_pool two_seconds (some 1) mac conflict_state).0 ≢ some address
find_free_ip_avoids_test =
    find_free_ip_avoids default_pool two_seconds 1 address 2 (two_seconds-Spares address) mac
      conflict_state (conflict-IsIdle mac) conflict-IsConflictedFor

offered-known : lookup mac offered_state.mac_to_lease ≡ some (lease offered)
unfolding lookup text_beq
offered-known = refl

leased-known : lookup mac leased_state.mac_to_lease ≡ some (lease allocated)
unfolding lookup text_beq
leased-known = refl

asks_other : get_requested_ip ask_other ≡ some (codes "10.0.0.1")
unfolding get_requested_ip get_option first_option inet_ntoa octet join
asks_other = refl

asks_nothing : mismatches (get_requested_ip discover) address ≡ false
unfolding mismatches get_requested_ip get_option first_option
asks_nothing = refl

default-HasAddresses : HasAddresses default_pool
unfolding inet_aton parse_octets parse_octet digit split
default-HasAddresses = (_, _, _, refl, refl, refl)

assemble_ack-mismatch_example :
    let (reply, t) = assemble_ack default_pool quiet 1 ask_other mac offered_state in
    Refuses default_pool mac 7
      (codes "requested IP 10.0.0.1 does not match offer 192.168.1.2")
      reply
    × (t ≡ offered_state)
assemble_ack-mismatch_example =
    assemble_ack-mismatch default_pool quiet 1 ask_other mac offered_state (lease offered)
      offered-known (codes "10.0.0.1") (inl refl) asks_other (λ e. ground arith)
      default-HasAddresses

assemble_ack_offered_example :
    let (reply, t) = assemble_ack default_pool quiet 1 discover mac offered_state in
    Acknowledges default_pool mac 7 address reply
    × (lookup mac t.mac_to_lease ≡ some (granted default_pool address 100))
    × (lookup address t.ip_to_mac ≡ some mac)
    × ((m : Bytes) → m ≢ mac → lookup m t.mac_to_lease ≡ lookup m offered_state.mac_to_lease)
    × (t.clock ≡ 100)
assemble_ack_offered_example =
    assemble_ack_offered default_pool quiet 1 discover mac offered_state (lease offered)
      offered-known refl asks_nothing default-HasAddresses

assemble_ack_renewed_test :
    let (reply, t) = assemble_ack default_pool quiet 1 discover mac leased_state in
    Acknowledges default_pool mac 7 address reply
    × (lookup mac t.mac_to_lease ≡ some (record (lease allocated) { expires_at = 160 }))
    × (t.ip_to_mac ≡ [])
    × ((m : Bytes) → m ≢ mac → lookup m t.mac_to_lease ≡ lookup m leased_state.mac_to_lease)
assemble_ack_renewed_test =
    assemble_ack_renewed default_pool quiet 1 discover mac leased_state (lease allocated)
      leased-known refl asks_nothing default-HasAddresses

both-known :
    (lookup mac both_offered.mac_to_lease ≡ some (lease offered))
    × (lookup mac' both_offered.mac_to_lease ≡ some (lease offered))
unfolding lookup text_beq
both-known = (refl, refl)

assemble_ack_twice_example :
    let (reply, t) = assemble_ack default_pool quiet 1 discover mac both_offered in
    let (reply', u) = assemble_ack default_pool quiet 1 discover mac' t in
    Acknowledges default_pool mac 7 address reply
    × Acknowledges default_pool mac' 7 address reply'
    × (lookup mac u.mac_to_lease ≡ some (granted default_pool address 100))
    × (lookup mac' u.mac_to_lease ≡ some (granted default_pool address 100))
assemble_ack_twice_example =
    assemble_ack_twice default_pool quiet 1 discover discover mac mac' both_offered (lease offered)
      (lease offered) (λ e. ground arith) both-known.0 both-known.1 refl refl refl asks_nothing
      asks_nothing default-HasAddresses
