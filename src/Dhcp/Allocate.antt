-- ===== src/Dhcp/Allocate.antt =====
-- dhcp.py, `_find_free_ip`.
pub mod Found
pub mod Exhausted
pub mod Overlap
pub mod Avoid
use cs305_2026spring_project.Prelude.{
  ℕ, zero, suc, ◌+◌, ◌-◌, Bool, true, false, Option, none, some, Bytes, Text, List, [], ◌∷◌, ltb,
  ◌&&◌, ◌||◌, if◌then◌else◌, text_eq, ◌==◌,
}
use cs305_2026spring_project.Prelude.Table.{Dict, lookup, insert}
use cs305_2026spring_project.Codec.Inet.{int_to_ip}
use cs305_2026spring_project.Dhcp.State.{Lease, Pool, State, offered}
use cs305_2026spring_project.Dhcp.Release.{is_allocated}
use cs305_2026spring_project.Dhcp.Probe.{arp_probe}

-- `info['state'] == LEASE_ALLOCATED and now < info['expires_at']`
abbrev pub is_live : ℕ → Lease → Bool
is_live now info = is_allocated info.state && ltb now info.expires_at

-- The set `used`.
unfoldable pub used_ips : ℕ → Dict Bytes Lease → List Text
used_ips now [] = []
used_ips now ((mac, info) ∷ d) =
    let rest = used_ips now d in if is_live now info then info.ip ∷ rest else rest

unfoldable pub in_set : Text → List Text → Bool
in_set ip [] = false
in_set ip (x ∷ xs) = x == ip || in_set ip xs

-- The address is claimed for the client.
unfoldable pub claim : Pool → Bytes → Text → ℕ → State → State
claim pool mac ip now s = record s {
  mac_to_lease =
      insert mac
        (record { ip = ip; assigned_at = now; expires_at = now + pool.lease_time; state = offered })
        s.mac_to_lease;
}

module _ (pool : Pool) (during : Text → State → State) (datapath : Option ℕ) where
  -- `datapath is not None and not cls._arp_probe(ip_str, datapath)`, negated.
  unfoldable pub probe_ok : Text → State → Bool × State
  unfolding arp_probe
  probe_ok ip s = elim datapath [ none ↦ (true, s) | some dp ↦ arp_probe pool during dp ip s ]

  -- `for ip_int in range(start, end + 1)`, by the addresses that are left.
  unfoldable pub search_pool : ℕ → ℕ → List Text → Bytes → ℕ → State → Option Text × State
  search_pool zero i used mac now s = (none, s)
  search_pool (suc n) i used mac now s = elim (in_set (int_to_ip i) used) [
    | true ↦ search_pool n (i + 1) used mac now s
    | false ↦
        let (clear, s') = probe_ok (int_to_ip i) s in
        elim clear [
          | true ↦ (some (int_to_ip i), claim pool mac (int_to_ip i) now s')
          | false ↦ search_pool n (i + 1) used mac now s'
        ]
  ]

  -- Behind the test for an own lease.
  unfoldable pub find_new_ip : Bytes → State → Option Text × State
  find_new_ip mac s =
      search_pool (pool.last + 1 - pool.first) pool.first (used_ips s.clock s.mac_to_lease) mac
        s.clock s

  -- `_find_free_ip(mac_addr, datapath)`
  unfoldable pub find_free_ip : Bytes → State → Option Text × State
  unfolding find_new_ip
  find_free_ip mac s = elim (lookup mac s.mac_to_lease) [
    | none ↦ find_new_ip mac s
    | some info ↦ if is_allocated info.state then (some info.ip, s) else find_new_ip mac s
  ]
