-- ===== src/Dhcp/Release.antt =====
-- dhcp.py, `_release_lease` and `_lease_reaper`.
pub mod Reaping
use mathlib.Core.List.{foldl}
use cs305_2026spring_project.Prelude.{
  ℕ, Bool, true, false, Option, none, some, Bytes, Text, List, [], ◌∷◌, leb, if◌then◌else◌, ◌&&◌,
  text_eq,
}
use cs305_2026spring_project.Prelude.Table.{Dict, lookup, insert, erase}
use cs305_2026spring_project.Dns.Records.{remove_record}
use cs305_2026spring_project.Dhcp.State.{Lease, LeaseState, State, released, allocated, offered}

abbrev pub is_allocated : LeaseState → Bool
is_allocated allocated = true
is_allocated _ = false

abbrev pub is_offered : LeaseState → Bool
is_offered offered = true
is_offered _ = false

-- The record of a lease that has ended.
abbrev pub ended : Lease → Lease
ended info = record info { state = released; expires_at = 0 }

unfoldable pub release_info : Bytes → Lease → State → State
release_info mac info s = record s {
  mac_to_lease = insert mac (ended info) s.mac_to_lease;
  ip_to_mac = erase info.ip s.ip_to_mac;
  mac_to_hostname = erase mac s.mac_to_hostname;
  dns = remove_record none (some info.ip) s.dns;
}

-- `_release_lease(mac_addr)`
unfoldable pub release_lease : Bytes → State → State
unfolding release_info
release_lease mac s = elim (lookup mac s.mac_to_lease) [
  | none ↦ s
  | some info ↦ release_info mac info s
]

-- `info['state'] == LEASE_ALLOCATED and now >= info['expires_at']`
abbrev pub is_expired : ℕ → Lease → Bool
is_expired now info = is_allocated info.state && leb info.expires_at now

-- The loop that collects the expired leases.
unfoldable pub expired_macs : ℕ → Dict Bytes Lease → List Bytes
expired_macs now [] = []
expired_macs now ((mac, info) ∷ d) =
    let rest = expired_macs now d in if is_expired now info then mac ∷ rest else rest

unfoldable pub release_all : List Bytes → State → State
unfolding release_lease
release_all [] s = s
release_all (mac ∷ macs) s = release_all macs (release_lease mac s)

-- One round of `_lease_reaper`, behind its sleep.
unfoldable pub reap : State → State
unfolding expired_macs release_all
reap s = release_all (expired_macs s.clock s.mac_to_lease) s
