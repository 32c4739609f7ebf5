-- ===== src/Dhcp/Release/Reaping.antt =====
-- What ending a lease and a round of the reaper do to the leases.
use cs305_2026spring_project.Prelude.{
  ℕ, ◌≡◌, inl, inr, refl, Bool, false, Option, none, some, Bytes, List, [], ◌∷◌, arith, Bool-cases,
  Option-cases, text_eq, ==_iff, ◌==◌, ==_refl, if◌then◌else◌, ◌||◌, ◌&&◌, leb,
}
use cs305_2026spring_project.Prelude.Table.{Dict, IsDict, lookup, lookup-insert, lookup-erase}
use cs305_2026spring_project.Dns.Records.{remove_record}
use cs305_2026spring_project.Dhcp.State.{
  Lease, LeaseState, State, probing, offered, allocated, released, conflicted,
}
use cs305_2026spring_project.Dhcp.Release.{
  is_allocated, is_expired, ended, release_lease, expired_macs, release_all, reap,
}

abbrev pub end_lease : Option Lease → Option Lease
end_lease none = none
end_lease (some info) = some (ended info)

-- The client's lease has ended, and no other lease has changed.
pub lookup-release_lease :
    (m mac : Bytes) (s : State)
    → lookup m (release_lease mac s).mac_to_lease
      ≡ (if mac == m then end_lease (lookup m s.mac_to_lease) else lookup m s.mac_to_lease)
unfolding release_lease
lookup-release_lease m mac s = elim (Option-cases (lookup mac s.mac_to_lease)) [
  | inl absent ↦ rw (absent, release_lease) (ground (arith, ==_iff mac m))
  | inr (info, known) ↦
      rw (known, release_lease)
        (ground (arith, lookup-insert m mac (ended info) s.mac_to_lease, ==_iff mac m))
]

-- Releasing a client’s lease unmaps its address and its hostname, and removes the DNS records of
-- the address and no others.
pub release_lease_unmaps :
    (mac : Bytes) (s : State) (info : Lease)
    → lookup mac s.mac_to_lease ≡ some info
    → (lookup info.ip (release_lease mac s).ip_to_mac ≡ none)
      × (lookup mac (release_lease mac s).mac_to_hostname ≡ none)
      × ((release_lease mac s).dns ≡ remove_record none (some info.ip) s.dns)
unfolding release_lease
release_lease_unmaps mac s info known =
    rw (known, release_lease)
      (
        rw (lookup-erase info.ip info.ip s.ip_to_mac, ==_refl info.ip),
        rw (lookup-erase mac mac s.mac_to_hostname, ==_refl mac),
        refl,
      )

abbrev member : Bytes → List Bytes → Bool
member m [] = false
member m (x ∷ xs) = x == m || member m xs

end_lease_idem : (o : Option Lease) → end_lease (end_lease o) ≡ end_lease o
end_lease_idem none = refl
end_lease_idem (some info) = refl

lookup-release_all :
    (macs : List Bytes) (m : Bytes) (s : State)
    → lookup m (release_all macs s).mac_to_lease
      ≡ (if member m macs then end_lease (lookup m s.mac_to_lease) else lookup m s.mac_to_lease)
unfolding release_all
lookup-release_all [] m s = refl
lookup-release_all (mac ∷ macs) m s = ground (
  arith,
  lookup-release_all macs m (release_lease mac s),
  lookup-release_lease m mac s,
  end_lease_idem (lookup m s.mac_to_lease),
)

member-expired_macs-none :
    (now : ℕ) (d : Dict Bytes Lease) (m : Bytes)
    → lookup m d ≡ none
    → member m (expired_macs now d) ≡ false
unfolding expired_macs lookup
member-expired_macs-none now [] m e = refl
member-expired_macs-none now ((mac, i) ∷ d) m e = ground (arith, member-expired_macs-none now d m)

-- The collected clients are those whose lease has expired.
member-expired_macs :
    (now : ℕ) (d : Dict Bytes Lease) (m : Bytes) (info : Lease)
    → IsDict d
    → lookup m d ≡ some info
    → member m (expired_macs now d) ≡ is_expired now info
unfolding expired_macs lookup
member-expired_macs now [] m info u e = cc
member-expired_macs now ((mac, i) ∷ d) m info u e = elim (Bool-cases (mac == m)) [
  | inl same ↦
      let absent : lookup m d ≡ none = ground (arith, ==_iff mac m) in
      ground (arith, member-expired_macs-none now d m absent)
  | inr other ↦ ground (arith, member-expired_macs now d m info u.1)
]

-- What a round of the reaper at `now` is to leave of a lease, by its state.
abbrev pub reaped_by : LeaseState → ℕ → Lease → Lease
reaped_by allocated now info =
    if leb info.expires_at now then record info { state = released; expires_at = 0 } else info
reaped_by offered now info = info
reaped_by probing now info = info
reaped_by released now info = info
reaped_by conflicted now info = info

-- The test and the record of the code, by the lease's state.
reaped_by_lem :
    (st : LeaseState) (now : ℕ) (info : Lease)
    → (if is_allocated st && leb info.expires_at now then ended info else info)
      ≡ reaped_by st now info
reaped_by_lem allocated now info = refl
reaped_by_lem offered now info = refl
reaped_by_lem probing now info = refl
reaped_by_lem released now info = refl
reaped_by_lem conflicted now info = refl

-- After a round of the reaper an allocated lease whose time has come has state released and expiry
-- 0 and is otherwise unchanged, and a lease that is not allocated or whose time has not come is as
-- it was.
pub reap_lem :
    (s : State) (m : Bytes) (info : Lease)
    → IsDict s.mac_to_lease
    → lookup m s.mac_to_lease ≡ some info
    → lookup m (reap s).mac_to_lease ≡ some (reaped_by info.state s.clock info)
unfolding reap
reap_lem s m info u known = rw (← reaped_by_lem info.state s.clock info) (
    ground (
      arith,
      lookup-release_all (expired_macs s.clock s.mac_to_lease) m s,
      member-expired_macs s.clock s.mac_to_lease m info u known,
    ))
