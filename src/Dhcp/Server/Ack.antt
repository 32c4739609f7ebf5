-- ===== src/Dhcp/Server/Ack.antt =====
-- What `assemble_ack` does by the client's lease.
use mathlib.Core.Path.{ap₂}
use cs305_2026spring_project.Prelude.{
  ℕ, ◌+◌, ◌≡◌, ◌≢◌, ◌⊎◌, subst, ◌++◌, inl, inr, refl, false, some, Bytes, Text, arith, text_eq,
  ==_iff, ◌==◌, ==_refl, ==_ne, codes, sym, ◌∙◌, if◌then◌else◌,
}
use cs305_2026spring_project.Prelude.Table.{lookup, lookup-insert}
use cs305_2026spring_project.Dhcp.State.{Lease, LeaseState, Pool, State, allocated, offered}
use cs305_2026spring_project.Dhcp.Packet.{
  Request, get_requested_ip, lease_reply, assemble_nak, mismatch, ack_type,
}
use cs305_2026spring_project.Dhcp.Server.Answers.{
  HasAddresses, Acknowledges, Refuses, lease_reply-Acknowledges, mismatch-Refuses,
}
use cs305_2026spring_project.Dhcp.Server.{
  mismatches, register_name, grant, renew, ack_by_state, assemble_ack,
}

-- The lease that an acknowledgement leaves.
abbrev pub granted : Pool → Text → ℕ → Lease
granted pool ip now = record {
  ip = ip;
  assigned_at = now;
  expires_at = now + pool.lease_time;
  state = allocated;
}

-- Registering a name changes the name server's records alone.
pub register_name_leases :
    (mac : Bytes) (ip : Text) (s : State)
    → ((register_name mac ip s).mac_to_lease ≡ s.mac_to_lease)
      × ((register_name mac ip s).ip_to_mac ≡ s.ip_to_mac)
      × ((register_name mac ip s).clock ≡ s.clock)
unfolding register_name
register_name_leases mac ip s = ground arith

lookup-grant :
    (pool : Pool) (mac m : Bytes) (ip : Text) (now : ℕ) (s : State)
    → lookup m (grant pool mac ip now s).mac_to_lease
      ≡ (if mac == m then some (granted pool ip now) else lookup m s.mac_to_lease)
unfolding grant
lookup-grant pool mac m ip now s =
    rw ((register_name_leases mac ip _).0)
      (lookup-insert m mac (granted pool ip now) s.mac_to_lease)

lookup-grant_ip :
    (pool : Pool) (mac : Bytes) (ip : Text) (now : ℕ) (s : State)
    → lookup ip (grant pool mac ip now s).ip_to_mac ≡ some mac
unfolding grant
lookup-grant_ip pool mac ip now s =
    rw ((register_name_leases mac ip _).1)
      (rw (lookup-insert ip ip mac s.ip_to_mac) (rw (==_refl ip)))

clock-grant :
    (pool : Pool) (mac : Bytes) (ip : Text) (now : ℕ) (s : State)
    → (grant pool mac ip now s).clock ≡ s.clock
unfolding grant
clock-grant pool mac ip now s = (register_name_leases mac ip _).2

lookup-renew :
    (pool : Pool) (mac m : Bytes) (info : Lease) (now : ℕ) (s : State)
    → lookup m (renew pool mac info now s).mac_to_lease ≡ (
        if mac == m
        then some (record info { expires_at = now + pool.lease_time })
        else lookup m s.mac_to_lease)
unfolding renew
lookup-renew pool mac m info now s =
    rw ((register_name_leases mac info.ip _).0)
      (lookup-insert m mac (record info { expires_at = now + pool.lease_time }) s.mac_to_lease)

-- What a NAK calls the lease that the request does not match.
abbrev pub named : LeaseState → Text
named offered = codes "offer"
named _ = codes "lease"

module _ (pool : Pool) (during : Text → State → State) (datapath : ℕ) (r : Request) (mac : Bytes)
    (s : State) (info : Lease) (known : lookup mac s.mac_to_lease ≡ some info) where
  refused_outcome :
      (requested : Text)
      → (info.state ≡ offered) ⊎ (info.state ≡ allocated)
      → get_requested_ip r ≡ some requested
      → requested ≢ info.ip
      → assemble_ack pool during datapath r mac s
        ≡ (assemble_nak pool mac r.xid (mismatch requested (named info.state) info.ip), s)
  unfolding assemble_ack
  refused_outcome requested (inl st) asked other =
      rw (known, assemble_ack)
        (rw (st, ack_by_state) (rw asked (rw (==_ne requested info.ip other))))
  refused_outcome requested (inr st) asked other =
      rw (known, assemble_ack)
        (rw (st, ack_by_state) (rw asked (rw (==_ne requested info.ip other))))

  -- If the addresses of the server parse, a request for another address than the one offered or
  -- leased is answered with a DHCPNAK to the client and its transaction without an address, whose
  -- message names the requested address and the one offered or leased, and the state stays as it
  -- was.
  pub assemble_ack-mismatch :
      (requested : Text)
      → (info.state ≡ offered) ⊎ (info.state ≡ allocated)
      → get_requested_ip r ≡ some requested
      → requested ≢ info.ip
      → HasAddresses pool
      → let (reply, t) = assemble_ack pool during datapath r mac s in
        Refuses pool mac r.xid
          (codes "requested IP "
            ++ (requested
                ++ (codes " does not match " ++ (named info.state ++ (codes " " ++ info.ip)))))
          reply
        × (t ≡ s)
  assemble_ack-mismatch requested held asked other addresses =
      rw (refused_outcome requested held asked other)
        (mismatch-Refuses pool mac r.xid requested (named info.state) info.ip addresses, refl)

  offered_outcome :
      info.state ≡ offered
      → mismatches (get_requested_ip r) info.ip ≡ false
      → assemble_ack pool during datapath r mac s
        ≡ (lease_reply ack_type pool mac r.xid info.ip, grant pool mac info.ip s.clock s)
  unfolding assemble_ack
  offered_outcome st fits = rw (known, assemble_ack) (rw (st, ack_by_state) (rw fits))

  renewed_outcome :
      info.state ≡ allocated
      → mismatches (get_requested_ip r) info.ip ≡ false
      → assemble_ack pool during datapath r mac s
        ≡ (lease_reply ack_type pool mac r.xid info.ip, renew pool mac info s.clock s)
  unfolding assemble_ack
  renewed_outcome st fits = rw (known, assemble_ack) (rw (st, ack_by_state) (rw fits))

  -- If the addresses of the server parse, a request that accepts the offer, or names no address,
  -- is answered with a DHCPACK to the client and its transaction that has the offered address, the
  -- lease time, the netmask and the server; the lease is allocated for the lease time, the address
  -- is mapped to the client, other leases and the clock stay.
  pub assemble_ack_offered :
      info.state ≡ offered
      → mismatches (get_requested_ip r) info.ip ≡ false
      → HasAddresses pool
      → let (reply, t) = assemble_ack pool during datapath r mac s in
        Acknowledges pool mac r.xid info.ip reply
        × (lookup mac t.mac_to_lease ≡ some (granted pool info.ip s.clock))
        × (lookup info.ip t.ip_to_mac ≡ some mac)
        × ((m : Bytes) → m ≢ mac → lookup m t.mac_to_lease ≡ lookup m s.mac_to_lease)
        × (t.clock ≡ s.clock)
  assemble_ack_offered st fits addresses =
      let leases = λ (m : Bytes). lookup-grant pool mac m info.ip s.clock s in
      rw (offered_outcome st fits) (
        lease_reply-Acknowledges pool mac r.xid info.ip addresses,
        ground (arith, leases mac, ==_iff mac mac),
        lookup-grant_ip pool mac info.ip s.clock s,
        λ m ne. ground (arith, leases m, ==_iff mac m),
        clock-grant pool mac info.ip s.clock s,
      )

  -- A request for an allocated lease extends it from now by the lease time and changes no other
  -- lease and no mapping of an address.
  pub assemble_ack_renewed :
      info.state ≡ allocated
      → mismatches (get_requested_ip r) info.ip ≡ false
      → HasAddresses pool
      → let (reply, t) = assemble_ack pool during datapath r mac s in
        Acknowledges pool mac r.xid info.ip reply
        × (lookup mac t.mac_to_lease
            ≡ some (record info { expires_at = s.clock + pool.lease_time }))
        × (t.ip_to_mac ≡ s.ip_to_mac)
        × ((m : Bytes) → m ≢ mac → lookup m t.mac_to_lease ≡ lookup m s.mac_to_lease)
  unfolding renew
  assemble_ack_renewed st fits addresses =
      let leases = λ (m : Bytes). lookup-renew pool mac m info s.clock s in
      rw (renewed_outcome st fits) (
        lease_reply-Acknowledges pool mac r.xid info.ip addresses,
        ground (arith, leases mac, ==_iff mac mac),
        (register_name_leases mac info.ip _).1,
        λ m ne. ground (arith, leases m, ==_iff mac m),
      )

-- If the addresses of the server parse and two clients were offered one address, then both
-- requests, when each names that address or none, are answered with a DHCPACK of it, and both
-- clients then have an allocated lease of it.
pub assemble_ack_twice :
    (pool : Pool) (during : Text → State → State) (datapath : ℕ) (r r' : Request) (mac mac' : Bytes)
    (s : State) (info info' : Lease)
    → mac ≢ mac'
    → lookup mac s.mac_to_lease ≡ some info
    → lookup mac' s.mac_to_lease ≡ some info'
    → info.state ≡ offered
    → info'.state ≡ offered
    → info.ip ≡ info'.ip
    → mismatches (get_requested_ip r) info.ip ≡ false
    → mismatches (get_requested_ip r') info'.ip ≡ false
    → HasAddresses pool
    → let (reply, t) = assemble_ack pool during datapath r mac s in
      let (reply', u) = assemble_ack pool during datapath r' mac' t in
      Acknowledges pool mac r.xid info.ip reply
      × Acknowledges pool mac' r'.xid info.ip reply'
      × (lookup mac u.mac_to_lease ≡ some (granted pool info.ip s.clock))
      × (lookup mac' u.mac_to_lease ≡ some (granted pool info.ip s.clock))
assemble_ack_twice pool during datapath r r' mac mac' s info info' ne known known' st st' same fits
      fits' addresses =
    let t = (assemble_ack pool during datapath r mac s).1 in
    let (reply, own, mapped, others, time) =
      assemble_ack_offered pool during datapath r mac s info known st fits addresses in
    let kept = others mac' (λ e. ne (sym e)) ∙ known' in
    let (reply', own', mapped', others', time') =
      assemble_ack_offered pool during datapath r' mac' t info' kept st' fits' addresses in
    (
      reply,
      subst (λ ip. Acknowledges pool mac' r'.xid ip (assemble_ack pool during datapath r' mac' t).0)
          (sym same) reply',
      others' mac ne ∙ own,
      own' ∙ ap₂ (λ ip now. some (granted pool ip now)) (sym same) time,
    )
