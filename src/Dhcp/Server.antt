-- ===== src/Dhcp/Server.antt =====
-- dhcp.py, `assemble_offer`, `assemble_ack` and `handle_dhcp`.
pub mod Answers
pub mod Ack
pub mod Decline
use cs305_2026spring_project.Prelude.{
  ℕ, ◌+◌, Bool, true, false, Option, none, some, Bytes, Text, List, [], ◌∷◌, nat_beq, not,
  if◌then◌else◌, truthy, codes, ◌==◌, text_eq, ◌>>=◌,
}
use cs305_2026spring_project.Prelude.Table.{Dict, lookup, insert}
use cs305_2026spring_project.Dns.Records.{add_record}
use cs305_2026spring_project.Dhcp.State.{
  Lease, LeaseState, Pool, Reply, State, dhcp_reply, emit, allocated, offered,
}
use cs305_2026spring_project.Dhcp.Release.{is_allocated, is_offered, release_lease}
use cs305_2026spring_project.Dhcp.Packet.{
  Request, first_option, get_requested_ip, get_hostname, lease_reply, assemble_nak, mismatch,
  offer_type, ack_type,
}
use cs305_2026spring_project.Dhcp.Allocate.{find_free_ip}

-- `requested_ip is not None and requested_ip != assigned_ip`
unfoldable pub mismatches : Option Text → Text → Bool
mismatches none assigned = false
mismatches (some requested) assigned = not (requested == assigned)

-- `hostname = cls.mac_to_hostname.get(mac_bytes); if hostname: DNSServer.add_record(...)`
unfoldable pub register_name : Bytes → Text → State → State
register_name mac ip s = elim (lookup mac s.mac_to_hostname) [
  | none ↦ s
  | some hostname ↦ if truthy hostname then record s { dns = add_record hostname ip s.dns } else s
]

-- The client gets the lease: an offered address, or one that was just found.
unfoldable pub grant : Pool → Bytes → Text → ℕ → State → State
unfolding register_name
grant pool mac ip now s = register_name mac ip (record s {
  mac_to_lease =
      insert mac
        (record {
          ip = ip;
          assigned_at = now;
          expires_at = now + pool.lease_time;
          state = allocated;
        })
        s.mac_to_lease;
  ip_to_mac = insert ip mac s.ip_to_mac;
})

-- The lease of a client that has it already is extended.
unfoldable pub renew : Pool → Bytes → Lease → ℕ → State → State
unfolding register_name
renew pool mac info now s = register_name mac info.ip (record s {
  mac_to_lease = insert mac (record info { expires_at = now + pool.lease_time }) s.mac_to_lease;
})

-- The text of the address that was asked for, in a message.
abbrev pub shown : Option Text → Text
shown none = []
shown (some ip) = ip

module _ (pool : Pool) (during : Text → State → State) (datapath : ℕ) where
  -- The three branches of `assemble_ack`, by the client's lease.
  unfoldable pub ack_offered : Request → Bytes → Lease → State → Option Reply × State
  unfolding mismatches grant
  ack_offered r mac info s =
      if mismatches (get_requested_ip r) info.ip
      then (
        assemble_nak pool mac r.xid (mismatch (shown (get_requested_ip r)) (codes "offer") info.ip),
        s,
      )
      else (lease_reply ack_type pool mac r.xid info.ip, grant pool mac info.ip s.clock s)

  unfoldable pub ack_allocated : Request → Bytes → Lease → State → Option Reply × State
  unfolding mismatches renew
  ack_allocated r mac info s =
      if mismatches (get_requested_ip r) info.ip
      then (
        assemble_nak pool mac r.xid (mismatch (shown (get_requested_ip r)) (codes "lease") info.ip),
        s,
      )
      else (lease_reply ack_type pool mac r.xid info.ip, renew pool mac info s.clock s)

  -- With no lease, or one that has ended. `now` was read before the search.
  unfoldable pub ack_new : Request → Bytes → State → Option Reply × State
  unfolding grant
  ack_new r mac s =
      let (found, s') = find_free_ip pool during (some datapath) mac s in
      elim found [
        | none ↦ (none, s')
        | some ip ↦ (lease_reply ack_type pool mac r.xid ip, grant pool mac ip s.clock s')
      ]

  unfoldable pub ack_by_state : LeaseState → Request → Bytes → Lease → State → Option Reply × State
  unfolding ack_offered ack_allocated ack_new
  ack_by_state offered r mac info s = ack_offered r mac info s
  ack_by_state allocated r mac info s = ack_allocated r mac info s
  ack_by_state _ r mac info s = ack_new r mac s

  -- `assemble_ack(pkt, datapath, port)`
  unfoldable pub assemble_ack : Request → Bytes → State → Option Reply × State
  unfolding ack_by_state ack_new
  assemble_ack r mac s = elim (lookup mac s.mac_to_lease) [
    | none ↦ ack_new r mac s
    | some info ↦ ack_by_state info.state r mac info s
  ]

  -- `assemble_offer(pkt, datapath)`
  unfoldable pub assemble_offer : Request → Bytes → State → Option Reply × State
  assemble_offer r mac s =
      let (found, s') = find_free_ip pool during (some datapath) mac s in
      elim found [ none ↦ (none, s') | some ip ↦ (lease_reply offer_type pool mac r.xid ip, s') ]

  -- `if resp_pkt is not None: cls._send_packet(datapath, port, resp_pkt)`
  abbrev pub send_reply : ℕ → Option Reply × State → State
  send_reply port (none, s) = s
  send_reply port (some reply, s) = emit (dhcp_reply datapath port reply) s

  -- DHCPDECLINE: the address goes on the conflict list and the lease ends.
  unfoldable pub decline : Bytes → State → State
  unfolding release_lease
  decline mac s = elim (lookup mac s.mac_to_lease) [
    | none ↦ s
    | some info ↦
        release_lease mac (record s { conflict_ips = insert info.ip s.clock s.conflict_ips })
  ]

  -- `cls.mac_to_hostname[mac_bytes] = hostname`, if there is a name.
  unfoldable pub note_hostname : Request → Bytes → State → State
  note_hostname r mac s = elim (get_hostname r) [
    | none ↦ s
    | some hostname ↦
        if truthy hostname
        then record s { mac_to_hostname = insert mac hostname s.mac_to_hostname }
        else s
  ]

  -- The chain of tests on the message type.
  unfoldable pub dispatch : ℕ → Request → Bytes → Bytes → State → State
  unfolding assemble_offer assemble_ack decline release_lease
  dispatch port r type mac s =
      if type == (1 ∷ [])
      then send_reply port (assemble_offer r mac s)
      else if type == (3 ∷ [])
      then send_reply port (assemble_ack r mac s)
      else if type == (7 ∷ [])
      then release_lease mac s
      else if type == (4 ∷ [])
      then decline mac s
      else s

  -- With no Ethernet header an offer or an ack raises, and nothing else happens.
  unfoldable pub handle_from : ℕ → Request → Bytes → Option Bytes → State → State
  unfolding dispatch note_hostname
  handle_from port r type none s = s
  handle_from port r type (some mac) s = dispatch port r type mac (note_hostname r mac s)

  -- `handle_dhcp(datapath, port, pkt)`, for a packet with a DHCP message.
  unfoldable pub handle_dhcp : ℕ → Request → State → State
  unfolding handle_from first_option
  handle_dhcp port r s = if not (nat_beq r.op 1) then s else elim (r.options >>= first_option 53) [
    | none ↦ s
    | some type ↦ handle_from port r type r.mac s
  ]
