-- ===== src/Dhcp/Invariant/Handle.antt =====
-- Every DHCP message keeps the leases in the pool.
use cs305_2026spring_project.Prelude.{
  ℕ, ◌≤◌, inl, inr, Bool, true, false, Option, none, some, Bytes, Text, [], ◌∷◌, ◌==◌, Bool-cases,
  Option-cases, arith, text_eq, ◌>>=◌, nat_beq, not, if◌then◌else◌,
}
use cs305_2026spring_project.Prelude.Table.{lookup, insert}
use cs305_2026spring_project.Dhcp.State.{Lease, LeaseState, Pool, Reply, State, offered, allocated}
use cs305_2026spring_project.Dhcp.Allocate.{find_free_ip}
use cs305_2026spring_project.Dhcp.Packet.{Request, first_option, get_requested_ip}
use cs305_2026spring_project.Dhcp.Server.{
  ack_offered, ack_allocated, ack_new, ack_by_state, assemble_ack, assemble_offer, send_reply,
  decline, note_hostname, dispatch, handle_from, handle_dhcp, mismatches,
}
use cs305_2026spring_project.Dhcp.Invariant.{
  InPool, IsPooled, IsPooled-of, release_lease-IsPooled, grant-IsPooled, renew-IsPooled,
}
use cs305_2026spring_project.Dhcp.Invariant.Search.{find_free_ip-Pooled}

if_keeps {ℓ κ} :
    {A : Type ℓ} (P : A → Type κ) (b : Bool) {x y : A} → P x → P y → P (if b then x else y)
if_keeps P true p q = p
if_keeps P false p q = q

module _ (pool : Pool) (during : Text → State → State) (datapath : ℕ)
    (order : pool.first ≤ pool.last)
    (keeps : (ip : Text) (t : State) → IsPooled pool t → IsPooled pool (during ip t)) where
  -- What an address that was found leads to, in an offer and in an acknowledgement.
  ack_new-IsPooled :
      (r : Request) (mac : Bytes) (s : State)
      → IsPooled pool s
      → IsPooled pool (ack_new pool during datapath r mac s).1
  unfolding ack_new
  ack_new-IsPooled r mac s h =
      let found = find_free_ip-Pooled pool during keeps (some datapath) mac s order h in
      elim (Option-cases (find_free_ip pool during (some datapath) mac s).0) [
        | inl nothing ↦ rw (nothing, ack_new) found.0
        | inr (ip, e) ↦
            rw (e, ack_new)
              (grant-IsPooled pool mac ip s.clock (find_free_ip pool during (some datapath) mac s).1
                found.0 (found.1 ip e))
      ]

  assemble_offer-IsPooled :
      (r : Request) (mac : Bytes) (s : State)
      → IsPooled pool s
      → IsPooled pool (assemble_offer pool during datapath r mac s).1
  unfolding assemble_offer
  assemble_offer-IsPooled r mac s h =
      let found = find_free_ip-Pooled pool during keeps (some datapath) mac s order h in
      elim (Option-cases (find_free_ip pool during (some datapath) mac s).0) [
        | inl nothing ↦ rw (nothing, assemble_offer) found.0
        | inr (ip, e) ↦ rw (e, assemble_offer) found.0
      ]

  ack_offered-IsPooled :
      (r : Request) (mac : Bytes) (info : Lease) (s : State)
      → IsPooled pool s
      → InPool pool info.ip
      → IsPooled pool (ack_offered pool during datapath r mac info s).1
  unfolding ack_offered
  ack_offered-IsPooled r mac info s h i =
      elim (Bool-cases (mismatches (get_requested_ip r) info.ip)) [
        | inl differs ↦ rw (differs, ack_offered) h
        | inr fits ↦ rw (fits, ack_offered) (grant-IsPooled pool mac info.ip s.clock s h i)
      ]

  ack_allocated-IsPooled :
      (r : Request) (mac : Bytes) (info : Lease) (s : State)
      → IsPooled pool s
      → InPool pool info.ip
      → IsPooled pool (ack_allocated pool during datapath r mac info s).1
  unfolding ack_allocated
  ack_allocated-IsPooled r mac info s h i =
      elim (Bool-cases (mismatches (get_requested_ip r) info.ip)) [
        | inl differs ↦ rw (differs, ack_allocated) h
        | inr fits ↦ rw (fits, ack_allocated) (renew-IsPooled pool mac info s.clock s h i)
      ]

  ack_by_state-IsPooled :
      (st : LeaseState) (r : Request) (mac : Bytes) (info : Lease) (s : State)
      → IsPooled pool s
      → InPool pool info.ip
      → IsPooled pool (ack_by_state pool during datapath st r mac info s).1
  unfolding ack_by_state
  ack_by_state-IsPooled offered r mac info s h i = ack_offered-IsPooled r mac info s h i
  ack_by_state-IsPooled allocated r mac info s h i = ack_allocated-IsPooled r mac info s h i
  ack_by_state-IsPooled _ r mac info s h i = ack_new-IsPooled r mac s h

  assemble_ack-IsPooled :
      (r : Request) (mac : Bytes) (s : State)
      → IsPooled pool s
      → IsPooled pool (assemble_ack pool during datapath r mac s).1
  unfolding assemble_ack
  assemble_ack-IsPooled r mac s h = elim (Option-cases (lookup mac s.mac_to_lease)) [
    | inl absent ↦ rw (absent, assemble_ack) (ack_new-IsPooled r mac s h)
    | inr (info, known) ↦
        rw (known, assemble_ack)
          (ack_by_state-IsPooled info.state r mac info s h (h mac info known))
  ]

  send_reply-IsPooled :
      (port : ℕ) (o : Option Reply × State)
      → IsPooled pool o.1
      → IsPooled pool (send_reply pool during datapath port o)
  send_reply-IsPooled port (none, s) h = h
  send_reply-IsPooled port (some reply, s) h = h

  decline-IsPooled :
      (mac : Bytes) (s : State)
      → IsPooled pool s
      → IsPooled pool (decline pool during datapath mac s)
  unfolding decline
  decline-IsPooled mac s h = elim (Option-cases (lookup mac s.mac_to_lease)) [
    | inl absent ↦ rw (absent, decline) h
    | inr (info, known) ↦
        rw (known, decline)
          (release_lease-IsPooled pool mac
            (record s { conflict_ips = insert info.ip s.clock s.conflict_ips }) h)
  ]

  note_hostname-IsPooled :
      (r : Request) (mac : Bytes) (s : State)
      → IsPooled pool s
      → IsPooled pool (note_hostname pool during datapath r mac s)
  unfolding note_hostname
  note_hostname-IsPooled r mac s h =
      IsPooled-of pool s (note_hostname pool during datapath r mac s) (ground arith) h

  dispatch-IsPooled :
      (port : ℕ) (r : Request) (type mac : Bytes) (s : State)
      → IsPooled pool s
      → IsPooled pool (dispatch pool during datapath port r type mac s)
  unfolding dispatch
  dispatch-IsPooled port r type mac s h =
      let Kept = IsPooled pool in
      let offer =
        send_reply-IsPooled port (assemble_offer pool during datapath r mac s)
          (assemble_offer-IsPooled r mac s h) in
      let ack =
        send_reply-IsPooled port (assemble_ack pool during datapath r mac s)
          (assemble_ack-IsPooled r mac s h) in
      if_keeps Kept (type == (1 ∷ [])) offer (
        if_keeps Kept (type == (3 ∷ [])) ack (
          if_keeps Kept (type == (7 ∷ [])) (release_lease-IsPooled pool mac s h)
            (if_keeps Kept (type == (4 ∷ [])) (decline-IsPooled mac s h) h)))

  handle_from-IsPooled :
      (port : ℕ) (r : Request) (type : Bytes) (mac : Option Bytes) (s : State)
      → IsPooled pool s
      → IsPooled pool (handle_from pool during datapath port r type mac s)
  unfolding handle_from
  handle_from-IsPooled port r type none s h = h
  handle_from-IsPooled port r type (some mac) s h =
      dispatch-IsPooled port r type mac (note_hostname pool during datapath r mac s)
        (note_hostname-IsPooled r mac s h)

  -- If every lease is of an address of the pool, so is every lease after handle_dhcp has handled
  -- any DHCP message, provided that the pool is not empty and that whatever runs during the ARP
  -- probes keeps the leases in the pool.
  pub handle_dhcp-IsPooled :
      (port : ℕ) (r : Request) (s : State)
      → IsPooled pool s
      → IsPooled pool (handle_dhcp pool during datapath port r s)
  unfolding handle_dhcp
  handle_dhcp-IsPooled port r s h =
      if_keeps (IsPooled pool) (not (nat_beq r.op 1)) h
        (elim (Option-cases (r.options >>= first_option 53)) [
          | inl absent ↦ rw absent h
          | inr (type, e) ↦ rw e (handle_from-IsPooled port r type r.mac s h)
        ])
