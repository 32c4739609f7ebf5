-- ===== src/Nat/Kept.antt =====
-- The handlers keep the index of the translated ports in agreement with the connections.
use cs305_2026spring_project.Prelude.{
  ℕ, ◌≡◌, refl, inl, inr, Option, none, some, Text, Bytes, nat_beq, if◌then◌else◌, nat_eq, text_eq,
  Bool-cases, Option-cases,
}
use cs305_2026spring_project.Prelude.Table.{lookup, insert}
use cs305_2026spring_project.Nat.Table.{
  Conn, Entry, Table, proto_tcp, proto_icmp, succ_port, seen, conn_key, alloc_loop, alloc_port,
  create_entry, lookup_outbound, lookup_inbound, key_eq,
}
use cs305_2026spring_project.Nat.Track.{update_tcp_state, track, or_create, entry_for}
use cs305_2026spring_project.Nat.Packet.{Info, rewrite_outbound, rewrite_inbound}
use cs305_2026spring_project.Nat.Handler.{
  Config, outbound_ports, inbound_port, entry_key, note_flags, send_outbound, translate_outbound,
  outbound_with, outbound_from, answer_inbound, translate_inbound, inbound_with, inbound_from,
}
use cs305_2026spring_project.Nat.Index.{
  IsIndexed, insert-Leads_same, create_at-IsIndexed, lookup_inbound-IsIndexed,
}

-- The index of the table that a call returns, if it returns.
unfoldable pub Kept {ℓ} : {A : Type ℓ} → Option (A × Table) → Type 0
Kept none = Unit
Kept (some (_, t)) = IsIndexed t

update-nat_port :
    (bits : ℕ) (entry : Entry) → entry.nat_port ≡ (update_tcp_state bits entry).nat_port
unfolding update_tcp_state
update-nat_port bits entry = elim (Bool-cases (nat_beq entry.proto proto_tcp)) [
  | inl tcp ↦ rw (tcp) refl
  | inr other ↦ rw (other) refl
]

track-IsIndexed :
    (key : Option Conn) (bits : ℕ) (t : Table) → IsIndexed t → IsIndexed (track key bits t)
unfolding track
track-IsIndexed key bits t h = elim (Option-cases (lookup key t.connections)) [
  | inl e ↦ rw (e, track) h
  | inr (entry, e) ↦
      rw (e, track)
        (insert-Leads_same key entry (update_tcp_state bits entry) t.port_index t.connections e
          (update-nat_port bits entry) h)
]

create_entry-Kept :
    (fuel : ℕ) (si : Text) (sp : ℕ) (di : Text) (dp proto : ℕ) (ip : Text) (mac : Bytes)
    (port : Option ℕ) (t : Table)
    → lookup (conn_key si sp di dp proto) t.connections ≡ none
    → IsIndexed t
    → Kept (create_entry fuel si sp di dp proto ip mac port t)
unfolding Kept create_entry alloc_port
create_entry-Kept fuel si sp di dp proto ip mac (some port) t e h =
    create_at-IsIndexed si sp di dp proto ip mac port t e h
create_entry-Kept fuel si sp di dp proto ip mac none t e h =
    elim (Option-cases (alloc_loop fuel t.next_port (succ_port t.next_port) t.port_index)) [
      | inl stuck ↦ rw (stuck, create_entry) tt
      | inr ((port, next), found) ↦
          rw (found, create_entry)
            (create_at-IsIndexed si sp di dp proto ip mac port (record t { next_port = next }) e h)
    ]

lookup_outbound-absent :
    (si : Text) (sp : ℕ) (di : Text) (dp proto : ℕ) (t : Table)
    → lookup (conn_key si sp di dp proto) t.connections ≡ none
    → lookup_outbound si sp di dp proto t ≡ (none, t)
unfolding lookup_outbound
lookup_outbound-absent si sp di dp proto t e = rw (e, lookup_outbound) refl

lookup_outbound-present :
    (si : Text) (sp : ℕ) (di : Text) (dp proto : ℕ) (t : Table) (entry : Entry)
    → lookup (conn_key si sp di dp proto) t.connections ≡ some entry
    → lookup_outbound si sp di dp proto t ≡ (
      some (seen t entry),
      record t { connections = insert (conn_key si sp di dp proto) (seen t entry) t.connections },
    )
unfolding lookup_outbound
lookup_outbound-present si sp di dp proto t entry e = rw (e, lookup_outbound) refl

entry_for-Kept :
    (fuel : ℕ) (external_ip si : Text) (sp : ℕ) (di : Text) (dp proto : ℕ) (mac : Bytes) (t : Table)
    → IsIndexed t
    → Kept (entry_for fuel external_ip si sp di dp proto mac t)
unfolding Kept entry_for or_create
entry_for-Kept fuel external_ip si sp di dp proto mac t h =
    elim (Option-cases (lookup (conn_key si sp di dp proto) t.connections)) [
      | inl e ↦
          rw (lookup_outbound-absent si sp di dp proto t e, entry_for, or_create)
            (create_entry-Kept fuel si sp di dp proto external_ip mac
              (if nat_beq proto proto_icmp then some sp else none) t e h)
      | inr (entry, e) ↦
          rw (lookup_outbound-present si sp di dp proto t entry e, entry_for, or_create)
            (insert-Leads_same (conn_key si sp di dp proto) entry (seen t entry) t.port_index
              t.connections e refl h)
    ]

note_flags-IsIndexed :
    (entry : Entry) (flags : Option ℕ) (t : Table)
    → IsIndexed t
    → IsIndexed (note_flags entry flags t)
unfolding note_flags
note_flags-IsIndexed entry none t h = h
note_flags-IsIndexed entry (some flags) t h = track-IsIndexed (entry_key entry) flags t h

send_outbound-IsIndexed :
    (entry : Entry) (t : Table) (r : Option (Bytes × Option ℕ))
    → IsIndexed t
    → IsIndexed (send_outbound entry t r).1
unfolding send_outbound
send_outbound-IsIndexed entry t none h = h
send_outbound-IsIndexed entry t (some (packet, flags)) h = note_flags-IsIndexed entry flags t h

translate_outbound-Kept :
    (config : Config) (raw : Bytes) (info : Info) (dst_mac : Bytes) (r : Option (Entry × Table))
    → Kept r
    → Kept (translate_outbound config raw info dst_mac r)
unfolding Kept translate_outbound
translate_outbound-Kept config raw info dst_mac none h = h
translate_outbound-Kept config raw info dst_mac (some (entry, t)) h =
    send_outbound-IsIndexed entry t (rewrite_outbound config.controller_mac raw info entry dst_mac)
      h

outbound_with-Kept :
    (fuel : ℕ) (config : Config) (raw : Bytes) (info : Info) (dst_mac : Bytes) (t : Table)
    (ports : Option (ℕ × ℕ))
    → IsIndexed t
    → Kept (outbound_with fuel config raw info dst_mac t ports)
unfolding Kept outbound_with
outbound_with-Kept fuel config raw info dst_mac t none h = h
outbound_with-Kept fuel config raw info dst_mac t (some (sp, dp)) h =
    translate_outbound-Kept config raw info dst_mac
      (entry_for fuel config.external_ip info.src_ip sp info.dst_ip dp info.proto info.src_mac t)
      (entry_for-Kept fuel config.external_ip info.src_ip sp info.dst_ip dp info.proto info.src_mac
        t h)

pub outbound_from-Kept :
    (fuel : ℕ) (config : Config) (raw dst_mac : Bytes) (t : Table) (info : Option Info)
    → IsIndexed t
    → Kept (outbound_from fuel config raw dst_mac t info)
unfolding Kept outbound_from
outbound_from-Kept fuel config raw dst_mac t none h = h
outbound_from-Kept fuel config raw dst_mac t (some info) h =
    outbound_with-Kept fuel config raw info dst_mac t (outbound_ports raw info) h

answer_inbound-IsIndexed :
    (entry : Entry) (t : Table) (r : Option (Bytes × Option ℕ))
    → IsIndexed t
    → IsIndexed (answer_inbound entry t r).1
unfolding answer_inbound
answer_inbound-IsIndexed entry t none h = h
answer_inbound-IsIndexed entry t (some (packet, flags)) h = note_flags-IsIndexed entry flags t h

translate_inbound-IsIndexed :
    (config : Config) (raw : Bytes) (info : Info) (r : Option Entry × Table)
    → IsIndexed r.1
    → IsIndexed (translate_inbound config raw info r).1
unfolding translate_inbound
translate_inbound-IsIndexed config raw info (none, t) h = h
translate_inbound-IsIndexed config raw info (some entry, t) h =
    answer_inbound-IsIndexed entry t (rewrite_inbound config.controller_mac raw info entry) h

inbound_with-IsIndexed :
    (config : Config) (raw : Bytes) (info : Info) (t : Table) (port : Option ℕ)
    → IsIndexed t
    → IsIndexed (inbound_with config raw info t port).1
unfolding inbound_with
inbound_with-IsIndexed config raw info t none h = h
inbound_with-IsIndexed config raw info t (some port) h =
    translate_inbound-IsIndexed config raw info (lookup_inbound info.dst_ip port info.proto t)
      (lookup_inbound-IsIndexed info.dst_ip port info.proto t h)

pub inbound_from-IsIndexed :
    (config : Config) (raw : Bytes) (t : Table) (info : Option Info)
    → IsIndexed t
    → IsIndexed (inbound_from config raw t info).1
unfolding inbound_from
inbound_from-IsIndexed config raw t none h = h
inbound_from-IsIndexed config raw t (some info) h =
    inbound_with-IsIndexed config raw info t (inbound_port raw info) h
