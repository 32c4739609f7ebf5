-- ===== src/Nat/Track.antt =====
-- nat.py, `NATTable`: the state of a TCP connection, and one round of the garbage collector.
use cs305_2026spring_project.Prelude.{
  ℕ, ◌-◌, ◌/◌, ◌%◌, Bool, true, false, not, ◌&&◌, Option, none, some, List, [], ◌∷◌, Text, Bytes,
  ltb, nat_beq, if◌then◌else◌, nat_eq,
}
use cs305_2026spring_project.Prelude.Table.{Dict, lookup, insert, erase}
use cs305_2026spring_project.Nat.Table.{
  Conn, Entry, Table, TcpState, new, established, closing, proto_tcp, proto_udp, proto_icmp, key_eq,
  lookup_outbound, create_entry,
}

-- The class variables of `NATConfig` that the table's code reads; the timeouts in whole seconds.
pub record Timeouts : Type 0 where
  pub tcp_timeout : ℕ
  pub udp_timeout : ℕ
  pub icmp_timeout : ℕ

-- The bits of `flags`, as `flags & 0x01` and so on test them.
abbrev pub fin : ℕ → Bool
fin flags = nat_beq (flags % 2) 1

abbrev pub syn : ℕ → Bool
syn flags = nat_beq (flags / 2 % 2) 1

abbrev pub rst : ℕ → Bool
rst flags = nat_beq (flags / 4 % 2) 1

abbrev pub ack : ℕ → Bool
ack flags = nat_beq (flags / 16 % 2) 1

unfoldable pub is_new : TcpState → Bool
is_new new = true
is_new established = false
is_new closing = false

unfoldable pub is_closing : TcpState → Bool
is_closing new = false
is_closing established = false
is_closing closing = true

-- The chain of tests of `_update_tcp_state`, behind that of the protocol.
unfoldable pub next_state : ℕ → TcpState → TcpState
unfolding is_new
next_state flags state =
    if fin flags
    then closing
    else (if rst flags
        then closing
        else (if syn flags && (not (ack flags) && is_new state)
            then state
            else (if syn flags && ack flags
                then established
                else (if ack flags && is_new state then established else state))))

-- `_update_tcp_state`, on the entry it writes.
unfoldable pub update_tcp_state : ℕ → Entry → Entry
unfolding next_state
update_tcp_state flags entry =
    if nat_beq entry.proto proto_tcp
    then record entry { state = next_state flags entry.state }
    else entry

-- `_update_tcp_state(entry, flags)` on the entry that stands in the table under `key`.
unfoldable pub track : Option Conn → ℕ → Table → Table
unfolding update_tcp_state
track key flags t = elim (lookup key t.connections) [
  | none ↦ t
  | some entry ↦ record t { connections = insert key (update_tcp_state flags entry) t.connections }
]

-- What `handle_outbound` does with the result of `_lookup_outbound`: a missing entry is created under
-- the ICMP identifier, or under a port that is allocated.
unfoldable pub or_create :
    ℕ → Text → Text → ℕ → Text → ℕ → ℕ → Bytes → Option Entry × Table → Option (Entry × Table)
unfolding create_entry
or_create fuel external_ip si sp di dp proto mac (some entry, t) = some (entry, t)
or_create fuel external_ip si sp di dp proto mac (none, t) =
    create_entry fuel si sp di dp proto external_ip mac
      (if nat_beq proto proto_icmp then some sp else none) t

-- The entry of an outbound packet, as `handle_outbound` takes it.
unfoldable pub entry_for :
    ℕ → Text → Text → ℕ → Text → ℕ → ℕ → Bytes → Table → Option (Entry × Table)
unfolding lookup_outbound or_create
entry_for fuel external_ip si sp di dp proto mac t =
    or_create fuel external_ip si sp di dp proto mac (lookup_outbound si sp di dp proto t)

unfoldable pub timeout_of : Timeouts → Entry → ℕ
unfolding is_closing
timeout_of config entry =
    if is_closing entry.state
    then 30
    else (if nat_beq entry.proto proto_tcp
        then config.tcp_timeout
        else (if nat_beq entry.proto proto_udp then config.udp_timeout else config.icmp_timeout))

-- `now - entry['last_seen'] > timeout`
unfoldable pub is_stale : Timeouts → ℕ → Entry → Bool
unfolding timeout_of
is_stale config now entry = ltb (timeout_of config entry) (now - entry.last_seen)

-- `to_remove`
unfoldable pub stale_keys : Timeouts → ℕ → Dict (Option Conn) Entry → List (Option Conn)
unfolding is_stale
stale_keys config now [] = []
stale_keys config now ((key, entry) ∷ d) =
    let rest = stale_keys config now d in if is_stale config now entry then key ∷ rest else rest

-- `_connections.pop(key, None)`, and `_port_index.pop` for the entry that comes out.
unfoldable pub drop_connection : Option Conn → Table → Table
drop_connection key t = elim (lookup key t.connections) [
  | none ↦ t
  | some entry ↦ record t {
    connections = erase key t.connections;
    port_index = erase entry.nat_port t.port_index;
  }
]

unfoldable pub drop_connections : List (Option Conn) → Table → Table
unfolding drop_connection
drop_connections [] t = t
drop_connections (key ∷ keys) t = drop_connections keys (drop_connection key t)

-- One round of `_gc`.
unfoldable pub gc_round : Timeouts → Table → Table
unfolding stale_keys drop_connections
gc_round config t = drop_connections (stale_keys config t.clock t.connections) t
