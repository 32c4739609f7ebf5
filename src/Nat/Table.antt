-- ===== src/Nat/Table.antt =====
-- nat.py, `NATTable`: the connections, the index of the translated ports, and the choice of a port.
pub mod Alloc
use Prim.Native.Nat.{pred}
use cs305_2026spring_project.Prelude.{
  ℕ, zero, suc, ◌+◌, ◌-◌, ◌/◌, ◌%◌, ◌^◌, ◌≡◌, ◌↔◌, refl, Bool, true, false, not, ◌&&◌, ◌||◌, Option,
  none, some, Bytes, Text, List, [], ◌∷◌, ltb, nat_beq, if◌then◌else◌, arith, Comparable, ◌==◌,
  ==_iff, text_beq, text_beq_iff, text_eq, nat_eq,
}
use cs305_2026spring_project.Prelude.Table.{Dict, lookup, insert, erase, contains}

abbrev pub proto_icmp : ℕ
proto_icmp = 1

abbrev pub proto_tcp : ℕ
proto_tcp = 6

abbrev pub proto_udp : ℕ
proto_udp = 17

-- The key of a connection.
pub record Conn : Type 0 where
  pub src_ip : Text
  pub src_port : ℕ
  pub dst_ip : Text
  pub dst_port : ℕ
  pub proto : ℕ

unfoldable pub conn_beq : Conn → Conn → Bool
conn_beq a b =
    text_beq a.src_ip b.src_ip
    && (nat_beq a.src_port b.src_port
        && (text_beq a.dst_ip b.dst_ip
            && (nat_beq a.dst_port b.dst_port && nat_beq a.proto b.proto)))

conn_beq_iff : (a b : Conn) → (conn_beq a b ≡ true) ↔ (a ≡ b)
unfolding conn_beq
conn_beq_iff a b = ground (arith, text_beq_iff a.src_ip b.src_ip, text_beq_iff a.dst_ip b.dst_ip)

-- `_conn_key` returns None for a protocol that is not TCP, UDP or ICMP, and None is a key like others.
unfoldable pub key_beq : Option Conn → Option Conn → Bool
unfolding conn_beq
key_beq none none = true
key_beq none (some b) = false
key_beq (some a) none = false
key_beq (some a) (some b) = conn_beq a b

pub key_beq_iff : (a b : Option Conn) → (key_beq a b ≡ true) ↔ (a ≡ b)
unfolding key_beq
key_beq_iff none none = ground arith
key_beq_iff none (some b) = ground arith
key_beq_iff (some a) none = ground arith
key_beq_iff (some a) (some b) = ground (arith, conn_beq_iff a b)

instance abbrev pub key_eq : Comparable (Option Conn)
key_eq = record { same = key_beq; same_iff = key_beq_iff }

pub data TcpState : Type 0 where
  new established closing : TcpState

pub record Entry : Type 0 where
  pub src_ip : Text
  pub src_port : ℕ
  pub dst_ip : Text
  pub dst_port : ℕ
  pub proto : ℕ
  pub nat_ip : Text
  pub nat_port : ℕ
  pub src_mac : Bytes
  pub state : TcpState
  pub created_at : ℕ
  pub last_seen : ℕ

-- The class variables, and the clock that `time.time()` reads, in whole ticks.
pub record Table : Type 0 where
  pub connections : Dict (Option Conn) Entry
  pub port_index : Dict ℕ (Option Conn)
  pub next_port : ℕ
  pub clock : ℕ

-- `port + 1 if port + 1 < 65535 else 1024`
abbrev pub succ_port : ℕ → ℕ
succ_port port = if ltb (port + 1) 65535 then port + 1 else 1024

-- `while port in cls._port_index`, on fuel: the port, and `_next_port` afterwards.
unfoldable pub alloc_loop : ℕ → ℕ → ℕ → Dict ℕ (Option Conn) → Option (ℕ × ℕ)
alloc_loop zero port next index = none
alloc_loop (suc fuel) port next index = elim (contains port index) [
  | true ↦ alloc_loop fuel next (succ_port next) index
  | false ↦ some (port, next)
]

-- `_alloc_port()`; `none` means that the loop has not ended.
unfoldable pub alloc_port : ℕ → Table → Option (ℕ × Table)
unfolding alloc_loop
alloc_port fuel t = elim (alloc_loop fuel t.next_port (succ_port t.next_port) t.port_index) [
  | none ↦ none
  | some (port, next) ↦ some (port, record t { next_port = next })
]

-- `_conn_key`
unfoldable pub conn_key : Text → ℕ → Text → ℕ → ℕ → Option Conn
conn_key src_ip src_port dst_ip dst_port proto =
    if nat_beq proto proto_tcp || (nat_beq proto proto_udp || nat_beq proto proto_icmp)
    then some (record {
      src_ip = src_ip;
      src_port = src_port;
      dst_ip = dst_ip;
      dst_port = dst_port;
      proto = proto;
    })
    else none

-- The rest of `_create_entry`, once the port is there.
unfoldable pub create_at : Text → ℕ → Text → ℕ → ℕ → Text → Bytes → ℕ → Table → Entry × Table
unfolding conn_key
create_at src_ip src_port dst_ip dst_port proto nat_ip src_mac nat_port t =
    let key = conn_key src_ip src_port dst_ip dst_port proto in
    let entry : Entry = record {
      src_ip = src_ip;
      src_port = src_port;
      dst_ip = dst_ip;
      dst_port = dst_port;
      proto = proto;
      nat_ip = nat_ip;
      nat_port = nat_port;
      src_mac = src_mac;
      state = if nat_beq proto proto_tcp then new else established;
      created_at = t.clock;
      last_seen = t.clock;
    } in
    (
      entry,
      record t {
        connections = insert key entry t.connections;
        port_index = insert nat_port key t.port_index;
      },
    )

-- `_create_entry`, with the port given or allocated.
unfoldable pub create_entry :
    ℕ → Text → ℕ → Text → ℕ → ℕ → Text → Bytes → Option ℕ → Table → Option (Entry × Table)
unfolding create_at alloc_port
create_entry fuel si sp di dp proto nat_ip src_mac (some port) t =
    some (create_at si sp di dp proto nat_ip src_mac port t)
create_entry fuel si sp di dp proto nat_ip src_mac none t = elim (alloc_port fuel t) [
  | none ↦ none
  | some (port, t') ↦ some (create_at si sp di dp proto nat_ip src_mac port t')
]

-- An entry's fields are written in place: under its key.
abbrev pub seen : Table → Entry → Entry
seen t entry = record entry { last_seen = t.clock }

-- `_lookup_outbound`
unfoldable pub lookup_outbound : Text → ℕ → Text → ℕ → ℕ → Table → Option Entry × Table
unfolding conn_key
lookup_outbound src_ip src_port dst_ip dst_port proto t =
    let key = conn_key src_ip src_port dst_ip dst_port proto in
    elim (lookup key t.connections) [
      | none ↦ (none, t)
      | some entry ↦
          (some (seen t entry), record t { connections = insert key (seen t entry) t.connections })
    ]

-- The part of `_lookup_inbound` behind the test of the key.
unfoldable pub lookup_by_key : Text → Option Conn → Table → Option Entry × Table
lookup_by_key nat_ip key t = elim (lookup key t.connections) [
  | none ↦ (none, t)
  | some entry ↦
      if entry.nat_ip == nat_ip
      then (some (seen t entry), record t { connections = insert key (seen t entry) t.connections })
      else (none, t)
]

abbrev pub key_of : Option (Option Conn) → Option Conn
key_of none = none
key_of (some key) = key

-- `_lookup_inbound`: no key and the key None are both false in `if key and key[4] == proto`.
unfoldable pub lookup_inbound : Text → ℕ → ℕ → Table → Option Entry × Table
unfolding lookup_by_key
lookup_inbound nat_ip nat_port proto t = elim (key_of (lookup nat_port t.port_index)) [
  | none ↦ (none, t)
  | some conn ↦ if nat_beq conn.proto proto then lookup_by_key nat_ip (some conn) t else (none, t)
]
