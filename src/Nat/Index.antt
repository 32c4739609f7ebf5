-- ===== src/Nat/Index.antt =====
-- The index of the translated ports agrees with the connections, and every operation keeps it so.
use cs305_2026spring_project.Prelude.{
  ℕ, ◌≡◌, refl, inl, inr, Option, none, some, List, [], ◌∷◌, Text, Bytes, text_eq, nat_beq, arith,
  nat_eq, ◌==◌, ==_iff, Bool-cases, Option-cases,
}
use cs305_2026spring_project.Prelude.Table.{
  Dict, lookup, insert, erase, lookup-insert, lookup-erase,
}
use cs305_2026spring_project.Nat.Table.{
  Conn, Entry, Table, conn_key, create_at, seen, lookup_outbound, lookup_by_key, lookup_inbound,
  key_of, key_eq,
}
use cs305_2026spring_project.Nat.Track.{
  Timeouts, drop_connection, drop_connections, stale_keys, gc_round,
}

-- Every port of the index leads to a connection, and that connection is translated to the port.
abbrev pub IsIndexed : Table → Type 0
IsIndexed t =
    (port : ℕ) (key : Option Conn)
    → lookup port t.port_index ≡ some key
    → (entry : Entry) × (lookup key t.connections ≡ some entry) × (entry.nat_port ≡ port)

-- The same of the two tables apart.
abbrev pub Leads : Dict ℕ (Option Conn) → Dict (Option Conn) Entry → Type 0
Leads index connections =
    (port : ℕ) (key : Option Conn)
    → lookup port index ≡ some key
    → (entry : Entry) × (lookup key connections ≡ some entry) × (entry.nat_port ≡ port)

erase-Leads :
    (key : Option Conn) (entry : Entry) (index : Dict ℕ (Option Conn))
    (d : Dict (Option Conn) Entry)
    → lookup key d ≡ some entry
    → Leads index d
    → Leads (erase entry.nat_port index) (erase key d)
erase-Leads key entry index d e h port k i =
    let below : lookup port index ≡ some k =
      ground (arith, lookup-erase port entry.nat_port index, ==_iff entry.nat_port port) in
    let (entry', f, g) = h port k below in
    (
      entry',
      ground (
        arith,
        lookup-erase port entry.nat_port index,
        ==_iff entry.nat_port port,
        lookup-erase k key d,
        ==_iff key k,
      ),
      g,
    )

drop_connection-IsIndexed :
    (key : Option Conn) (t : Table) → IsIndexed t → IsIndexed (drop_connection key t)
unfolding drop_connection
drop_connection-IsIndexed key t h = elim (Option-cases (lookup key t.connections)) [
  | inl e ↦ rw (e, drop_connection) h
  | inr (entry, e) ↦ rw (e, drop_connection) (erase-Leads key entry t.port_index t.connections e h)
]

drop_connections-IsIndexed :
    (keys : List (Option Conn)) (t : Table) → IsIndexed t → IsIndexed (drop_connections keys t)
unfolding drop_connections
drop_connections-IsIndexed [] t h = h
drop_connections-IsIndexed (key ∷ keys) t h =
    drop_connections-IsIndexed keys (drop_connection key t) (drop_connection-IsIndexed key t h)

-- A round of the garbage collector keeps the index in agreement with the connections.
pub gc_round-IsIndexed :
    (config : Timeouts) (t : Table) → IsIndexed t → IsIndexed (gc_round config t)
unfolding gc_round
gc_round-IsIndexed config t h =
    drop_connections-IsIndexed (stale_keys config t.clock t.connections) t h

insert-Leads :
    (key : Option Conn) (entry : Entry) (index : Dict ℕ (Option Conn))
    (d : Dict (Option Conn) Entry)
    → lookup key d ≡ none
    → Leads index d
    → Leads (insert entry.nat_port key index) (insert key entry d)
insert-Leads key entry index d e h port k i = elim (Bool-cases (entry.nat_port == port)) [
  | inl same ↦
      let at_port : entry.nat_port ≡ port = ground (arith, ==_iff entry.nat_port port) in
      let here : key ≡ k =
        ground (arith, lookup-insert port entry.nat_port key index, ==_iff entry.nat_port port) in
      (entry, ground (arith, lookup-insert k key entry d, ==_iff key k), at_port)
  | inr other ↦
      let below : lookup port index ≡ some k =
        ground (arith, lookup-insert port entry.nat_port key index, ==_iff entry.nat_port port) in
      let (entry', f, g) = h port k below in
      (entry', ground (arith, lookup-insert k key entry d, ==_iff key k), g)
]

-- An entry that takes the place of another one with the same port.
pub insert-Leads_same :
    (key : Option Conn) (old entry : Entry) (index : Dict ℕ (Option Conn))
    (d : Dict (Option Conn) Entry)
    → lookup key d ≡ some old
    → old.nat_port ≡ entry.nat_port
    → Leads index d
    → Leads index (insert key entry d)
insert-Leads_same key old entry index d e same h port k i =
    let (entry', f, g) = h port k i in
    elim (Bool-cases (key == k)) [
      | inl here ↦ (
        entry,
        ground (arith, lookup-insert k key entry d, ==_iff key k),
        ground (arith, ==_iff key k),
      )
      | inr other ↦ (entry', ground (arith, lookup-insert k key entry d, ==_iff key k), g)
    ]

-- A new connection under any port, one that is in use included, keeps the index in agreement with
-- the connections, if there is no connection with its key yet.
pub create_at-IsIndexed :
    (si : Text) (sp : ℕ) (di : Text) (dp proto : ℕ) (ip : Text) (mac : Bytes) (port : ℕ) (t : Table)
    → lookup (conn_key si sp di dp proto) t.connections ≡ none
    → IsIndexed t
    → IsIndexed ((create_at si sp di dp proto ip mac port t).1)
unfolding create_at
create_at-IsIndexed si sp di dp proto ip mac port t e h =
    insert-Leads (conn_key si sp di dp proto) ((create_at si sp di dp proto ip mac port t).0)
      t.port_index t.connections e h

pub lookup_outbound-IsIndexed :
    (si : Text) (sp : ℕ) (di : Text) (dp proto : ℕ) (t : Table)
    → IsIndexed t
    → IsIndexed ((lookup_outbound si sp di dp proto t).1)
unfolding lookup_outbound
lookup_outbound-IsIndexed si sp di dp proto t h =
    let key = conn_key si sp di dp proto in
    elim (Option-cases (lookup key t.connections)) [
      | inl e ↦ rw (e, lookup_outbound) h
      | inr (entry, e) ↦
          rw (e, lookup_outbound)
            (insert-Leads_same key entry (seen t entry) t.port_index t.connections e refl h)
    ]

lookup_by_key-IsIndexed :
    (ip : Text) (key : Option Conn) (t : Table)
    → IsIndexed t
    → IsIndexed ((lookup_by_key ip key t).1)
unfolding lookup_by_key
lookup_by_key-IsIndexed ip key t h = elim (Option-cases (lookup key t.connections)) [
  | inl e ↦ rw (e, lookup_by_key) h
  | inr (entry, e) ↦ elim (Bool-cases (entry.nat_ip == ip)) [
    | inl ours ↦
        rw (e, ours, lookup_by_key)
          (insert-Leads_same key entry (seen t entry) t.port_index t.connections e refl h)
    | inr foreign ↦ rw (e, foreign, lookup_by_key) h
  ]
]

pub lookup_inbound-IsIndexed :
    (ip : Text) (port proto : ℕ) (t : Table)
    → IsIndexed t
    → IsIndexed ((lookup_inbound ip port proto t).1)
unfolding lookup_inbound
lookup_inbound-IsIndexed ip port proto t h =
    elim (Option-cases (key_of (lookup port t.port_index))) [
      | inl e ↦ rw (e, lookup_inbound) h
      | inr (conn, e) ↦ elim (Bool-cases (nat_beq conn.proto proto)) [
        | inl same ↦ rw (e, same, lookup_inbound) (lookup_by_key-IsIndexed ip (some conn) t h)
        | inr other ↦ rw (e, other, lookup_inbound) h
      ]
    ]
