-- ===== src/Nat/Collect.antt =====
-- What a round of the garbage collector does to the connections.
use cs305_2026spring_project.Prelude.{
  ℕ, ◌≡◌, refl, inl, inr, Bool, false, Option, none, some, List, [], ◌∷◌, arith, Bool-cases,
  Option-cases, ==_iff, ◌==◌, if◌then◌else◌, ◌||◌,
}
use cs305_2026spring_project.Prelude.Table.{Dict, IsDict, lookup, lookup-erase}
use cs305_2026spring_project.Nat.Table.{Conn, Entry, Table, key_eq}
use cs305_2026spring_project.Nat.Track.{
  Timeouts, is_stale, stale_keys, drop_connection, drop_connections, gc_round,
}

abbrev member_key : Option Conn → List (Option Conn) → Bool
member_key k [] = false
member_key k (x ∷ xs) = x == k || member_key k xs

lookup-drop_connection :
    (k key : Option Conn) (t : Table)
    → lookup k (drop_connection key t).connections
      ≡ (if key == k then none else lookup k t.connections)
unfolding drop_connection
lookup-drop_connection k key t = elim (Option-cases (lookup key t.connections)) [
  | inl absent ↦ rw (absent, drop_connection) (ground (arith, ==_iff key k))
  | inr (entry, known) ↦
      rw (known, drop_connection) (ground (arith, lookup-erase k key t.connections))
]

lookup-drop_connections :
    (keys : List (Option Conn)) (k : Option Conn) (t : Table)
    → lookup k (drop_connections keys t).connections
      ≡ (if member_key k keys then none else lookup k t.connections)
unfolding drop_connections
lookup-drop_connections [] k t = refl
lookup-drop_connections (key ∷ keys) k t =
    ground (
      arith,
      lookup-drop_connections keys k (drop_connection key t),
      lookup-drop_connection k key t,
    )

member-stale_keys-none :
    (config : Timeouts) (now : ℕ) (d : Dict (Option Conn) Entry) (k : Option Conn)
    → lookup k d ≡ none
    → member_key k (stale_keys config now d) ≡ false
unfolding stale_keys lookup
member-stale_keys-none config now [] k e = refl
member-stale_keys-none config now ((key, i) ∷ d) k e =
    ground (arith, member-stale_keys-none config now d k)

member-stale_keys :
    (config : Timeouts) (now : ℕ) (d : Dict (Option Conn) Entry) (k : Option Conn) (entry : Entry)
    → IsDict d
    → lookup k d ≡ some entry
    → member_key k (stale_keys config now d) ≡ is_stale config now entry
unfolding stale_keys lookup
member-stale_keys config now [] k entry u e = cc
member-stale_keys config now ((key, i) ∷ d) k entry u e = elim (Bool-cases (key == k)) [
  | inl same ↦
      let absent : lookup k d ≡ none = ground (arith, ==_iff key k) in
      ground (arith, member-stale_keys-none config now d k absent)
  | inr other ↦ ground (arith, member-stale_keys config now d k entry u.1)
]

-- A round of the garbage collector removes a connection that was not seen for longer than its
-- timeout and leaves every other connection as it was.
pub gc_round_lem :
    (config : Timeouts) (t : Table) (k : Option Conn) (entry : Entry)
    → IsDict t.connections
    → lookup k t.connections ≡ some entry
    → lookup k (gc_round config t).connections
      ≡ (if is_stale config t.clock entry then none else some entry)
unfolding gc_round
gc_round_lem config t k entry u known = ground (
  arith,
  lookup-drop_connections (stale_keys config t.clock t.connections) k t,
  member-stale_keys config t.clock t.connections k entry u known,
)
