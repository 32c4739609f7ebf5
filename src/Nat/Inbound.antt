-- ===== src/Nat/Inbound.antt =====
-- What comes back to a translated port: the entry that `_create_entry` made, and whose it is.
use cs305_2026spring_project.Prelude.{
  ℕ, ◌≡◌, ◌⊎◌, refl, inl, inr, true, false, none, some, Text, Bytes, nat_beq, arith, nat_eq,
  text_eq, ==_refl, nat_beq_iff, ap, subst, ◌∙◌, Comparable,
}
use cs305_2026spring_project.Prelude.Table.{Dict, lookup, insert, lookup-insert}
use cs305_2026spring_project.Nat.Table.{
  Conn, Entry, Table, proto_icmp, proto_tcp, proto_udp, conn_key, create_at, lookup_by_key,
  lookup_inbound, key_eq, seen,
}

abbrev pub IsKnown : ℕ → Type 0
IsKnown proto = (proto ≡ proto_icmp) ⊎ ((proto ≡ proto_tcp) ⊎ (proto ≡ proto_udp))

-- The key of a connection of TCP, UDP or ICMP.
abbrev pub conn_of : Text → ℕ → Text → ℕ → ℕ → Conn
conn_of si sp di dp proto = record {
  src_ip = si;
  src_port = sp;
  dst_ip = di;
  dst_port = dp;
  proto = proto;
}

conn_key-some :
    (si : Text) (sp : ℕ) (di : Text) (dp proto : ℕ)
    → IsKnown proto
    → conn_key si sp di dp proto ≡ some (conn_of si sp di dp proto)
unfolding conn_key
conn_key-some si sp di dp proto (inl e) = rw (e) refl
conn_key-some si sp di dp proto (inr (inl e)) = rw (e) refl
conn_key-some si sp di dp proto (inr (inr e)) = rw (e) refl

nat_beq_refl : (n : ℕ) → nat_beq n n ≡ true
nat_beq_refl n = ground (arith, nat_beq_iff n n)

lookup_inbound-own :
    (port : ℕ) (t : Table) (conn : Conn) (entry : Entry)
    → lookup port t.port_index ≡ some (some conn)
    → lookup (some conn) t.connections ≡ some entry
    → (lookup_inbound entry.nat_ip port conn.proto t).0 ≡ some (seen t entry)
unfolding lookup_inbound lookup_by_key
lookup_inbound-own port t conn entry e f =
    rw (e, lookup_inbound, nat_beq_refl conn.proto, f, lookup_by_key, ==_refl entry.nat_ip) refl

lookup_inbound-other :
    (ip : Text) (port proto : ℕ) (t : Table) (conn : Conn)
    → lookup port t.port_index ≡ some (some conn)
    → nat_beq conn.proto proto ≡ false
    → lookup_inbound ip port proto t ≡ (none, t)
unfolding lookup_inbound
lookup_inbound-other ip port proto t conn e f = rw (e, lookup_inbound, f) refl

lookup-insert_same {ℓ κ} :
    {K : Type ℓ} {V : Type κ} ⦃eq : Comparable K⦄ (k : K) (v : V) (d : Dict K V)
    → lookup k (insert k v d) ≡ some v
lookup-insert_same k v d = rw (lookup-insert k k v d, ==_refl k) refl

-- After a connection of TCP, UDP or ICMP is created under a port, the inbound lookup for the
-- translated address, port and protocol returns its entry.
pub create_at_inbound :
    (si : Text) (sp : ℕ) (di : Text) (dp proto : ℕ) (ip : Text) (mac : Bytes) (port : ℕ) (t : Table)
    → IsKnown proto
    → (lookup_inbound ip port proto (create_at si sp di dp proto ip mac port t).1).0
      ≡ some (create_at si sp di dp proto ip mac port t).0
unfolding create_at
create_at_inbound si sp di dp proto ip mac port t known =
    let key = conn_key-some si sp di dp proto known in
    lookup_inbound-own port (create_at si sp di dp proto ip mac port t).1
      (conn_of si sp di dp proto) (create_at si sp di dp proto ip mac port t).0
      (subst (λ k. lookup port (create_at si sp di dp proto ip mac port t).1.port_index ≡ some k)
        key (lookup-insert_same port (conn_key si sp di dp proto) t.port_index))
      (subst
        (λ k.
          lookup k (create_at si sp di dp proto ip mac port t).1.connections
          ≡ some (create_at si sp di dp proto ip mac port t).0)
        key
        (lookup-insert_same (conn_key si sp di dp proto)
          (create_at si sp di dp proto ip mac port t).0 t.connections))

-- After an ICMP connection is created under its identifier, the inbound lookup for another
-- protocol finds nothing under that port.
pub icmp_hides :
    (si : Text) (id : ℕ) (di : Text) (ip ip' : Text) (proto : ℕ) (mac : Bytes) (t : Table)
    → ¬ (proto ≡ proto_icmp)
    → (lookup_inbound ip' id proto (create_at si id di 0 proto_icmp ip mac id t).1).0 ≡ none
unfolding create_at
icmp_hides si id di ip ip' proto mac t other =
    let key = conn_key-some si id di 0 proto_icmp (inl refl) in
    ap (λ r. r.0)
      (lookup_inbound-other ip' id proto (create_at si id di 0 proto_icmp ip mac id t).1
        (conn_of si id di 0 proto_icmp)
        (lookup-insert_same id (conn_key si id di 0 proto_icmp) t.port_index ∙ ap some key)
        (ground (arith, nat_beq_iff proto_icmp proto)))
