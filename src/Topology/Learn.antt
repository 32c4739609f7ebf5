-- ===== src/Topology/Learn.antt =====
-- What a link probe teaches packet_in_handler of controller.py.
use mathlib.Core.List.{Memᴰ}
use mathlib.Core.Option.{some-injective}
use cs305_2026spring_project.Prelude.{
  ℕ, ◌≡◌, refl, ap, sym, ◌∙◌, subst, ◌≢◌, inl, inr, ◌↔◌, Bool, true, false, Option, none, some,
  List, [], ◌∷◌, ◌++◌, nat_eq, nat_beq, Bool-cases, Option-cases, arith,
}
use cs305_2026spring_project.Prelude.Table.{lookup}
use cs305_2026spring_project.Routing.Graph.{row}
use cs305_2026spring_project.Topology.State.{Link, Controller, update_topology}
use cs305_2026spring_project.Topology.Adjacency.{
  Joins, link_port, last_port, last_port-Joins, Joins-sym, update_topology_current,
}
use cs305_2026spring_project.Topology.Probe.{
  same_pair, renew_link, ports_differ, put_first, renew_links, learn_with, learn_link,
}

-- The test of the loop is whether the link joins the two.
same_pair-Joins : (src local : ℕ) (l : Link) → (same_pair src local l ≡ true) ↔ Joins src local l
unfolding same_pair
same_pair-Joins src local l = (λ e. ground arith, λ j. ground arith)

-- At most one link joins the two.
abbrev pub IsSingle : ℕ → ℕ → List Link → Type 0
IsSingle u v [] = Unit
IsSingle u v (l ∷ ls) = (Joins u v l → (x : Link) → Memᴰ x ls → ¬ Joins u v x) × IsSingle u v ls

no_port :
    (u v : ℕ) (ls : List Link) → ((x : Link) → Memᴰ x ls → ¬ Joins u v x) → last_port u v ls ≡ none
no_port u v ls free = elim (Option-cases (last_port u v ls)) [
  | inl e ↦ e
  | inr (p, e) ↦ let (l, m, joins) = last_port-Joins u v ls e in absurd (free l m joins)
]

-- The ports of one link, from either end.
port_out :
    (u v : ℕ) (l : Link)
    → l.src_dpid ≡ u
    → l.dst_dpid ≡ v
    → u ≢ v
    → (link_port u v l ≡ some l.src_port) × (link_port v u l ≡ some l.dst_port)
unfolding link_port
port_out u v l s d apart = (ground arith, ground arith)

renew_here :
    (src src_port local_port : ℕ) (l : Link)
    → l.src_dpid ≡ src
    → renew_link src src_port local_port l ≡ record l { src_port = src_port; dst_port = local_port }
unfolding renew_link
renew_here src src_port local_port l e =
    let same : nat_beq l.src_dpid src ≡ true = ground arith in rw same refl

renew_there :
    (src src_port local_port : ℕ) (l : Link)
    → l.src_dpid ≢ src
    → renew_link src src_port local_port l ≡ record l { src_port = local_port; dst_port = src_port }
unfolding renew_link
renew_there src src_port local_port l e =
    let other : nat_beq l.src_dpid src ≡ false = ground arith in rw other refl

module _ (src src_port local local_port : ℕ) (apart : src ≢ local) where
  abbrev TaughtOne : Link → Type 0
  TaughtOne x = (link_port src local x ≡ some src_port) × (link_port local src x ≡ some local_port)

  renew_port : (l : Link) → Joins src local l → TaughtOne (renew_link src src_port local_port l)
  renew_port l (inl (s, d)) =
      subst TaughtOne (sym (renew_here src src_port local_port l s))
        (port_out src local (record l { src_port = src_port; dst_port = local_port }) s d apart)
  renew_port l (inr (d, s)) =
      let back = λ (same : local ≡ src). apart (sym same) in
      let (a, b) =
        port_out local src (record l { src_port = local_port; dst_port = src_port }) s d back in
      subst TaughtOne (sym (renew_there src src_port local_port l (λ same. back (sym s ∙ same))))
        (b, a)

  -- The ports of the probe, both ways.
  abbrev pub Taught : List Link → Type 0
  Taught ls = (last_port src local ls ≡ some src_port) × (last_port local src ls ≡ some local_port)

  Taught-first :
      (x : Link) (ls : List Link)
      → TaughtOne x
      → ((y : Link) → Memᴰ y ls → ¬ Joins src local y)
      → Taught (x ∷ ls)
  unfolding last_port
  Taught-first x ls (a, b) free = (
    rw (no_port src local ls free, a) refl,
    rw (no_port local src ls (λ y m j. free y m (Joins-sym local src y j)), b) refl,
  )

  Taught-later : (x : Link) (ls : List Link) → Taught ls → Taught (x ∷ ls)
  unfolding last_port
  Taught-later x ls (a, b) = (rw a refl, rw b refl)

  put_first-Taught :
      (l : Link) (o : Option (List Link × Bool)) {ls' : List Link} {b : Bool}
      → put_first l o ≡ some (ls', b)
      → ((rest : List Link) (b' : Bool) → o ≡ some (rest, b') → Taught rest)
      → Taught ls'
  unfolding put_first
  put_first-Taught l none e old = cc
  put_first-Taught l (some (rest, b')) e old =
      subst Taught (ap (λ (r : List Link × Bool). r.0) (some-injective _ _ e))
        (Taught-later l rest (old rest b' refl))

  renewed-Taught :
      (ls : List Link) {ls' : List Link} {b : Bool}
      → IsSingle src local ls
      → renew_links src src_port local local_port ls ≡ some (ls', b)
      → Taught ls'
  unfolding renew_links
  renewed-Taught [] single e = cc
  renewed-Taught (l ∷ ls) {ls'} {b} (free, single) e =
      let new = renew_link src src_port local_port l in
      elim (Bool-cases (same_pair src local l)) [
        | inl same ↦
            let joins = (same_pair-Joins src local l).0 same in
            let e' : some (new ∷ ls, ports_differ l new) ≡ some (ls', b) = sym (rw same refl) ∙ e in
            subst Taught (ap (λ (r : List Link × Bool). r.0) (some-injective _ _ e'))
              (Taught-first new ls (renew_port l joins) (free joins))
        | inr other ↦
            put_first-Taught l (renew_links src src_port local local_port ls)
              (sym (rw other refl) ∙ e) (λ rest b' e'. renewed-Taught ls single e')
      ]

  last_port-append : (ls : List Link) (x : Link) → TaughtOne x → Taught (ls ++ (x ∷ []))
  unfolding last_port
  last_port-append [] x (a, b) = (a, b)
  last_port-append (l ∷ ls) x t = Taught-later l (ls ++ (x ∷ [])) (last_port-append ls x t)

  learned-Taught :
      (c : Controller) (o : Option (List Link × Bool))
      → renew_links src src_port local local_port c.links ≡ o
      → IsSingle src local c.links
      → Taught (learn_with src src_port local local_port c o).0.links
  unfolding learn_with update_topology
  learned-Taught c none e single =
      let l : Link = record {
        src_dpid = src;
        dst_dpid = local;
        src_port = src_port;
        dst_port = local_port;
      } in
      last_port-append c.links l (port_out src local l refl refl apart)
  learned-Taught c (some (ls, changed)) e single = renewed-Taught c.links single e

learned_current :
    (src src_port local local_port : ℕ) (c : Controller) (o : Option (List Link × Bool)) (u v : ℕ)
    → lookup v (row (learn_with src src_port local local_port c o).0.adjacency u)
      ≡ last_port u v (learn_with src src_port local local_port c o).0.links
unfolding learn_with
learned_current src src_port local local_port c none u v = update_topology_current _ u v
learned_current src src_port local local_port c (some (ls, changed)) u v =
    update_topology_current (record c { links = ls }) u v

-- A probe between two different switches that at most one link joins sets the ports of both
-- towards each other to those of the probe.
pub learn_link_lem :
    (src src_port local local_port : ℕ) (c : Controller)
    → src ≢ local
    → IsSingle src local c.links
    → let c' = (learn_link src src_port local local_port c).0 in
      (lookup local (row c'.adjacency src) ≡ some src_port)
      × (lookup src (row c'.adjacency local) ≡ some local_port)
unfolding learn_link
learn_link_lem src src_port local local_port c apart single =
    let o = renew_links src src_port local local_port c.links in
    let (a, b) = learned-Taught src src_port local local_port apart c o refl single in
    (
      learned_current src src_port local local_port c o src local ∙ a,
      learned_current src src_port local local_port c o local src ∙ b,
    )
