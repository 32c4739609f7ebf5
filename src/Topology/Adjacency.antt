-- ===== src/Topology/Adjacency.antt =====
-- The adjacency that `_update_topology` of controller.py builds, compared with the links.
use mathlib.Core.List.{Memᴰ}
use cs305_2026spring_project.Prelude.{
  ℕ, ◌≡◌, refl, sym, ◌∙◌, subst, ◌⊎◌, inl, inr, ◌&&◌, Option, none, some, List, [], ◌∷◌, nat_eq,
  nat_beq, if◌then◌else◌, Bool-cases, Option-cases, ap, arith, ==_iff,
}
use cs305_2026spring_project.Prelude.Table.{lookup, insert, lookup-insert}
use cs305_2026spring_project.Routing.Graph.{row}
use cs305_2026spring_project.Topology.State.{
  Link, Adjacency, Controller, set_port, add_links, update_topology,
}

-- The port of `u` towards `v` by one link: the end that is set last counts.
unfoldable pub link_port : ℕ → ℕ → Link → Option ℕ
link_port u v l =
    if nat_beq l.dst_dpid u && nat_beq l.src_dpid v
    then some l.dst_port
    else if nat_beq l.src_dpid u && nat_beq l.dst_dpid v
    then some l.src_port
    else none

-- The first of the two that there is.
abbrev pub or_else : Option ℕ → Option ℕ → Option ℕ
or_else (some p) o = some p
or_else none o = o

-- The port of `u` towards `v` by the last link between them.
unfoldable pub last_port : ℕ → ℕ → List Link → Option ℕ
last_port u v [] = none
last_port u v (l ∷ ls) = or_else (last_port u v ls) (link_port u v l)

row-set_port :
    (u v port : ℕ) (adj : Adjacency) (x y : ℕ)
    → lookup y (row (set_port u v port adj) x)
      ≡ (if nat_beq u x && nat_beq v y then some port else lookup y (row adj x))
unfolding row set_port
row-set_port u v port adj x y = ground (
  arith,
  lookup-insert x u (insert v port (row adj u)) adj,
  lookup-insert y v port (row adj u),
  ==_iff u x,
  ==_iff v y,
)

or_else_assoc : (a b o : Option ℕ) → or_else (or_else a b) o ≡ or_else a (or_else b o)
or_else_assoc none b o = refl
or_else_assoc (some p) b o = refl

-- Both assignments for one link.
add_link :
    (l : Link) (adj : Adjacency) (x y : ℕ)
    → lookup y (
        row
          (set_port l.dst_dpid l.src_dpid l.dst_port
            (set_port l.src_dpid l.dst_dpid l.src_port adj))
          x)
      ≡ or_else (link_port x y l) (lookup y (row adj x))
unfolding link_port
add_link l adj x y = ground (
  arith,
  row-set_port l.dst_dpid l.src_dpid l.dst_port (set_port l.src_dpid l.dst_dpid l.src_port adj) x y,
  row-set_port l.src_dpid l.dst_dpid l.src_port adj x y,
)

row-add_links :
    (ls : List Link) (adj : Adjacency) (x y : ℕ)
    → lookup y (row (add_links ls adj) x) ≡ or_else (last_port x y ls) (lookup y (row adj x))
unfolding add_links last_port
row-add_links [] adj x y = refl
row-add_links (l ∷ ls) adj x y =
    let one =
      set_port l.dst_dpid l.src_dpid l.dst_port (set_port l.src_dpid l.dst_dpid l.src_port adj) in
    row-add_links ls one x y
    ∙ ap (or_else (last_port x y ls)) (add_link l adj x y)
    ∙ sym (or_else_assoc (last_port x y ls) (link_port x y l) (lookup y (row adj x)))

-- After _update_topology, the port of a switch towards another is that of the last link between
-- the two.
pub update_topology_lem :
    (c : Controller) (u v : ℕ)
    → lookup v (row (update_topology c).adjacency u) ≡ last_port u v c.links
unfolding update_topology row lookup
update_topology_lem c u v = row-add_links c.links [] u v ∙ or_none (last_port u v c.links)
  where
    or_none : (o : Option ℕ) → or_else o none ≡ o
    or_none none = refl
    or_none (some p) = refl

pub update_topology_current :
    (c : Controller) (u v : ℕ)
    → lookup v (row (update_topology c).adjacency u) ≡ last_port u v (update_topology c).links
unfolding update_topology
update_topology_current c u v = update_topology_lem c u v

-- The link joins the two, either way round.
abbrev pub Joins : ℕ → ℕ → Link → Type 0
Joins u v l = ((l.src_dpid ≡ u) × (l.dst_dpid ≡ v)) ⊎ ((l.dst_dpid ≡ u) × (l.src_dpid ≡ v))

link_port-Joins : (u v : ℕ) (l : Link) {p : ℕ} → link_port u v l ≡ some p → Joins u v l
unfolding link_port
link_port-Joins u v l e = ground arith

-- A port comes from a link.
pub last_port-Joins :
    (u v : ℕ) (ls : List Link) {p : ℕ}
    → last_port u v ls ≡ some p
    → (l : Link) × Memᴰ l ls × Joins u v l
unfolding last_port
last_port-Joins u v [] e = cc
last_port-Joins u v (l ∷ ls) {p} e = elim (Option-cases (last_port u v ls)) [
  | inl none_later ↦ (l, Memᴰ.head refl, link_port-Joins u v l (sym (rw none_later refl) ∙ e))
  | inr (q, later) ↦ let (l', m, joins) = last_port-Joins u v ls later in (l', Memᴰ.tail m, joins)
]

Joins-port : (u v : ℕ) (l : Link) → Joins u v l → (q : ℕ) × (link_port u v l ≡ some q)
unfolding link_port
Joins-port u v l (inr (d, s)) = (l.dst_port, ground arith)
Joins-port u v l (inl (s, d)) = elim (Bool-cases (nat_beq l.dst_dpid u && nat_beq l.src_dpid v)) [
  | inl both ↦ (l.dst_port, rw both refl)
  | inr other ↦ (l.src_port, ground arith)
]

pub Joins-sym : (u v : ℕ) (l : Link) → Joins u v l → Joins v u l
Joins-sym u v l (inl (s, d)) = inr (d, s)
Joins-sym u v l (inr (d, s)) = inl (s, d)

or_else-some : (a : Option ℕ) (q : ℕ) → (r : ℕ) × (or_else a (some q) ≡ some r)
or_else-some none q = (q, refl)
or_else-some (some p) q = (p, refl)

joined_port :
    (u v : ℕ) (ls : List Link) (l : Link)
    → Memᴰ l ls
    → Joins u v l
    → (q : ℕ) × (last_port u v ls ≡ some q)
unfolding last_port
joined_port u v [] l m joins = elim m [ ]
joined_port u v (x ∷ ls) l (Memᴰ.head same) joins =
    let (q, e) = Joins-port u v x (subst (Joins u v) same joins) in
    rw e (or_else-some (last_port u v ls) q)
joined_port u v (x ∷ ls) l (Memᴰ.tail m) joins =
    let (q, e) = joined_port u v ls l m joins in (q, rw e refl)

-- After _update_topology, `u` Has a port towards `v` only if a link joins the two, and then `v` Has
-- one towards `u`.
pub update_topology-IsSymmetric :
    (c : Controller) (u v port : ℕ)
    → lookup v (row (update_topology c).adjacency u) ≡ some port
    → ((l : Link) × Memᴰ l c.links × Joins u v l)
      × ((back : ℕ) × (lookup u (row (update_topology c).adjacency v) ≡ some back))
update_topology-IsSymmetric c u v port e =
    let (l, m, joins) = last_port-Joins u v c.links (sym (update_topology_lem c u v) ∙ e) in
    let (back, e') = joined_port v u c.links l m (Joins-sym u v l joins) in
    ((l, m, joins), (back, update_topology_lem c v u ∙ e'))
