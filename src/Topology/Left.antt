-- ===== src/Topology/Left.antt =====
-- What the handlers of controller.py leave behind when a switch or a port is gone.
use mathlib.Core.List.{Memᴰ}
use cs305_2026spring_project.Prelude.{
  ℕ, ◌≡◌, ap, ◌∙◌, subst, ◌≢◌, inl, inr, none, some, Text, nat_eq, text_eq, arith, ==_iff,
  Option-cases,
}
use cs305_2026spring_project.Prelude.Table.{Dict, lookup, erase, lookup-erase}
use cs305_2026spring_project.Routing.Graph.{row, pair_eq}
use cs305_2026spring_project.Topology.State.{Host, Link, Controller, update_topology}
use cs305_2026spring_project.Topology.Adjacency.{update_topology-IsSymmetric}
use cs305_2026spring_project.Topology.Events.{
  remove_hosts, macs_of, keep_links, drop_switch, lives_at, avoids, purge_mac, handle_switch_delete,
  off_port, sits_at, drop_port_links, drop_port_hosts, port_gone,
}
use cs305_2026spring_project.Topology.Consistent.{
  select_cases, macs_of-Memᴰ, remove_hosts-Alike, remove_hosts-gone,
}

module _ (dpid : ℕ) (c : Controller) where
  abbrev dropped : Controller
  dropped = drop_switch dpid c

  abbrev stripped : Controller
  stripped = remove_hosts purge_mac (macs_of (lives_at dpid) dropped.hosts) dropped

  unregistered : lookup dpid (update_topology (keep_links (avoids dpid) stripped)).switches ≡ none
  unfolding update_topology keep_links drop_switch
  unregistered =
      let (same_switches, same_links, same_adjacency, fewer) =
        remove_hosts-Alike purge_mac (macs_of (lives_at dpid) dropped.hosts) dropped in
      ap (lookup dpid) same_switches
      ∙ ground (arith, lookup-erase dpid dpid c.switches, ==_iff dpid dpid)

  homeless :
      (mac : Text) (h : Host)
      → lookup mac (update_topology (keep_links (avoids dpid) stripped)).hosts ≡ some h
      → h.dpid ≢ dpid
  unfolding update_topology keep_links
  homeless mac h e same =
      let (same_switches, same_links, same_adjacency, fewer) =
        remove_hosts-Alike purge_mac (macs_of (lives_at dpid) dropped.hosts) dropped in
      remove_hosts-gone purge_mac (macs_of (lives_at dpid) dropped.hosts) dropped mac h
        (macs_of-Memᴰ (lives_at dpid) dropped.hosts mac h (fewer mac h e) (ground arith)) e

cut_off :
    (dpid : ℕ) (c : Controller) (l : Link)
    → Memᴰ l (update_topology (keep_links (avoids dpid) c)).links
    → (l.src_dpid ≢ dpid) × (l.dst_dpid ≢ dpid)
unfolding update_topology keep_links
cut_off dpid c l m =
    let (m', kept) = select_cases (avoids dpid) c.links m in (λ e. ground arith, λ e. ground arith)

-- Without a link at `dpid` no switch Has a port towards it.
untied :
    (dpid u : ℕ) (c : Controller)
    → ((l : Link) → Memᴰ l c.links → (l.src_dpid ≢ dpid) × (l.dst_dpid ≢ dpid))
    → lookup dpid (row (update_topology c).adjacency u) ≡ none
untied dpid u c free = elim (Option-cases (lookup dpid (row (update_topology c).adjacency u))) [
  | inl e ↦ e
  | inr (port, e) ↦
      let ((l, m, joins), back) = update_topology-IsSymmetric c u dpid port e in
      let (a, b) = free l m in elim joins [ inl (s, d) ↦ absurd (b d) | inr (d, s) ↦ absurd (a s) ]
]

-- After handle_switch_delete the switch is not registered, no host is at it, no link has an end at
-- it, and no switch has a port towards it.
pub handle_switch_delete_lem :
    (dpid : ℕ) (c : Controller)
    → let c' = (handle_switch_delete dpid c).0 in
      (lookup dpid c'.switches ≡ none)
      × ((mac : Text) (h : Host) → lookup mac c'.hosts ≡ some h → h.dpid ≢ dpid)
      × ((l : Link) → Memᴰ l c'.links → (l.src_dpid ≢ dpid) × (l.dst_dpid ≢ dpid))
      × ((u : ℕ) → lookup dpid (row c'.adjacency u) ≡ none)
unfolding handle_switch_delete update_topology keep_links
handle_switch_delete_lem dpid c =
    let c2 =
      remove_hosts purge_mac (macs_of (lives_at dpid) (drop_switch dpid c).hosts)
        (drop_switch dpid c) in
    (
      unregistered dpid c,
      homeless dpid c,
      λ l m. cut_off dpid c2 l m,
      λ u. untied dpid u (keep_links (avoids dpid) c2) (λ l m. cut_off dpid c2 l m),
    )

-- After the port is gone, no link Has an end at it and no host is at it.
pub port_gone_lem :
    (dpid port : ℕ) (c : Controller)
    → let c' = (port_gone dpid port c).0 in
      ((l : Link)
        → Memᴰ l c'.links
        → ¬ ((l.src_dpid ≡ dpid) × (l.src_port ≡ port))
          × ¬ ((l.dst_dpid ≡ dpid) × (l.dst_port ≡ port)))
      × ((mac : Text) (h : Host)
          → lookup mac c'.hosts ≡ some h
          → ¬ ((h.dpid ≡ dpid) × (h.port ≡ port)))
unfolding port_gone update_topology drop_port_hosts drop_port_links keep_links
port_gone_lem dpid port c =
    let c1 = drop_port_links dpid port c in
    let purge : Text → Dict (ℕ × ℕ) Text → Dict (ℕ × ℕ) Text =
      λ mac entries. erase (dpid, port) entries in
    let macs = macs_of (sits_at dpid port) c1.hosts in
    let (same_switches, same_links, same_adjacency, fewer) = remove_hosts-Alike purge macs c1 in
    (
      λ l m.
          let (m', kept) =
            select_cases (off_port dpid port) c.links (subst (Memᴰ l) same_links m) in
          (λ (d, p). ground arith, λ (d, p). ground arith),
      λ mac h e (d, p).
          remove_hosts-gone purge macs c1 mac h
            (macs_of-Memᴰ (sits_at dpid port) c1.hosts mac h (fewer mac h e) (ground arith)) e,
    )
