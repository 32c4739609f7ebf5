-- ===== src/Topology/Kept.antt =====
-- Every event handler of ControllerApp, controller.py, keeps the links and hosts at registered
-- switches, and the adjacency that of the links.
use mathlib.Core.List.{Memᴰ}
use mathlib.Core.List.Memᴰ
use mathlib.Core.Option.{some-injective}
use cs305_2026spring_project.Prelude.{
  ℕ, ◌≡◌, refl, sym, ◌∙◌, subst, ◌≢◌, inl, inr, Bool, some, List, [], ◌∷◌, ◌++◌, Text, nat_eq,
  text_eq, nat_beq, ◌==◌, Bool-cases, arith,
}
use cs305_2026spring_project.Prelude.Table.{
  Dict, lookup, insert, erase, lookup-insert, lookup-erase,
}
use cs305_2026spring_project.Routing.Graph.{pair_eq}
use cs305_2026spring_project.Topology.State.{Host, Link, Controller, update_topology}
use cs305_2026spring_project.Topology.Events.{
  remove_hosts, macs_of, keep_links, install_table_miss, drop_switch, register, lives_at, avoids,
  purge_mac,
}
use cs305_2026spring_project.Topology.Consistent.{
  Registered, IsPlaced, IsCurrent, select_cases, macs_of-Memᴰ, remove_hosts-Alike,
  remove_hosts-gone,
}

pub record IsConsistent (c : Controller) : Type 0 where
  pub placed : IsPlaced c
  pub current : IsCurrent c

abbrev pub Has : ℕ → Dict ℕ ℕ → Type 0
Has x switches = (d : ℕ) × (lookup x switches ≡ some d)

pub updated-IsConsistent : (c : Controller) → IsPlaced c → IsConsistent (update_topology c)
unfolding update_topology
updated-IsConsistent c p = record {
  placed = record { joined = p.joined; housed = p.housed };
  current = refl;
}

pub kept-IsPlaced :
    (keep : Link → Bool) (c : Controller) → IsPlaced c → IsPlaced (keep_links keep c)
unfolding keep_links
kept-IsPlaced keep c p = record {
  joined = λ l m. p.joined l (select_cases keep c.links m).0;
  housed = p.housed;
}

pub removed-IsPlaced :
    (purge : Text → Dict (ℕ × ℕ) Text → Dict (ℕ × ℕ) Text) (macs : List Text) (c : Controller)
    → IsPlaced c
    → IsPlaced (remove_hosts purge macs c)
removed-IsPlaced purge macs c p =
    let (same_switches, same_links, same_adjacency, fewer) = remove_hosts-Alike purge macs c in
    record {
      joined = λ l m.
          let (a, b) = p.joined l (subst (Memᴰ l) same_links m) in
          (
            subst (Has l.src_dpid) (sym same_switches) a,
            subst (Has l.dst_dpid) (sym same_switches) b,
          );
      housed = λ mac h e. subst (Has h.dpid) (sym same_switches) (p.housed mac h (fewer mac h e));
    }

-- A switch more keeps the others registered.
inserted :
    (x dpid datapath : ℕ) (switches : Dict ℕ ℕ)
    → ((d : ℕ) × (lookup x switches ≡ some d))
    → (d : ℕ) × (lookup x (insert dpid datapath switches) ≡ some d)
inserted x dpid datapath switches (d, e) = elim (Bool-cases (nat_beq dpid x)) [
  | inl here ↦ (datapath, lookup-insert x dpid datapath switches ∙ rw here refl)
  | inr other ↦ (d, lookup-insert x dpid datapath switches ∙ rw other e)
]

pub installed-IsConsistent :
    (dpid datapath : ℕ) (c : Controller)
    → IsConsistent c
    → IsConsistent (install_table_miss dpid datapath c)
unfolding install_table_miss
installed-IsConsistent dpid datapath c i = record {
  placed = record {
    joined = λ l m.
        let (a, b) = i.placed.joined l m in
        (
          inserted l.src_dpid dpid datapath c.switches a,
          inserted l.dst_dpid dpid datapath c.switches b,
        );
    housed = λ mac h e. inserted h.dpid dpid datapath c.switches (i.placed.housed mac h e);
  };
  current = i.current;
}

left_over :
    (x dpid : ℕ) (switches : Dict ℕ ℕ)
    → x ≢ dpid
    → ((d : ℕ) × (lookup x switches ≡ some d))
    → (d : ℕ) × (lookup x (erase dpid switches) ≡ some d)
left_over x dpid switches other (d, e) = (d, ground (arith, lookup-erase x dpid switches))

-- What handle_switch_delete leaves is at the other switches.
pub deleted-IsPlaced :
    (dpid : ℕ) (c : Controller)
    → IsPlaced c
    → IsPlaced (
        keep_links (avoids dpid) (
          remove_hosts purge_mac
            (macs_of (lives_at dpid) (drop_switch dpid c).hosts)
            (drop_switch dpid c)))
unfolding drop_switch keep_links
deleted-IsPlaced dpid c p =
    let c1 = drop_switch dpid c in
    let macs = macs_of (lives_at dpid) c1.hosts in
    let (same_switches, same_links, same_adjacency, fewer) = remove_hosts-Alike purge_mac macs c1 in
    record {
      joined = λ l m.
          let (m', kept) = select_cases (avoids dpid) (remove_hosts purge_mac macs c1).links m in
          let (a, b) = p.joined l (subst (Memᴰ l) same_links m') in
          (
            subst (Has l.src_dpid) (sym same_switches)
                (left_over l.src_dpid dpid c.switches (λ e. ground arith) a),
            subst (Has l.dst_dpid) (sym same_switches)
                (left_over l.dst_dpid dpid c.switches (λ e. ground arith) b),
          );
      housed = λ mac h e.
          let was = fewer mac h e in
          let elsewhere : h.dpid ≢ dpid = λ same.
            remove_hosts-gone purge_mac macs c1 mac h
              (macs_of-Memᴰ (lives_at dpid) c1.hosts mac h was (ground arith)) e in
          subst (Has h.dpid) (sym same_switches)
            (left_over h.dpid dpid c.switches elsewhere (p.housed mac h was));
    }

Registered-at :
    (mac m ip : Text) (dpid port : ℕ) (h : Host) (c : Controller)
    → Registered dpid c
    → IsPlaced c
    → lookup m (insert mac (record { ip = ip; dpid = dpid; port = port }) c.hosts) ≡ some h
    → Registered h.dpid c
Registered-at mac m ip dpid port h c at_dpid p e =
    let new : Host = record { ip = ip; dpid = dpid; port = port } in
    let here = lookup-insert m mac new c.hosts in
    elim (Bool-cases (mac == m)) [
      | inl same ↦
          let is_new : some new ≡ some h = sym (here ∙ rw same refl) ∙ e in
          subst (λ (y : Host). Registered y.dpid c) (some-injective new h is_new) at_dpid
      | inr other ↦ p.housed m h (sym (here ∙ rw other refl) ∙ e)
    ]

pub register-IsConsistent :
    (mac ip : Text) (dpid port : ℕ) (c : Controller)
    → Registered dpid c
    → IsConsistent c
    → IsConsistent (register mac ip dpid port c)
unfolding register
register-IsConsistent mac ip dpid port c at_dpid i = record {
  placed = record {
    joined = i.placed.joined;
    housed = λ m h e. Registered-at mac m ip dpid port h c at_dpid i.placed e;
  };
  current = i.current;
}

pub added-IsPlaced :
    (l : Link) (c : Controller)
    → Registered l.src_dpid c
    → Registered l.dst_dpid c
    → IsPlaced c
    → IsPlaced (record c { links = c.links ++ (l ∷ []) })
added-IsPlaced l c at_src at_dst p = record {
  joined = λ x m. elim (Memᴰ.append_cases c.links m) [
    | inl old ↦ p.joined x old
    | inr new ↦
        let same = Memᴰ.eq_of_singleton new in
        (
          subst (λ (y : Link). Registered y.src_dpid c) (sym same) at_src,
          subst (λ (y : Link). Registered y.dst_dpid c) (sym same) at_dst,
        )
  ];
  housed = p.housed;
}
