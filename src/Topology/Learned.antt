-- ===== src/Topology/Learned.antt =====
-- A probe that is learned keeps the view of the network of controller.py consistent.
use mathlib.Core.List.{Memᴰ}
use mathlib.Core.List.Memᴰ
use mathlib.Core.Option.{some-injective}
use cs305_2026spring_project.Prelude.{
  ℕ, ◌≡◌, refl, ap, sym, ◌∙◌, subst, inl, inr, Bool, Option, none, some, List, [], ◌∷◌, nat_eq,
  text_eq, nat_beq, Bool-cases,
}
use cs305_2026spring_project.Routing.Graph.{pair_eq}
use cs305_2026spring_project.Topology.State.{Link, Controller}
use cs305_2026spring_project.Topology.Probe.{
  same_pair, renew_link, ports_differ, put_first, renew_links, learn_with,
}
use cs305_2026spring_project.Topology.Consistent.{Registered, IsPlaced}
use cs305_2026spring_project.Topology.Kept.{IsConsistent, updated-IsConsistent, added-IsPlaced}

-- A renewed link joins what it did.
abbrev OldEnds : List Link → Link → Type 0
OldEnds ls x = (l : Link) × Memᴰ l ls × (x.src_dpid ≡ l.src_dpid) × (x.dst_dpid ≡ l.dst_dpid)

renew_ends :
    (src src_port local_port : ℕ) (l : Link)
    → ((renew_link src src_port local_port l).src_dpid ≡ l.src_dpid)
      × ((renew_link src src_port local_port l).dst_dpid ≡ l.dst_dpid)
unfolding renew_link
renew_ends src src_port local_port l = elim (Bool-cases (nat_beq l.src_dpid src)) [
  | inl same ↦ rw same (refl, refl)
  | inr other ↦ rw other (refl, refl)
]

older_ends : (l : Link) (ls : List Link) (x : Link) → OldEnds ls x → OldEnds (l ∷ ls) x
older_ends l ls x (y, m, s, d) = (y, Memᴰ.tail m, s, d)

put_first_ends :
    (l : Link) (ls : List Link) (o : Option (List Link × Bool)) {ls' : List Link} {b : Bool}
    → put_first l o ≡ some (ls', b)
    → ((rest : List Link) (b' : Bool)
        → o ≡ some (rest, b')
        → (x : Link) → Memᴰ x rest
        → OldEnds ls x)
    → (x : Link) → Memᴰ x ls'
    → OldEnds (l ∷ ls) x
unfolding put_first
put_first_ends l ls none e old x m = cc
put_first_ends l ls (some (rest, b')) e old x m =
    let same = ap (λ (r : List Link × Bool). r.0) (some-injective _ _ e) in
    elim (Memᴰ.cases_cons (subst (Memᴰ x) (sym same) m)) [
      | inl first ↦ (
        l,
        Memᴰ.head refl,
        ap (λ (y : Link). y.src_dpid) first,
        ap (λ (y : Link). y.dst_dpid) first,
      )
      | inr later ↦ older_ends l ls x (old rest b' refl x later)
    ]

renewed_ends :
    (src src_port local local_port : ℕ) (ls : List Link) {ls' : List Link} {b : Bool}
    → renew_links src src_port local local_port ls ≡ some (ls', b)
    → (x : Link) → Memᴰ x ls'
    → OldEnds ls x
unfolding renew_links
renewed_ends src src_port local local_port [] e x m = cc
renewed_ends src src_port local local_port (l ∷ ls) {ls'} {b} e x m =
    let new = renew_link src src_port local_port l in
    elim (Bool-cases (same_pair src local l)) [
      | inl same ↦
          let e' : some (new ∷ ls, ports_differ l new) ≡ some (ls', b) = sym (rw same refl) ∙ e in
          let m' : Memᴰ x (new ∷ ls) =
            subst (Memᴰ x) (sym (ap (λ (r : List Link × Bool). r.0) (some-injective _ _ e'))) m in
          elim (Memᴰ.cases_cons m') [
            | inl first ↦
                let (s, d) = renew_ends src src_port local_port l in
                (
                  l,
                  Memᴰ.head refl,
                  ap (λ (y : Link). y.src_dpid) first ∙ s,
                  ap (λ (y : Link). y.dst_dpid) first ∙ d,
                )
            | inr later ↦ (x, Memᴰ.tail later, refl, refl)
          ]
      | inr other ↦
          put_first_ends l ls (renew_links src src_port local local_port ls)
            (sym (rw other refl) ∙ e)
            (λ rest b' e'. renewed_ends src src_port local local_port ls e') x m
    ]

pub learned-IsConsistent :
    (src src_port local local_port : ℕ) (c : Controller) (o : Option (List Link × Bool))
    → renew_links src src_port local local_port c.links ≡ o
    → Registered src c
    → Registered local c
    → IsPlaced c
    → IsConsistent (learn_with src src_port local local_port c o).0
unfolding learn_with
learned-IsConsistent src src_port local local_port c none e at_src at_local p =
    updated-IsConsistent _ (added-IsPlaced _ c at_src at_local p)
learned-IsConsistent src src_port local local_port c (some (ls, changed)) e at_src at_local p =
    let placed : IsPlaced (record c { links = ls }) = record {
      joined = λ x m.
          let (l, m', s, d) = renewed_ends src src_port local local_port c.links e x m in
          let (a, b) = p.joined l m' in
          (subst (λ y. Registered y c) (sym s) a, subst (λ y. Registered y c) (sym d) b);
      housed = p.housed;
    } in
    updated-IsConsistent (record c { links = ls }) placed
