-- ===== src/Routing/BellmanFord/Correct.antt =====
-- The rounds of _bellman_ford of controller.py are enough, and it finds the distances of _dijkstra.
use mathlib.Core.List.{Memᴰ}
use cs305_2026spring_project.Prelude.{
  ℕ, zero, suc, ◌≡◌, refl, sym, ◌∙◌, subst, ap, inl, inr, ◌+◌, ◌-◌, ◌≤◌, Bool, true, false, Option,
  some, length, Bool-cases, arith, nat_eq,
}
use cs305_2026spring_project.Prelude.Table.{lookup}
use cs305_2026spring_project.Routing.Graph.{Network, Edge, IsClosed, Labels}
use cs305_2026spring_project.Routing.Walk.{Walk, AtMost, AtMost-le, IsShortest}
use cs305_2026spring_project.Routing.Tree.{IsTree}
use cs305_2026spring_project.Routing.Start.{first_labels, first-IsTree}
use cs305_2026spring_project.Routing.Simple.{short-Walk}
use cs305_2026spring_project.Routing.BellmanFord.{Pass, unless_done, rounds, bellman_ford}
use cs305_2026spring_project.Routing.BellmanFord.Round.{Goes, Carries, vertices_lem}

unless_done_on :
    (next : Labels → Option Labels) (l : Labels) (b : Bool)
    → b ≡ true
    → unless_done next (l, b) ≡ next l
unfolding unless_done
unless_done_on next l true e = refl
unless_done_on next l false e = cc

unless_done_stop :
    (next : Labels → Option Labels) (l : Labels) (b : Bool)
    → b ≡ false
    → unless_done next (l, b) ≡ some l
unfolding unless_done
unless_done_stop next l true e = cc
unless_done_stop next l false e = refl

module _ (net : Network) (src : ℕ) where
  -- The distances account for the walks of at most `i` edges.
  abbrev pub Covers : ℕ → Labels → Type 0
  Covers i l = (j v n : ℕ) → j ≤ i → Walk net src j v n → AtMost (lookup v l.dist) n

  walk_in :
      IsClosed net → Memᴰ src net.switches → (j v n : ℕ) → Walk net src j v n → Memᴰ v net.switches
  walk_in closed src_in zero v n (here, nothing) =
      subst (λ x. Memᴰ x net.switches) (sym here) src_in
  walk_in closed src_in (suc j) v n (u, m, walk, edge, sum) = closed u v edge

  first-Covers : Covers 0 (first_labels net src)
  first-Covers zero v n le (here, nothing) =
      subst (λ x. AtMost (lookup x (first_labels net src).dist) n) (sym here)
        (rw (first-IsTree net src).origin (omega arith))
  first-Covers (suc j) v n le walk = absurd (omega arith)

  round-Covers :
      IsClosed net
      → Memᴰ src net.switches
      → (i : ℕ) (p p' : Pass) → Goes net src p p'
      → ((u v : ℕ) → Memᴰ u net.switches → Edge net u v → Carries net u v p p')
      → Covers i p.0
      → Covers (suc i) p'.0
  round-Covers closed src_in i p p' g carries covers zero v n le walk =
      g.looser v n (covers zero v n (omega arith) walk)
  round-Covers closed src_in i p p' g carries covers (suc j) v n le (u, m, walk, edge, sum) =
      subst (λ w. AtMost (lookup v p'.0.dist) w) (sym sum)
        (carries u v (walk_in closed src_in j u m walk) edge m (covers j u m (omega arith) walk))

  -- A round without an update would go on for ever without one.
  fixed-Covers :
      (l : Labels)
      → ((i : ℕ) → Covers i l → Covers (suc i) l)
      → (n i : ℕ) → Covers i l
      → Covers (i + n) l
  fixed-Covers l again zero i covers = λ j v n le. covers j v n (omega arith)
  fixed-Covers l again (suc n) i covers =
      λ j v w le. fixed-Covers l again n (suc i) (again i covers) j v w (omega arith)

  -- What the rounds end with.
  abbrev pub Ends : Option Labels → ℕ → Type 0
  Ends o i = (l : Labels) × (o ≡ some l) × IsTree net src l × Covers i l

  rounds_lem :
      IsClosed net
      → Memᴰ src net.switches
      → (n i : ℕ) (l : Labels) → IsTree net src l
      → Covers i l
      → Ends (rounds n net l) (i + n)
  unfolding rounds
  rounds_lem closed src_in zero i l t covers = (l, refl, t, λ j v n le. covers j v n (omega arith))
  rounds_lem closed src_in (suc n) i l t covers =
      let ((l', updated), e, g, carries) =
        vertices_lem closed net.switches (l, false) t (λ u m. m) in
      elim (Bool-cases updated) [
        | inl again ↦
            let (l2, e2, t2, covers2) =
              rounds_lem closed src_in n (suc i) l' g.tree
                (round-Covers closed src_in i (l, false) (l', updated) g carries covers) in
            (
              l2,
              rw e (unless_done_on (rounds n net) l' updated again ∙ e2),
              t2,
              λ j v w le. covers2 j v w (omega arith),
            )
        | inr done ↦
            let same = (g.quiet done).1 in
            (
              l,
              rw e (unless_done_stop (rounds n net) l' updated done ∙ ap some same),
              t,
              fixed-Covers l
                  (λ k c.
                    subst (Covers (suc k)) same
                      (round-Covers closed src_in k (l, false) (l', updated) g carries c))
                  (suc n) i covers,
            )
      ]

  pub bellman_ford-IsTree :
      IsClosed net
      → Memᴰ src net.switches
      → (l : Labels) × (bellman_ford net src ≡ some l)
        × IsTree net src l
        × Covers (length net.switches - 1) l
  unfolding bellman_ford
  bellman_ford-IsTree closed src_in =
      let (l, e, t, covers) =
        rounds_lem closed src_in (length net.switches - 1) 0 (first_labels net src)
          (first-IsTree net src) first-Covers in
      (l, e, t, λ j v n le. covers j v n (omega arith))

pub bellman_ford-IsShortest-IsTree :
    (net : Network) (src : ℕ)
    → IsClosed net
    → Memᴰ src net.switches
    → (l : Labels) × (bellman_ford net src ≡ some l) × IsTree net src l × IsShortest net src l.dist
bellman_ford-IsShortest-IsTree net src closed src_in =
    let (l, e, t, covers) = bellman_ford-IsTree net src closed src_in in
    let shortest : IsShortest net src l.dist = record {
      attained = t.sound;
      least = λ i v n walk.
          let (j, m, walk', le, few) = short-Walk net src closed src_in i v n walk in
          AtMost-le (lookup v l.dist) m n (covers j v m few walk') le;
    } in
    (l, e, t, shortest)

-- From a registered switch, when every link leads to one, _bellman_ford returns after its rounds, and
-- its distances are finite exactly where a walk leads, and the least weights of the walks.
pub bellman_ford-IsShortest :
    (net : Network) (src : ℕ)
    → IsClosed net
    → Memᴰ src net.switches
    → (l : Labels) × (bellman_ford net src ≡ some l) × IsShortest net src l.dist
bellman_ford-IsShortest net src closed src_in =
    let (l, e, t, s) = bellman_ford-IsShortest-IsTree net src closed src_in in (l, e, s)
