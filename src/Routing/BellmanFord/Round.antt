-- ===== src/Routing/BellmanFord/Round.antt =====
-- One round of _bellman_ford of controller.py: it does not raise, and it carries every distance over
-- one more edge.
use mathlib.Core.List.{Memᴰ}
use mathlib.Core.List.Memᴰ
use cs305_2026spring_project.Prelude.{
  ℕ, ◌≡◌, refl, sym, ◌∙◌, subst, inl, inr, ◌+◌, ◌≤◌, Bool, true, false, ◌||◌, some, List, [], ◌∷◌,
  arith, nat_eq,
}
use cs305_2026spring_project.Prelude.Table.{lookup}
use cs305_2026spring_project.Routing.Graph.{
  Cost, finite, infinite, Network, Edge, IsClosed, neighbours, edge_weight, Labels,
}
use cs305_2026spring_project.Routing.Walk.{AtMost, AtMost-le}
use cs305_2026spring_project.Routing.Relax.{
  Relaxed, kept, lowered, relax_returns, relax-Relaxed, relax_at, relax_AtMost,
}
use cs305_2026spring_project.Routing.Tree.{IsTree, relax-IsTree}
use cs305_2026spring_project.Routing.BellmanFord.{Pass, edge_with, edges, vertex_with, vertices}

-- A part of a round: the distances only go down, and without an update nothing changes.
pub record Goes (net : Network) (src : ℕ) (p p' : Pass) : Type 0 where
  pub tree : IsTree net src p'.0
  pub looser : (x n : ℕ) → AtMost (lookup x p.0.dist) n → AtMost (lookup x p'.0.dist) n
  pub quiet : p'.1 ≡ false → (p.1 ≡ false) × (p'.0 ≡ p.0)

-- What was at most `n` at `u` before is at most `n` and the weight at `v` after.
abbrev pub Carries : Network → ℕ → ℕ → Pass → Pass → Type 0
Carries net u v p p' =
    (n : ℕ) → AtMost (lookup u p.0.dist) n → AtMost (lookup v p'.0.dist) (n + edge_weight net u v)

Relaxed-quiet :
    (u v alt : ℕ) (l : Labels) (updated : Bool) {l' : Labels} {b : Bool}
    → Relaxed u v alt l l' b
    → (updated || b) ≡ false
    → (updated ≡ false) × (l' ≡ l)
Relaxed-quiet u v alt l updated (kept _) e = (ground arith, refl)
Relaxed-quiet u v alt l true (lowered old found less) e = cc
Relaxed-quiet u v alt l false (lowered old found less) e = cc

module _ {net : Network} {src : ℕ} (closed : IsClosed net) where
  Goes-refl : (p : Pass) → IsTree net src p.0 → Goes net src p p
  Goes-refl p t = record { tree = t; looser = λ x n h. h; quiet = λ e. (e, refl) }

  Goes-trans : (p q r : Pass) → Goes net src p q → Goes net src q r → Goes net src p r
  Goes-trans p q r g h = record {
    tree = h.tree;
    looser = λ x n a. h.looser x n (g.looser x n a);
    quiet = λ e. let (e', same') = h.quiet e in let (e'', same) = g.quiet e' in (e'', same' ∙ same);
  }

  Relaxed-Goes :
      (u v k : ℕ) (l : Labels) (updated : Bool) {l' : Labels} {b : Bool}
      → IsTree net src l
      → lookup u l.dist ≡ some (finite k)
      → Edge net u v
      → Relaxed u v (k + edge_weight net u v) l l' b
      → Goes net src (l, updated) (l', updated || b)
  Relaxed-Goes u v k l updated {l'} {b} t u_is edge r = record {
    tree = relax-IsTree u v k t u_is edge r;
    looser = relax_AtMost u v (k + edge_weight net u v) l r;
    quiet = Relaxed-quiet u v (k + edge_weight net u v) l updated r;
  }

  edge_lem :
      (u v : ℕ) (p : Pass)
      → IsTree net src p.0
      → Edge net u v
      → (c : Cost) → lookup u p.0.dist ≡ some c
      → (p' : Pass) × (edge_with net u v p (lookup u p.0.dist) ≡ some p')
        × Goes net src p p'
        × Carries net u v p p'
  unfolding edge_with
  edge_lem u v p t edge infinite u_is =
      (p, rw u_is refl, Goes-refl p t, λ n h. absurd (subst (λ o. AtMost o n) u_is h))
  edge_lem u v (l, updated) t edge (finite k) u_is =
      let alt = k + edge_weight net u v in
      let (l', b, e) = relax_returns u v alt l (t.known v (closed u v edge)) in
      let r = relax-Relaxed u v alt l e in
      (
        (l', updated || b),
        rw (u_is, e) refl,
        Relaxed-Goes u v k l updated t u_is edge r,
        λ n h.
            AtMost-le (lookup v l'.dist) alt (n + edge_weight net u v) (relax_at u v alt l r)
              (omega (arith, at_most k n u_is h)),
      )
    where
      at_most : (j n : ℕ) → lookup u l.dist ≡ some (finite j) → AtMost (lookup u l.dist) n → j ≤ n
      at_most j n is h = subst (λ o. AtMost o n) is h

  edges_lem :
      (u : ℕ) (vs : List ℕ) (p : Pass)
      → IsTree net src p.0
      → ((v : ℕ) → Memᴰ v vs → Edge net u v)
      → Memᴰ u net.switches
      → (p' : Pass) × (edges net u vs p ≡ some p')
        × Goes net src p p'
        × ((v : ℕ) → Memᴰ v vs → Carries net u v p p')
  unfolding edges
  edges_lem u [] p t are_edges u_in = (p, refl, Goes-refl p t, λ v m. absurd (Memᴰ.not-nil m))
  edges_lem u (v ∷ vs) p t are_edges u_in =
      let (c, u_is) = t.known u u_in in
      let (p1, e1, g1, carries1) = edge_lem u v p t (are_edges v (Memᴰ.head refl)) c u_is in
      let (p2, e2, g2, carries2) =
        edges_lem u vs p1 g1.tree (λ w m. are_edges w (Memᴰ.tail m)) u_in in
      (
        p2,
        rw (e1, edges) e2,
        Goes-trans p p1 p2 g1 g2,
        λ w m n h. elim (Memᴰ.cases_cons m) [
          | inl same ↦
              subst (λ w'. AtMost (lookup w' p2.0.dist) (n + edge_weight net u w')) (sym same)
                (g2.looser v (n + edge_weight net u v) (carries1 n h))
          | inr later ↦ carries2 w later n (g1.looser u n h)
        ],
      )

  vertex_lem :
      (u : ℕ) (p : Pass)
      → IsTree net src p.0
      → Memᴰ u net.switches
      → (c : Cost) → lookup u p.0.dist ≡ some c
      → (p' : Pass) × (vertex_with net u p (lookup u p.0.dist) ≡ some p')
        × Goes net src p p'
        × ((v : ℕ) → Edge net u v → Carries net u v p p')
  unfolding vertex_with
  vertex_lem u p t u_in infinite u_is =
      (p, rw u_is refl, Goes-refl p t, λ v edge n h. absurd (subst (λ o. AtMost o n) u_is h))
  vertex_lem u p t u_in (finite k) u_is =
      let (p', e, g, carries) = edges_lem u (neighbours net u) p t (λ v m. m) u_in in
      (p', rw u_is e, g, carries)

  -- A round of all the switches does not raise, and carries every distance over every edge.
  pub vertices_lem :
      (us : List ℕ) (p : Pass)
      → IsTree net src p.0
      → ((u : ℕ) → Memᴰ u us → Memᴰ u net.switches)
      → (p' : Pass) × (vertices net us p ≡ some p')
        × Goes net src p p'
        × ((u v : ℕ) → Memᴰ u us → Edge net u v → Carries net u v p p')
  unfolding vertices
  vertices_lem [] p t all_in = (p, refl, Goes-refl p t, λ u v m. absurd (Memᴰ.not-nil m))
  vertices_lem (u ∷ us) p t all_in =
      let u_in = all_in u (Memᴰ.head refl) in
      let (c, u_is) = t.known u u_in in
      let (p1, e1, g1, carries1) = vertex_lem u p t u_in c u_is in
      let (p2, e2, g2, carries2) = vertices_lem us p1 g1.tree (λ w m. all_in w (Memᴰ.tail m)) in
      (
        p2,
        rw (e1, vertices) e2,
        Goes-trans p p1 p2 g1 g2,
        λ w v m edge n h. elim (Memᴰ.cases_cons m) [
          | inl same ↦
              subst
                (λ y.
                  Edge net y v
                  → AtMost (lookup y p.0.dist) n
                  → AtMost (lookup v p2.0.dist) (n + edge_weight net y v))
                (sym same)
                (λ edge' h'. g2.looser v (n + edge_weight net u v) (carries1 v edge' n h')) edge h
          | inr later ↦ carries2 w v later edge n (g1.looser w n h)
        ],
      )
