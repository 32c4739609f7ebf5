-- ===== src/Routing/Dijkstra/Turn.antt =====
-- One turn of `while pq:` in _dijkstra of controller.py: it does not raise, it keeps the search, and
-- it makes progress.
use mathlib.Core.List.{Memᴰ}
use mathlib.Core.List.Memᴰ
use mathlib.Core.Option.{some-injective}
use mathlib.Core.Logic.{⊎_elim}
use cs305_2026spring_project.Prelude.{
  ℕ, ◌≡◌, refl, ap, sym, ◌∙◌, subst, ◌≢◌, ◌⊎◌, inl, inr, ◌+◌, Bool, true, false, some, List, [],
  ◌∷◌, Bool-cases, arith, nat_eq,
}
use cs305_2026spring_project.Prelude.Table.{lookup}
use cs305_2026spring_project.Routing.Graph.{
  Cost, finite, infinite, Network, Edge, IsClosed, neighbours, edge_weight, Labels,
}
use cs305_2026spring_project.Routing.Relax.{
  Relaxed, kept, lowered, relax_returns, relax-Relaxed, finite-injective,
}
use cs305_2026spring_project.Routing.Tree.{same_cost}
use cs305_2026spring_project.Routing.Measure.{Drops, Drops-trans, lower-Drops}
use cs305_2026spring_project.Routing.Dijkstra.{
  Search, pushed, visit_edge, visit_edges, pop_with, pop_step, is_cost,
}
use cs305_2026spring_project.Routing.Dijkstra.Scan.{Tight, IsSearch, IsScan, visit-IsScan}

-- Nothing Has changed, or a distance is lower.
abbrev pub Progress : Search → Search → Type 0
Progress s s' = (s' ≡ s) ⊎ Drops s.labels.dist s'.labels.dist

Progress-trans : (a b c : Search) → Progress a b → Progress b c → Progress a c
Progress-trans a b c (inl same) q = subst (λ s. Progress s c) same q
Progress-trans a b c (inr drops) (inl same) =
    inr (subst (λ s. Drops a.labels.dist s.labels.dist) (sym same) drops)
Progress-trans a b c (inr drops) (inr more) =
    inr (Drops-trans a.labels.dist b.labels.dist c.labels.dist drops more)

pushed-Progress :
    (u v alt : ℕ) (s : Search) {l' : Labels} {b : Bool}
    → Relaxed u v alt s.labels l' b
    → Progress s (pushed v alt s.pq (l', b))
unfolding pushed
pushed-Progress u v alt s (kept _) = inl refl
pushed-Progress u v alt s (lowered old found less) =
    inr (lower-Drops u v alt old s.labels found less)

module _ {net : Network} {src d u : ℕ} (closed : IsClosed net) where
  visit_edge-IsScan :
      (v : ℕ) (todo : List ℕ) (s : Search)
      → IsScan net src d u (v ∷ todo) s
      → Edge net u v
      → (s' : Search) × (visit_edge net d u v s ≡ some s')
        × IsScan net src d u todo s'
        × Progress s s'
  unfolding visit_edge
  visit_edge-IsScan v todo s i edge =
      let alt = d + edge_weight net u v in
      let v_known = i.tree.known v (closed u v edge) in
      let (l', b, e) = relax_returns u v alt s.labels v_known in
      let r = relax-Relaxed u v alt s.labels e in
      (
        pushed v alt s.pq (l', b),
        (rw e refl),
        visit-IsScan v todo s i edge v_known r,
        pushed-Progress u v alt s r,
      )

  visit_edges-IsScan :
      (todo : List ℕ) (s : Search)
      → IsScan net src d u todo s
      → ((v : ℕ) → Memᴰ v todo → Edge net u v)
      → (s' : Search) × (visit_edges net d u todo s ≡ some s')
        × IsScan net src d u [] s'
        × Progress s s'
  unfolding visit_edges
  visit_edges-IsScan [] s i edges = (s, refl, i, inl refl)
  visit_edges-IsScan (v ∷ todo) s i edges =
      let (s1, e1, i1, p1) = visit_edge-IsScan v todo s i (edges v (Memᴰ.head refl)) in
      let (s2, e2, i2, p2) = visit_edges-IsScan todo s1 i1 (λ w m. edges w (Memᴰ.tail m)) in
      (s2, rw e1 e2, i2, Progress-trans s s1 s2 p1 p2)

  -- After all the edges, the vertex too is settled.
  scanned-IsSearch : (s : Search) → IsScan net src d u [] s → IsSearch net src s
  scanned-IsSearch s i = record {
    tree = i.tree;
    settled =
        λ x k e. elim (i.others x k e) [ inl same ↦ inr (tight_at x k same e) | inr rest ↦ rest ];
    queued = i.queued;
  }
    where
      tight_u : Tight net s.labels.dist u d
      tight_u v edge = ⊎_elim (λ h. h) (λ m. absurd (Memᴰ.not-nil m)) (i.seen v edge)

      tight_at :
          (x k : ℕ) → x ≡ u → lookup x s.labels.dist ≡ some (finite k) → Tight net s.labels.dist x k
      tight_at x k same e =
          subst (λ y. Tight net s.labels.dist y k) (sym same)
            (subst (λ j. Tight net s.labels.dist u j)
              (same_cost i.here (subst (λ y. lookup y s.labels.dist ≡ some (finite k)) same e))
              tight_u)

is_cost_eq : (d : ℕ) (c : Cost) → is_cost d c ≡ true → c ≡ finite d
unfolding is_cost
is_cost_eq d (finite k) h = ap finite (ground arith)
is_cost_eq d infinite h = cc

is_cost_ne : (d : ℕ) (c : Cost) → is_cost d c ≡ false → c ≢ finite d
unfolding is_cost
is_cost_ne d (finite k) h e = ground (arith, finite-injective e)
is_cost_ne d infinite h e = cc

-- The pop of `(d, u)`, which leaves `rest`.
module _ {net : Network} {src : ℕ} (closed : IsClosed net) (d u : ℕ) (rest : List (ℕ × ℕ))
    (l : Labels) (i : IsSearch net src (record { labels = l; pq = (d, u) ∷ rest })) where
  abbrev popped : Search
  popped = record { labels = l; pq = rest }

  begin-IsScan : lookup u l.dist ≡ some (finite d) → IsScan net src d u (neighbours net u) popped
  begin-IsScan found = record {
    tree = i.tree;
    here = found;
    others = λ x k e. elim (i.settled x k e) [
      | inl m ↦
          ⊎_elim (λ e'. inl (ap (λ (p : ℕ × ℕ). p.1) e')) (λ m'. inr (inl m')) (Memᴰ.cases_cons m)
      | inr tight ↦ inr (inr tight)
    ];
    queued = λ x k m. i.queued x k (Memᴰ.tail m);
    seen = λ v edge. inr edge;
  }

  stale-IsSearch : (c : Cost) → lookup u l.dist ≡ some c → c ≢ finite d → IsSearch net src popped
  stale-IsSearch c found other = record {
    tree = i.tree;
    settled = λ x k e. elim (i.settled x k e) [
      | inl m ↦ elim (Memᴰ.cases_cons m) [
        | inl e' ↦ absurd (
            other (
              some-injective _ _
                (sym found ∙ subst (λ (p : ℕ × ℕ). lookup p.1 l.dist ≡ some (finite p.0)) e' e)))
        | inr m' ↦ inl m'
      ]
      | inr tight ↦ inr tight
    ];
    queued = λ x k m. i.queued x k (Memᴰ.tail m);
  }

  -- The turn after the pop goes on, keeps the search, and changes nothing or lowers a distance.
  pub pop_step_lem :
      (s' : Search) × (pop_step net d u popped ≡ some s')
      × IsSearch net src s'
      × ((s' ≡ popped) ⊎ Drops l.dist s'.labels.dist)
  unfolding pop_step pop_with
  pop_step_lem =
      let (c, found) = i.queued u d (Memᴰ.head refl) in
      elim (Bool-cases (is_cost d c)) [
        | inl current ↦
            let here = found ∙ ap some (is_cost_eq d c current) in
            let (s', e, scan, p) =
              visit_edges-IsScan closed (neighbours net u) popped (begin-IsScan here) (λ v m. m) in
            (s', rw (found, current) e, scanned-IsSearch closed s' scan, p)
        | inr stale ↦ (
          popped,
          rw (found, stale) refl,
          stale-IsSearch c found (is_cost_ne d c stale),
          inl refl,
        )
      ]
