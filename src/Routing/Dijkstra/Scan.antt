-- ===== src/Routing/Dijkstra/Scan.antt =====
-- What the loop over `self.adjacency[u]` in _dijkstra of controller.py keeps.
use mathlib.Core.List.{Memᴰ}
use mathlib.Core.List.Memᴰ
use mathlib.Core.Logic.{⊎_elim}
use cs305_2026spring_project.Prelude.{
  ℕ, ◌≡◌, refl, ap, sym, subst, ◌⊎◌, inl, inr, ◌+◌, Bool, true, false, some, List, [], ◌∷◌,
  Bool-cases, arith, nat_eq,
}
use cs305_2026spring_project.Prelude.Table.{Dict, lookup}
use cs305_2026spring_project.Routing.Graph.{Cost, finite, Network, Edge, edge_weight, Labels}
use cs305_2026spring_project.Routing.Walk.{AtMost}
use cs305_2026spring_project.Routing.Relax.{
  Relaxed, Known, relax-Known, relax_at, relax_AtMost, relax_finite, relax_keeps,
}
use cs305_2026spring_project.Routing.Tree.{IsTree, relax-IsTree}
use cs305_2026spring_project.Routing.Dijkstra.{Search, entry_before, heappush, pushed}

-- Every edge out of `x` leads to a distance of at most `k` and its weight.
abbrev pub Tight : Network → Dict ℕ Cost → ℕ → ℕ → Type 0
Tight net dist x k = (v : ℕ) → Edge net x v → AtMost (lookup v dist) (k + edge_weight net x v)

-- The search between two turns: what is labelled is queued or relaxed.
pub record IsSearch (net : Network) (src : ℕ) (s : Search) : Type 0 where
  pub tree : IsTree net src s.labels
  pub settled :
      (x k : ℕ)
      → lookup x s.labels.dist ≡ some (finite k)
      → Memᴰ (k, x) s.pq ⊎ Tight net s.labels.dist x k
  pub queued : (x k : ℕ) → Memᴰ (k, x) s.pq → Known s.labels.dist x

-- The search within a turn for `u`, with the edges to `todo` left.
pub record IsScan (net : Network) (src d u : ℕ) (todo : List ℕ) (s : Search) : Type 0 where
  pub tree : IsTree net src s.labels
  pub here : lookup u s.labels.dist ≡ some (finite d)
  pub others :
      (x k : ℕ)
      → lookup x s.labels.dist ≡ some (finite k)
      → (x ≡ u) ⊎ (Memᴰ (k, x) s.pq ⊎ Tight net s.labels.dist x k)
  pub queued : (x k : ℕ) → Memᴰ (k, x) s.pq → Known s.labels.dist x
  pub seen :
      (v : ℕ)
      → Edge net u v
      → AtMost (lookup v s.labels.dist) (d + edge_weight net u v) ⊎ Memᴰ v todo

Memᴰ-heappush : (entry top : ℕ × ℕ) (q : List (ℕ × ℕ)) → Memᴰ entry q → Memᴰ entry (heappush top q)
unfolding heappush
Memᴰ-heappush entry top [] h = elim h [ ]
Memᴰ-heappush entry top (p ∷ rest) h = elim (Bool-cases (entry_before top p)) [
  | inl first ↦ rw first (Memᴰ.tail h)
  | inr later ↦
      rw later
        (⊎_elim Memᴰ.head (λ m. Memᴰ.tail (Memᴰ-heappush entry top rest m)) (Memᴰ.cases_cons h))
]

heappush-Memᴰ : (top : ℕ × ℕ) (q : List (ℕ × ℕ)) → Memᴰ top (heappush top q)
unfolding heappush
heappush-Memᴰ top [] = Memᴰ.head refl
heappush-Memᴰ top (p ∷ rest) = elim (Bool-cases (entry_before top p)) [
  | inl first ↦ rw first (Memᴰ.head refl)
  | inr later ↦ rw later (Memᴰ.tail (heappush-Memᴰ top rest))
]

heappush_cases :
    (entry top : ℕ × ℕ) (q : List (ℕ × ℕ))
    → Memᴰ entry (heappush top q)
    → (entry ≡ top) ⊎ Memᴰ entry q
unfolding heappush
heappush_cases entry top [] m = inl (Memᴰ.eq_of_singleton m)
heappush_cases entry top (p ∷ rest) m = elim (Bool-cases (entry_before top p)) [
  | inl first ↦ Memᴰ.cases_cons (subst (Memᴰ entry) (rw first refl) m)
  | inr later ↦
      ⊎_elim (λ e. inr (Memᴰ.head e))
        (λ n. ⊎_elim inl (λ r. inr (Memᴰ.tail r)) (heappush_cases entry top rest n))
        (Memᴰ.cases_cons (subst (Memᴰ entry) (rw later refl) m))
]

pushed_labels :
    (v alt : ℕ) (q : List (ℕ × ℕ)) (l : Labels) (b : Bool) → (pushed v alt q (l, b)).labels ≡ l
unfolding pushed
pushed_labels v alt q l true = refl
pushed_labels v alt q l false = refl

pushed_keeps :
    (v alt : ℕ) (q : List (ℕ × ℕ)) (l : Labels) (b : Bool) (entry : ℕ × ℕ)
    → Memᴰ entry q
    → Memᴰ entry (pushed v alt q (l, b)).pq
unfolding pushed
pushed_keeps v alt q l true entry m = Memᴰ-heappush entry (alt, v) q m
pushed_keeps v alt q l false entry m = m

pushed_new :
    (v alt : ℕ) (q : List (ℕ × ℕ)) (l : Labels) (b : Bool) {entry : ℕ × ℕ}
    → b ≡ true
    → entry ≡ (alt, v)
    → Memᴰ entry (pushed v alt q (l, b)).pq
unfolding pushed
pushed_new v alt q l true did e = Memᴰ.cast e (heappush-Memᴰ (alt, v) q)
pushed_new v alt q l false did e = cc

pushed_cases :
    (v alt : ℕ) (q : List (ℕ × ℕ)) (l : Labels) (b : Bool) (x k : ℕ)
    → Memᴰ (k, x) (pushed v alt q (l, b)).pq
    → (x ≡ v) ⊎ Memᴰ (k, x) q
unfolding pushed
pushed_cases v alt q l true x k m =
    ⊎_elim (λ e. inl (ap (λ (p : ℕ × ℕ). p.1) e)) inr (heappush_cases (k, x) (alt, v) q m)
pushed_cases v alt q l false x k m = inr m

entry_eq : {x v k alt : ℕ} → x ≡ v → k ≡ alt → ◌≡◌ {A = ℕ × ℕ} (k, x) (alt, v)
entry_eq same new = cc

-- The visit of one edge.
module _ {net : Network} {src d u : ℕ} (v : ℕ) (todo : List ℕ) (s : Search)
    (i : IsScan net src d u (v ∷ todo) s) (edge : Edge net u v) (v_known : Known s.labels.dist v)
    {l' : Labels} {b : Bool} (r : Relaxed u v (d + edge_weight net u v) s.labels l' b) where
  abbrev pub alt : ℕ
  alt = d + edge_weight net u v

  abbrev pub s' : Search
  s' = pushed v alt s.pq (l', b)

  looser : (x n : ℕ) → AtMost (lookup x s.labels.dist) n → AtMost (lookup x l'.dist) n
  looser = relax_AtMost u v alt s.labels r

  visit_here : lookup u l'.dist ≡ some (finite d)
  visit_here = relax_keeps u v alt s.labels r u d i.here (omega arith)

  visit_others :
      (x k : ℕ)
      → lookup x l'.dist ≡ some (finite k)
      → (x ≡ u) ⊎ (Memᴰ (k, x) s'.pq ⊎ Tight net l'.dist x k)
  visit_others x k e = elim (relax_finite u v alt s.labels r x k e) [
    | inl as_was ↦ elim (i.others x k as_was) [
      | inl same ↦ inl same
      | inr (inl m) ↦ inr (inl (pushed_keeps v alt s.pq l' b (k, x) m))
      | inr (inr tight) ↦
          inr (inr (λ w edge_w. looser w (k + edge_weight net x w) (tight w edge_w)))
    ]
    | inr (did, same, new) ↦ inr (inl (pushed_new v alt s.pq l' b did (entry_eq same new)))
  ]

  visit_seen :
      (w : ℕ) → Edge net u w → AtMost (lookup w l'.dist) (d + edge_weight net u w) ⊎ Memᴰ w todo
  visit_seen w edge_w = elim (i.seen w edge_w) [
    | inl h ↦ inl (looser w (d + edge_weight net u w) h)
    | inr m ↦ elim (Memᴰ.cases_cons m) [
      | inl same ↦ inl (
          subst (λ w'. AtMost (lookup w' l'.dist) (d + edge_weight net u w')) (sym same)
            (relax_at u v alt s.labels r))
      | inr later ↦ inr later
    ]
  ]

  visit_queued : (x k : ℕ) → Memᴰ (k, x) s'.pq → Known l'.dist x
  visit_queued x k m = relax-Known u v alt s.labels r x (
      ⊎_elim (λ same. subst (Known s.labels.dist) (sym same) v_known) (i.queued x k)
        (pushed_cases v alt s.pq l' b x k m))

  pub visit-IsScan : IsScan net src d u todo (pushed v alt s.pq (l', b))
  visit-IsScan = rw (pushed_labels v alt s.pq l' b) record {
    tree = relax-IsTree u v d i.tree i.here edge r;
    here = visit_here;
    others = visit_others;
    queued = visit_queued;
    seen = visit_seen;
  }
