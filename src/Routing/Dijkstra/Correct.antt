-- ===== src/Routing/Dijkstra/Correct.antt =====
-- _dijkstra of controller.py ends, and its distances are those of the shortest walks.
use mathlib.Core.List.{Memᴰ}
use mathlib.Core.List.Memᴰ
use mathlib.Core.Logic.{⊎_elim}
use native.Mathlib.Nat.{suc-add}
use cs305_2026spring_project.Prelude.{
  ℕ, zero, suc, ◌≡◌, refl, ap, sym, subst, inl, ◌+◌, ◌<◌, some, List, [], ◌∷◌, arith, nat_eq,
}
use cs305_2026spring_project.Prelude.Table.{lookup}
use cs305_2026spring_project.Routing.Graph.{finite, Network, IsClosed, edge_weight, Labels}
use cs305_2026spring_project.Routing.Walk.{Walk, AtMost, AtMost-le, IsShortest}
use cs305_2026spring_project.Routing.Tree.{IsTree, AtMost_finite}
use cs305_2026spring_project.Routing.Start.{first_labels, first-IsTree, first_finite}
use cs305_2026spring_project.Routing.Measure.{Drops, unreached, total}
use cs305_2026spring_project.Routing.Dijkstra.{
  Search, SearchResult, returned, raised, running, turn, turn_with, resumed, go_on, search_loop,
  dijkstra,
}
use cs305_2026spring_project.Routing.Dijkstra.Scan.{Tight, IsSearch}
use cs305_2026spring_project.Routing.Dijkstra.Turn.{pop_step_lem}

-- Labels from which nothing can be lowered.
pub record IsFinal (net : Network) (src : ℕ) (l : Labels) : Type 0 where
  pub tree : IsTree net src l
  pub tight : (x k : ℕ) → lookup x l.dist ≡ some (finite k) → Tight net l.dist x k

final-least :
    {net : Network} {src : ℕ} {l : Labels}
    → IsFinal net src l
    → (i v n : ℕ) → Walk net src i v n
    → AtMost (lookup v l.dist) n
final-least {net} {src} {l} f zero v n (here, nothing) =
    subst (λ x. AtMost (lookup x l.dist) n) (sym here) (rw f.tree.origin (omega arith))
final-least {net} {src} {l} f (suc i) v n (u, m, walk, edge, sum) =
    let (k, k_is, le) = AtMost_finite (lookup u l.dist) m (final-least f i u m walk) in
    AtMost-le (lookup v l.dist) (k + edge_weight net u v) n (f.tight u k k_is v edge) (omega arith)

pub final-IsShortest :
    {net : Network} {src : ℕ} {l : Labels} → IsFinal net src l → IsShortest net src l.dist
final-IsShortest f = record { attained = f.tree.sound; least = final-least f }

go_on_more :
    (f g : Search → SearchResult) (o : SearchResult) {l : Labels}
    → ((s : Search) → f s ≡ returned l → g s ≡ returned l)
    → go_on f o ≡ returned l
    → go_on g o ≡ returned l
unfolding go_on
go_on_more f g (returned l') more e = e
go_on_more f g raised more e = cc
go_on_more f g (running s) more e = more s e

-- More fuel than enough changes nothing.
pub search_more :
    (fuel more : ℕ) (net : Network) (s : Search) {l : Labels}
    → search_loop fuel net s ≡ returned l
    → search_loop (fuel + more) net s ≡ returned l
unfolding search_loop
search_more zero more net s e = cc
search_more (suc fuel) more net s e = rw suc-add (
    go_on_more (search_loop fuel net) (search_loop (fuel + more) net) (turn net s)
      (λ s'. search_more fuel more net s') e)

module _ (net : Network) (src : ℕ) (closed : IsClosed net) where
  -- The search comes to an end, with final labels.
  abbrev Ends : Search → Type 0
  Ends s = (fuel : ℕ) × (l : Labels) × (search_loop fuel net s ≡ returned l) × IsFinal net src l

  Ends-turn : (s s' : Search) → turn net s ≡ running s' → Ends s' → Ends s
  unfolding search_loop go_on
  Ends-turn s s' e (fuel, l, e', f) = (suc fuel, l, rw (e, go_on) e', f)

  Ends-queue :
      (l : Labels)
      → ((s : Search) → IsSearch net src s → Drops l.dist s.labels.dist → Ends s)
      → (pq : List (ℕ × ℕ)) → IsSearch net src (record { labels = l; pq = pq })
      → Ends (record { labels = l; pq = pq })
  unfolding search_loop go_on turn turn_with resumed
  Ends-queue l lower_ends [] i =
      let final : IsFinal net src l = record {
        tree = i.tree;
        tight = λ x k e. ⊎_elim (λ m. absurd (Memᴰ.not-nil m)) (λ h. h) (i.settled x k e);
      } in
      (1, l, refl, final)
  Ends-queue l lower_ends ((d, u) ∷ rest) i =
      let (s', e, i', p) = pop_step_lem closed d u rest l i in
      Ends-turn _ s' (rw e refl) (
        ⊎_elim
          (λ same.
            subst Ends (sym same) (Ends-queue l lower_ends rest (subst (IsSearch net src) same i')))
          (λ drops. lower_ends s' i' drops) p)

  Ends-total :
      (a b : ℕ)
      → ((s : Search) → IsSearch net src s → unreached s.labels.dist < a → Ends s)
      → (s : Search) → IsSearch net src s
      → unreached s.labels.dist ≡ a
      → total s.labels.dist < b
      → Ends s
  Ends-total a zero fewer s i at_a lt = absurd (omega arith)
  Ends-total a (suc b) fewer s i at_a lt =
      Ends-queue s.labels
        (λ s' i' drops.
          ⊎_elim (λ h. fewer s' i' (omega arith))
            (λ h. Ends-total a b fewer s' i' (omega arith) (omega arith)) drops)
        s.pq i

  Ends-unreached : (a : ℕ) (s : Search) → IsSearch net src s → unreached s.labels.dist < a → Ends s
  Ends-unreached zero s i lt = absurd (omega arith)
  Ends-unreached (suc a) s i lt =
      Ends-total (unreached s.labels.dist) (suc (total s.labels.dist))
        (λ s' i' h. Ends-unreached a s' i' (omega arith)) s i refl (omega arith)

  first-IsSearch : IsSearch net src (record { labels = first_labels net src; pq = (0, src) ∷ [] })
  first-IsSearch = record {
    tree = first-IsTree net src;
    settled = λ x k e. let (here, nothing) = first_finite net src x k e in inl (Memᴰ.head (cc));
    queued = λ x k m. (
      finite 0,
      subst (λ y. lookup y (first_labels net src).dist ≡ some (finite 0))
          (sym (ap (λ (p : ℕ × ℕ). p.1) (Memᴰ.eq_of_singleton m))) (first-IsTree net src).origin,
    );
  }

  pub dijkstra-IsFinal :
      (fuel : ℕ) × (l : Labels) × (dijkstra fuel net src ≡ returned l) × IsFinal net src l
  unfolding dijkstra
  dijkstra-IsFinal =
      Ends-unreached (suc (unreached (first_labels net src).dist))
        (record { labels = first_labels net src; pq = (0, src) ∷ [] }) first-IsSearch (omega arith)

pub dijkstra-IsTree :
    (net : Network) (src : ℕ)
    → IsClosed net
    → (fuel : ℕ) × (l : Labels) × ((more : ℕ) → dijkstra (fuel + more) net src ≡ returned l)
      × IsTree net src l
      × IsShortest net src l.dist
unfolding dijkstra
dijkstra-IsTree net src closed =
    let (fuel, l, e, f) = dijkstra-IsFinal net src closed in
    (fuel, l, λ more. search_more fuel more net _ e, f.tree, final-IsShortest f)

-- When every link leads to a registered switch, _dijkstra returns with enough fuel, and its
-- distances are finite exactly where a walk leads, and the least weights of the walks.
pub dijkstra-IsShortest :
    (net : Network) (src : ℕ)
    → IsClosed net
    → (fuel : ℕ) × (l : Labels) × ((more : ℕ) → dijkstra (fuel + more) net src ≡ returned l)
      × IsShortest net src l.dist
dijkstra-IsShortest net src closed =
    let (fuel, l, e, t, s) = dijkstra-IsTree net src closed in (fuel, l, e, s)
