-- ===== src/Routing/Simple.antt =====
-- A walk can be cut to one that meets no switch twice, which Has fewer edges than there are switches:
-- the reason for the `n - 1` rounds of _bellman_ford of controller.py.
use mathlib.Core.List.{Memᴰ}
use mathlib.Core.List.Memᴰ
use cs305_2026spring_project.Prelude.{
  ℕ, zero, suc, ◌≡◌, refl, sym, ◌∙◌, subst, inl, inr, ◌+◌, ◌-◌, ◌≤◌, List, [], ◌∷◌, length, arith,
  nat_eq,
}
use cs305_2026spring_project.Routing.Graph.{Network, Edge, IsClosed, edge_weight}
use cs305_2026spring_project.Routing.Walk.{Walk}
use cs305_2026spring_project.Routing.Pigeonhole.{member_cases, Distinct, pigeonhole}

module _ (net : Network) (src : ℕ) where
  -- The vertices of a walk backwards from its end, none of them twice, and its weight.
  abbrev Simple : List ℕ → ℕ → Type 0
  Simple [] n = ⊥
  Simple (x ∷ []) n = (x ≡ src) × (n ≡ 0)
  Simple (x ∷ (y ∷ ys)) n =
      (Memᴰ x (y ∷ ys) → ⊥)
      × (m : ℕ) × Simple (y ∷ ys) m
      × Edge net y x
      × (n ≡ m + edge_weight net y x)

  -- The part of a walk up to one of its vertices.
  cut :
      (x : ℕ) (ys : List ℕ) (n : ℕ)
      → Simple ys n
      → Memᴰ x ys
      → (zs : List ℕ) × (m : ℕ) × Simple (x ∷ zs) m × (m ≤ n)
  cut x [] n s mem = absurd s
  cut x (y ∷ []) n s mem =
      ([], n, subst (λ z. Simple (z ∷ []) n) (sym (Memᴰ.eq_of_singleton mem)) s, omega arith)
  cut x (y ∷ (z ∷ ys)) n (fresh, m, s, edge, sum) mem = elim (Memᴰ.cases_cons mem) [
    | inl same ↦ (
      z ∷ ys,
      n,
      subst (λ w. Simple (w ∷ (z ∷ ys)) n) (sym same) (fresh, m, s, edge, sum),
      omega arith,
    )
    | inr later ↦ let (zs, m', s', le) = cut x (z ∷ ys) m s later in (zs, m', s', omega arith)
  ]

  shorten : (i v n : ℕ) → Walk net src i v n → (ys : List ℕ) × (m : ℕ) × Simple (v ∷ ys) m × (m ≤ n)
  shorten zero v n (here, nothing) = ([], 0, (here, refl), omega arith)
  shorten (suc i) v n (u, m, walk, edge, sum) =
      let (ys, m', s, le) = shorten i u m walk in
      elim (member_cases v (u ∷ ys)) [
        | inl met ↦ let (zs, m2, s2, le2) = cut v (u ∷ ys) m' s met in (zs, m2, s2, omega arith)
        | inr fresh ↦ (u ∷ ys, m' + edge_weight net u v, (fresh, m', s, edge, refl), omega arith)
      ]

  Simple-Walk : (v : ℕ) (ys : List ℕ) (n : ℕ) → Simple (v ∷ ys) n → Walk net src (length ys) v n
  Simple-Walk v [] n s = s
  Simple-Walk v (y ∷ ys) n (fresh, m, s, edge, sum) = (y, m, Simple-Walk y ys m s, edge, sum)

  Simple-Distinct : (v : ℕ) (ys : List ℕ) (n : ℕ) → Simple (v ∷ ys) n → Distinct (v ∷ ys)
  Simple-Distinct v [] n s = (Memᴰ.not-nil, tt)
  Simple-Distinct v (y ∷ ys) n (fresh, m, s, edge, sum) = (fresh, Simple-Distinct y ys m s)

  simple_in :
      IsClosed net
      → Memᴰ src net.switches
      → (v : ℕ) (ys : List ℕ) (n : ℕ) → Simple (v ∷ ys) n
      → (x : ℕ) → Memᴰ x (v ∷ ys)
      → Memᴰ x net.switches
  simple_in closed src_in v [] n s x mem = Memᴰ.cast (Memᴰ.eq_of_singleton mem ∙ s.0) src_in
  simple_in closed src_in v (y ∷ ys) n (fresh, m, s, edge, sum) x mem = elim (Memᴰ.cases_cons mem) [
    | inl same ↦ Memᴰ.cast same (closed y v edge)
    | inr later ↦ simple_in closed src_in y ys m s x later
  ]

  -- A walk weighs no less than one with at most `n - 1` edges.
  pub short-Walk :
      IsClosed net
      → Memᴰ src net.switches
      → (i v n : ℕ) → Walk net src i v n
      → (j : ℕ) × (m : ℕ) × Walk net src j v m × (m ≤ n) × (j ≤ length net.switches - 1)
  short-Walk closed src_in i v n walk =
      let (ys, m, s, le) = shorten i v n walk in
      let bound : length (v ∷ ys) ≤ length net.switches =
        pigeonhole (v ∷ ys) net.switches (Simple-Distinct v ys m s)
          (simple_in closed src_in v ys m s) in
      (length ys, m, Simple-Walk v ys m s, le, omega (arith, bound))
