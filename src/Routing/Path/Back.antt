-- ===== src/Routing/Path/Back.antt =====
-- The two loops of controller.py that follow `prev`, over a tree of paths with positive weights.
use mathlib.Core.List.{reverse, reverse-append}
use cs305_2026spring_project.Prelude.{
  ℕ, zero, suc, ◌≡◌, refl, ◌∙◌, subst, ap, ◌≢◌, inl, inr, ◌+◌, ◌≤◌, ◌<◌, true, Option, some, List,
  [], ◌∷◌, ◌++◌, Bool-cases, nat_beq, arith, nat_eq,
}
use cs305_2026spring_project.Prelude.Table.{Dict, lookup}
use cs305_2026spring_project.Routing.Graph.{finite, Network, Edge, edge_weight, Labels}
use cs305_2026spring_project.Routing.Tree.{IsTree, same_cost}
use cs305_2026spring_project.Routing.Path.{
  prev_get, before_that, first_after, collect_on, collect_path,
}
use cs305_2026spring_project.Routing.Path.Route.{Route, Route-snoc}

-- Every weight is at least 1.
abbrev pub IsPositive : Network → Type 0
IsPositive net = (u v : ℕ) → 1 ≤ edge_weight net u v

prev_get-some :
    (prev : Dict ℕ (Option ℕ)) (v u : ℕ) → lookup v prev ≡ some (some u) → prev_get prev v ≡ some u
unfolding prev_get
prev_get-some prev v u e = rw (e, prev_get) refl

collect_done :
    (fuel : ℕ) (prev : Dict ℕ (Option ℕ)) (src curr : ℕ) (path : List ℕ)
    → nat_beq curr src ≡ true
    → collect_path (suc fuel) prev src curr path ≡ some (some path)
unfolding collect_path
collect_done fuel prev src curr path here = rw here refl

module _ {net : Network} {src : ℕ} {l : Labels} (positive : IsPositive net)
    (t : IsTree net src l) where
  -- A vertex other than the source Has a predecessor, which is nearer.
  pub step_back :
      (v c : ℕ)
      → lookup v l.dist ≡ some (finite c)
      → v ≢ src
      → (u k : ℕ) × (prev_get l.prev v ≡ some u)
        × Edge net u v
        × (lookup u l.dist ≡ some (finite k))
        × (k + edge_weight net u v ≤ c)
        × (k < c)
  step_back v c v_is other = elim (t.rooted v c v_is) [
    | inl same ↦ absurd (other same)
    | inr (u, e) ↦
        let h = t.chain u v e in
        let far = same_cost h.far_is v_is in
        (
          u,
          h.near,
          prev_get-some l.prev v u e,
          h.edge,
          h.near_is,
          omega (arith, h.accounts, far),
          omega (arith, h.accounts, far, positive u v),
        )
  ]

  -- The loop of _get_next_hop stops at the first switch after the source.
  pub first_after_lem :
      (fuel curr c : ℕ)
      → lookup curr l.dist ≡ some (finite c)
      → curr ≢ src
      → c ≤ fuel
      → (hop m : ℕ) × (xs : List ℕ) × (first_after fuel l.prev src curr ≡ some hop)
        × (prev_get l.prev hop ≡ some src)
        × Edge net src hop
        × Route net hop xs curr m
        × (edge_weight net src hop + m ≤ c)
  unfolding first_after before_that
  first_after_lem zero curr c curr_is other le =
      let (u, k, e, edge, k_is, sum, lt) = step_back curr c curr_is other in absurd (omega arith)
  first_after_lem (suc fuel) curr c curr_is other le =
      let (u, k, e, edge, k_is, sum, lt) = step_back curr c curr_is other in
      elim (Bool-cases (nat_beq u src)) [
        | inl here ↦
            let at_src : u ≡ src = ground arith in
            (
              curr,
              0,
              [],
              rw (e, here) refl,
              e ∙ ap some at_src,
              subst (λ w. Edge net w curr) at_src edge,
              (refl, refl),
              omega (arith, ap (λ w. edge_weight net w curr) at_src),
            )
        | inr further ↦
            let (hop, m, xs, e', from_src, first, route, bound) =
              first_after_lem fuel u k k_is (λ same. ground arith) (omega arith) in
            (
              hop,
              m + edge_weight net u curr,
              xs ++ (curr ∷ []),
              rw (e, further) e',
              from_src,
              first,
              Route-snoc net hop xs u curr m route edge,
              omega arith,
            )
      ]

  -- The loop of _build_path collects a route from the source.
  pub collect_lem :
      (fuel curr c dst m : ℕ) (path : List ℕ)
      → lookup curr l.dist ≡ some (finite c)
      → c < fuel
      → Route net curr (reverse path) dst m
      → (found : List ℕ) × (n : ℕ) × (collect_path fuel l.prev src curr path ≡ some (some found))
        × Route net src (reverse found) dst n
        × (n ≤ c + m)
  unfolding collect_path collect_on
  collect_lem zero curr c dst m path curr_is lt route = absurd (omega arith)
  collect_lem (suc fuel) curr c dst m path curr_is lt route = elim (Bool-cases (nat_beq curr src)) [
    | inl here ↦ (
      path,
      m,
      collect_done fuel l.prev src curr path here,
      subst (λ w. Route net w (reverse path) dst m) (ground arith) route,
      omega arith,
    )
    | inr further ↦
        let (u, k, e, edge, k_is, sum, less) = step_back curr c curr_is (λ same. ground arith) in
        let longer : Route net u (reverse (path ++ (curr ∷ []))) dst (edge_weight net u curr + m) =
          rw (reverse-append path (curr ∷ [])) (edge, m, route, refl) in
        let (found, n, e', route', bound) =
          collect_lem fuel u k dst (edge_weight net u curr + m) (path ++ (curr ∷ [])) k_is
            (omega arith) longer in
        (found, n, rw (e, further) e', route', omega arith)
  ]
