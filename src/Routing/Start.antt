-- ===== src/Routing/Start.antt =====
-- The labels with which _dijkstra and _bellman_ford of controller.py begin.
use mathlib.Core.List.{Memᴰ}
use cs305_2026spring_project.Prelude.{
  ℕ, zero, ◌≡◌, refl, ◌∙◌, ◌≢◌, inl, inr, some, List, [], ◌∷◌, arith, nat_eq, ==_iff, Bool-cases,
  nat_beq,
}
use cs305_2026spring_project.Prelude.Table.{lookup, insert, lookup-insert}
use cs305_2026spring_project.Routing.Graph.{Cost, finite, infinite, Network, Labels, blank, no_prev}
use cs305_2026spring_project.Routing.Relax.{Known, finite-injective}
use cs305_2026spring_project.Routing.Tree.{IsTree}

-- Every switch at float('inf') with no predecessor, then the source at 0.
unfoldable pub first_labels : Network → ℕ → Labels
first_labels net src = record {
  dist = insert src (finite 0) (blank net.switches);
  prev = no_prev net.switches;
}

lookup-blank :
    (x : ℕ) (switches : List ℕ) {c : Cost} → lookup x (blank switches) ≡ some c → c ≡ infinite
unfolding blank lookup
lookup-blank x [] e = cc
lookup-blank x (y ∷ switches) {c} e = ground (arith, lookup-blank x switches {c = c}, ==_iff y x)

blank-Known :
    (x : ℕ) (switches : List ℕ) → Memᴰ x switches → lookup x (blank switches) ≡ some infinite
unfolding blank lookup
blank-Known x [] m = elim m [ ]
blank-Known x (y ∷ switches) (Memᴰ.head e) = ground (arith, ==_iff y x)
blank-Known x (y ∷ switches) (Memᴰ.tail m) = ground (arith, blank-Known x switches m, ==_iff y x)

no_prev_none : (x u : ℕ) (switches : List ℕ) → lookup x (no_prev switches) ≢ some (some u)
unfolding no_prev lookup
no_prev_none x u [] e = cc
no_prev_none x u (y ∷ switches) e = ground (arith, no_prev_none x u switches, ==_iff y x)

module _ (net : Network) (src : ℕ) where
  -- Only the source Has a finite distance.
  pub first_finite :
      (x k : ℕ) → lookup x (first_labels net src).dist ≡ some (finite k) → (x ≡ src) × (k ≡ 0)
  unfolding first_labels
  first_finite x k e = ground (
    arith,
    lookup-insert x src (finite 0) (blank net.switches),
    ==_iff src x,
    lookup-blank x net.switches {c = finite k},
    finite-injective {a = 0} {b = k},
  )

  first_origin : lookup src (first_labels net src).dist ≡ some (finite 0)
  unfolding first_labels
  first_origin =
      ground (arith, lookup-insert src src (finite 0) (blank net.switches), ==_iff src src)

  first-Known : (x : ℕ) → Memᴰ x net.switches → Known (first_labels net src).dist x
  unfolding first_labels
  first-Known x m = elim (Bool-cases (nat_beq src x)) [
    | inl here ↦ (finite 0, lookup-insert x src (finite 0) (blank net.switches) ∙ rw here refl)
    | inr other ↦ (
      infinite,
      lookup-insert x src (finite 0) (blank net.switches) ∙ rw other (blank-Known x net.switches m),
    )
  ]

  pub first-IsTree : IsTree net src (first_labels net src)
  unfolding first_labels
  first-IsTree = record {
    sound = λ x k e. let (here, none_yet) = first_finite x k e in (zero, (here, none_yet));
    origin = first_origin;
    known = first-Known;
    chain = λ u v e. absurd (no_prev_none v u net.switches e);
    rooted = λ v k e. inl (first_finite v k e).0;
    top = λ u e. no_prev_none src u net.switches e;
  }
