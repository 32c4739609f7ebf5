-- ===== src/Routing/Path/Route.antt =====
-- Walks with their switches, as _build_path of controller.py returns them.
use mathlib.Core.List.{reverse, reverse-cons}
use cs305_2026spring_project.Prelude.{
  ℕ, ◌≡◌, refl, sym, subst, ap, ◌≢◌, ◌+◌, ◌-◌, List, [], ◌∷◌, ◌++◌, length, length-append, take,
  arith, nat_eq,
}
use cs305_2026spring_project.Routing.Graph.{Network, Edge, edge_weight}
use cs305_2026spring_project.Routing.Walk.{Reached}
use cs305_2026spring_project.Routing.Tree.{Reached-Edge}

-- The switches `xs` after `v` lead to `dst`, by edges whose weights add up to `n`.
abbrev pub Route : Network → ℕ → List ℕ → ℕ → ℕ → Type 0
Route net v [] dst n = (v ≡ dst) × (n ≡ 0)
Route net v (x ∷ xs) dst n =
    Edge net v x × (m : ℕ) × Route net x xs dst m × (n ≡ edge_weight net v x + m)

pub Route-snoc :
    (net : Network) (v : ℕ) (xs : List ℕ) (u x m : ℕ)
    → Route net v xs u m
    → Edge net u x
    → Route net v (xs ++ (x ∷ [])) x (m + edge_weight net u x)
Route-snoc net v [] u x m (same, nothing) edge = (
  subst (λ w. Edge net w x) (sym same) edge,
  0,
  (refl, refl),
  omega (arith, ap (λ w. edge_weight net w x) same),
)
Route-snoc net v (y ∷ ys) u x m (first, k, rest, sum) edge =
    (first, k + edge_weight net u x, Route-snoc net y ys u x k rest edge, omega arith)

pub Route-Reached :
    (net : Network) (src v : ℕ) (xs : List ℕ) (dst k m : ℕ)
    → Reached net src v k
    → Route net v xs dst m
    → Reached net src dst (k + m)
Route-Reached net src v [] dst k m r (same, nothing) =
    subst (λ w. Reached net src w (k + m)) same (subst (Reached net src v) (omega arith) r)
Route-Reached net src v (x ∷ xs) dst k m r (first, j, rest, sum) =
    subst (Reached net src dst) (omega (arith, sum)) (
      Route-Reached net src x xs dst (k + edge_weight net v x) j
        (Reached-Edge net src v x k r first) rest)

Route-last :
    (net : Network) (v x : ℕ) (xs : List ℕ) (dst m : ℕ)
    → Route net v (x ∷ xs) dst m
    → take (length xs) (x ∷ xs) ++ (dst ∷ []) ≡ x ∷ xs
Route-last net v x [] dst m (first, k, (same, nothing), sum) = ap (λ y. y ∷ []) (sym same)
Route-last net v x (y ∷ ys) dst m (first, k, rest, sum) =
    ap (◌∷◌ x) (Route-last net x y ys dst k rest)

-- A route that goes anywhere ends in its destination.
pub Route-inner :
    (net : Network) (v : ℕ) (xs : List ℕ) (dst m : ℕ)
    → v ≢ dst
    → Route net v xs dst m
    → take (length xs - 1) xs ++ (dst ∷ []) ≡ xs
Route-inner net v [] dst m other (same, nothing) = absurd (other same)
Route-inner net v (x ∷ xs) dst m other route =
    let less : length (x ∷ xs) - 1 ≡ length xs = omega arith in
    rw less (Route-last net v x xs dst m route)

pub length-reverse : (xs : List ℕ) → length (reverse xs) ≡ length xs
length-reverse [] = refl
length-reverse (x ∷ xs) =
    rw (reverse-cons x xs, length-append (reverse xs) (x ∷ [])) (omega (arith, length-reverse xs))
