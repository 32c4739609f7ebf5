-- ===== src/Routing/Relax.antt =====
-- The relaxation of one edge, common to _dijkstra and _bellman_ford of controller.py.
use cs305_2026spring_project.Prelude.{
  ℕ, ◌≡◌, refl, ap, sym, ◌∙◌, ◌≢◌, ◌≤◌, ◌<◌, ◌⊎◌, inl, inr, subst, Bool, true, false, if◌then◌else◌,
  Option, none, some, Bool-cases, arith, nat_eq, ==_iff,
}
use cs305_2026spring_project.Prelude.Table.{Dict, lookup, insert, lookup-insert}
use cs305_2026spring_project.Routing.Graph.{Cost, finite, infinite, Labels, below}
use cs305_2026spring_project.Routing.Walk.{AtMost}
use mathlib.Core.Option.{some-injective}

-- `if alt < dist[v]: dist[v] = alt; prev[v] = u`, and whether it did; a missing `dist[v]` raises.
unfoldable pub lower : ℕ → ℕ → ℕ → Labels → Labels
lower u v alt l = record { dist = insert v (finite alt) l.dist; prev = insert v (some u) l.prev }

unfoldable pub relax_with : ℕ → ℕ → ℕ → Labels → Option Cost → Option (Labels × Bool)
relax_with u v alt l none = none
relax_with u v alt l (some old) =
    if below alt old then some (lower u v alt l, true) else some (l, false)

unfoldable pub relax : ℕ → ℕ → ℕ → Labels → Option (Labels × Bool)
relax u v alt l = relax_with u v alt l (lookup v l.dist)

pub finite-injective : {a b : ℕ} → finite a ≡ finite b → a ≡ b
finite-injective e = cc

-- The two ways in which a relaxation ends.
pub data Relaxed (u v alt : ℕ) (l : Labels) : Labels → Bool → Type 0 where
  kept : AtMost (lookup v l.dist) alt → Relaxed u v alt l l false
  lowered :
      (old : Cost)
      → lookup v l.dist ≡ some old
      → below alt old ≡ true
      → Relaxed u v alt l (lower u v alt l) true

above : (alt : ℕ) (old : Cost) → below alt old ≡ false → AtMost (some old) alt
unfolding below
above alt (finite k) h = ground arith
above alt infinite h = cc

module _ (u v alt : ℕ) (l : Labels) {l' : Labels} {b : Bool} where
  tested-Relaxed :
      (old : Cost) (t : Bool)
      → lookup v l.dist ≡ some old
      → below alt old ≡ t
      → if◌then◌else◌ {A = Option (Labels × Bool)} t
          (some (lower u v alt l, true))
          (some (l, false))
        ≡ some (l', b)
      → Relaxed u v alt l l' b
  tested-Relaxed old true found h e =
      subst (λ (r : Labels × Bool). Relaxed u v alt l r.0 r.1) (some-injective _ _ e)
        (lowered old found h)
  tested-Relaxed old false found h e =
      subst (λ (r : Labels × Bool). Relaxed u v alt l r.0 r.1) (some-injective _ _ e)
        (kept (rw found (above alt old h)))

  relax_with-Relaxed :
      (o : Option Cost)
      → lookup v l.dist ≡ o
      → relax_with u v alt l o ≡ some (l', b)
      → Relaxed u v alt l l' b
  unfolding relax_with
  relax_with-Relaxed none found e = cc
  relax_with-Relaxed (some old) found e = tested-Relaxed old (below alt old) found refl e

pub relax-Relaxed :
    (u v alt : ℕ) (l : Labels) {l' : Labels} {b : Bool}
    → relax u v alt l ≡ some (l', b)
    → Relaxed u v alt l l' b
unfolding relax
relax-Relaxed u v alt l e = relax_with-Relaxed u v alt l (lookup v l.dist) refl e

pub below-lt : (n c : ℕ) (old : Cost) → below n old ≡ true → old ≡ finite c → n < c
unfolding below
below-lt n c (finite j) less e = ground (arith, finite-injective e)
below-lt n c infinite less e = cc

-- What lowering a distance changes.
pub lower_cases :
    (u v alt : ℕ) (l : Labels) (x : ℕ)
    → ((x ≡ v) × (lookup x (lower u v alt l).dist ≡ some (finite alt)))
      ⊎ ((x ≢ v) × (lookup x (lower u v alt l).dist ≡ lookup x l.dist))
unfolding lower
lower_cases u v alt l x = ground (arith, lookup-insert x v (finite alt) l.dist, ==_iff v x)

below_AtMost : (alt n : ℕ) (old : Cost) → below alt old ≡ true → AtMost (some old) n → alt ≤ n
unfolding below
below_AtMost alt n (finite k) less h = ground arith
below_AtMost alt n infinite less h = absurd h

-- The vertex Has a distance, maybe infinite.
abbrev pub Known : Dict ℕ Cost → ℕ → Type 0
Known dist v = (c : Cost) × (lookup v dist ≡ some c)

pub relax_returns :
    (u v alt : ℕ) (l : Labels)
    → Known l.dist v
    → (l' : Labels) × (b : Bool) × (relax u v alt l ≡ some (l', b))
unfolding relax relax_with
relax_returns u v alt l (old, e) = elim (Bool-cases (below alt old)) [
  | inl h ↦ (lower u v alt l, true, rw (e, h))
  | inr h ↦ (l, false, rw (e, h))
]

module _ (u v alt : ℕ) (l : Labels) where
  -- What the vertex of the edge Has afterwards.
  pub relax_at : {l' : Labels} {b : Bool} → Relaxed u v alt l l' b → AtMost (lookup v l'.dist) alt
  unfolding lower
  relax_at (kept h) = h
  relax_at (lowered old e h) = elim (lower_cases u v alt l v) [
    | inl (_, new) ↦ rw new (omega arith)
    | inr (other, _) ↦ absurd (other refl)
  ]

  pub relax_AtMost :
      {l' : Labels} {b : Bool}
      → Relaxed u v alt l l' b
      → (x n : ℕ) → AtMost (lookup x l.dist) n
      → AtMost (lookup x l'.dist) n
  unfolding lower
  relax_AtMost (kept _) x n h = h
  relax_AtMost (lowered old e less) x n h = elim (lower_cases u v alt l x) [
    | inl (same, new) ↦ rw new (
        below_AtMost alt n old less
          (subst (λ o. AtMost o n) (ap (λ y. lookup y l.dist) same ∙ e) h))
    | inr (_, old_one) ↦ rw old_one h
  ]

  pub relax-Known :
      {l' : Labels} {b : Bool} → Relaxed u v alt l l' b → (x : ℕ) → Known l.dist x → Known l'.dist x
  unfolding lower
  relax-Known (kept _) x h = h
  relax-Known (lowered old e less) x h = elim (lower_cases u v alt l x) [
    | inl (_, new) ↦ (finite alt, new)
    | inr (_, old_one) ↦ (h.0, old_one ∙ h.1)
  ]

  -- A distance is old and kept, or the new one.
  pub relax_finite :
      {l' : Labels} {b : Bool}
      → Relaxed u v alt l l' b
      → (x k : ℕ) → lookup x l'.dist ≡ some (finite k)
      → (lookup x l.dist ≡ some (finite k)) ⊎ ((b ≡ true) × (x ≡ v) × (k ≡ alt))
  unfolding lower
  relax_finite (kept _) x k h = inl h
  relax_finite (lowered old e less) x k h = elim (lower_cases u v alt l x) [
    | inl (same, new) ↦ inr (refl, same, finite-injective (some-injective _ _ (sym h ∙ new)))
    | inr (_, old_one) ↦ inl (sym old_one ∙ h)
  ]

  -- A distance that is no more than the new one is kept.
  pub relax_keeps :
      {l' : Labels} {b : Bool}
      → Relaxed u v alt l l' b
      → (x k : ℕ) → lookup x l.dist ≡ some (finite k)
      → k ≤ alt
      → lookup x l'.dist ≡ some (finite k)
  relax_keeps (kept _) x k h le = h
  relax_keeps (lowered old e less) x k h le = elim (lower_cases u v alt l x) [
    | inl (same, new) ↦ absurd (
        omega (
          arith,
          below-lt alt k old less
              (some-injective _ _ (sym e ∙ ap (λ y. lookup y l.dist) (sym same) ∙ h)),
        ))
    | inr (_, as_was) ↦ as_was ∙ h
  ]
