-- ===== src/Routing/Tree.antt =====
-- What every relaxation of _dijkstra and _bellman_ford of controller.py keeps: `dist` holds weights
-- of walks, and `prev` leads back along edges that account for them.
use mathlib.Core.List.{Memᴰ}
use mathlib.Core.Option.{some-injective}
use cs305_2026spring_project.Prelude.{
  ℕ, suc, ◌≡◌, refl, ap, sym, ◌∙◌, subst, ◌≢◌, ◌⊎◌, inl, inr, ◌+◌, ◌≤◌, ◌<◌, Bool, true, Option,
  none, some, arith, nat_eq, ==_iff,
}
use cs305_2026spring_project.Prelude.Table.{Dict, lookup, lookup-insert}
use cs305_2026spring_project.Routing.Graph.{
  Cost, finite, infinite, Network, Edge, edge_weight, Labels, below,
}
use cs305_2026spring_project.Routing.Walk.{Reached, AtMost}
use cs305_2026spring_project.Routing.Relax.{
  Relaxed, kept, lowered, lower, lower_cases, Known, relax-Known, below-lt,
}

-- The predecessor of `v` is `u`, by an edge that its distance accounts for.
pub record Hop (net : Network) (dist : Dict ℕ Cost) (u v : ℕ) : Type 0 where
  pub edge : Edge net u v
  pub far : ℕ
  pub near : ℕ
  pub far_is : lookup v dist ≡ some (finite far)
  pub near_is : lookup u dist ≡ some (finite near)
  pub accounts : near + edge_weight net u v ≤ far

pub record IsTree (net : Network) (src : ℕ) (l : Labels) : Type 0 where
  pub sound : (x k : ℕ) → lookup x l.dist ≡ some (finite k) → Reached net src x k
  pub origin : lookup src l.dist ≡ some (finite 0)
  pub known : (x : ℕ) → Memᴰ x net.switches → Known l.dist x
  pub chain : (u v : ℕ) → lookup v l.prev ≡ some (some u) → Hop net l.dist u v
  pub rooted :
      (v k : ℕ)
      → lookup v l.dist ≡ some (finite k)
      → (v ≡ src) ⊎ ((u : ℕ) × (lookup v l.prev ≡ some (some u)))
  pub top : (u : ℕ) → lookup src l.prev ≢ some (some u)

pub Reached-Edge :
    (net : Network) (src u v k : ℕ)
    → Reached net src u k
    → Edge net u v
    → Reached net src v (k + edge_weight net u v)
Reached-Edge net src u v k (i, walk) edge = (suc i, (u, k, walk, edge, refl))

-- A distance that is finite is at most itself.
pub finite_AtMost : {o : Option Cost} {k : ℕ} → o ≡ some (finite k) → AtMost o k
finite_AtMost e = rw e (omega arith)

pub AtMost_finite :
    (o : Option Cost) (n : ℕ) → AtMost o n → (k : ℕ) × (o ≡ some (finite k)) × (k ≤ n)
AtMost_finite none n h = absurd h
AtMost_finite (some infinite) n h = absurd h
AtMost_finite (some (finite k)) n h = (k, refl, h)

pub same_cost : {o : Option Cost} {j k : ℕ} → o ≡ some (finite j) → o ≡ some (finite k) → j ≡ k
same_cost e f = cc

lower_prev :
    (u v alt : ℕ) (l : Labels) (x : ℕ)
    → ((x ≡ v) × (lookup x (lower u v alt l).prev ≡ some (some u)))
      ⊎ ((x ≢ v) × (lookup x (lower u v alt l).prev ≡ lookup x l.prev))
unfolding lower
lower_prev u v alt l x = ground (arith, lookup-insert x v (some u) l.prev, ==_iff v x)

-- The relaxation of an edge of `u`, whose distance is `k`, towards `v`, when it lowers.
module _ {net : Network} {src : ℕ} {l : Labels} (u v k : ℕ) (t : IsTree net src l)
    (u_is : lookup u l.dist ≡ some (finite k)) (edge : Edge net u v) (old : Cost)
    (found : lookup v l.dist ≡ some old) (less : below (k + edge_weight net u v) old ≡ true) where
  abbrev alt : ℕ
  alt = k + edge_weight net u v

  abbrev l' : Labels
  l' = lower u v alt l

  less_than : (x c : ℕ) → x ≡ v → lookup x l.dist ≡ some (finite c) → alt < c
  less_than x c same x_is =
      below-lt alt c old less
        (some-injective _ _ (sym found ∙ ap (λ y. lookup y l.dist) (sym same) ∙ x_is))

  -- A distance is no more than before.
  shrinks :
      (x c : ℕ)
      → lookup x l.dist ≡ some (finite c)
      → (c' : ℕ) × (lookup x l'.dist ≡ some (finite c')) × (c' ≤ c)
  shrinks x c x_is = elim (lower_cases u v alt l x) [
    | inl (same, new) ↦ (alt, new, omega (arith, less_than x c same x_is))
    | inr (_, as_was) ↦ (c, as_was ∙ x_is, omega arith)
  ]

  lower_as_was : (x : ℕ) → x ≢ v → lookup x l'.dist ≡ lookup x l.dist
  lower_as_was x other = elim (lower_cases u v alt l x) [
    | inl (same, _) ↦ absurd (other same)
    | inr (_, as_was) ↦ as_was
  ]

  stays : (x c : ℕ) → x ≢ v → lookup x l.dist ≡ some (finite c) → lookup x l'.dist ≡ some (finite c)
  stays x c other x_is = lower_as_was x other ∙ x_is

  -- The edge is no loop, and does not lead to the source.
  u_ne : u ≢ v
  u_ne same = omega (arith, less_than u k same u_is)

  src_ne : src ≢ v
  src_ne same = omega (arith, less_than src 0 same t.origin)

  at_v : lookup v l'.dist ≡ some (finite alt)
  at_v = elim (lower_cases u v alt l v) [
    | inl (_, new) ↦ new
    | inr (other, _) ↦ absurd (other refl)
  ]

  new-Hop : Hop net l'.dist u v
  new-Hop = record {
    edge = edge;
    far = alt;
    near = k;
    far_is = at_v;
    near_is = stays u k u_ne u_is;
    accounts = omega arith;
  }

  old-Hop : (x y : ℕ) → y ≢ v → Hop net l.dist x y → Hop net l'.dist x y
  old-Hop x y other h =
      let (c, c_is, le) = shrinks x h.near h.near_is in
      record {
        edge = h.edge;
        far = h.far;
        near = c;
        far_is = stays y h.far other h.far_is;
        near_is = c_is;
        accounts = omega (arith, h.accounts);
      }

  lower-chain : (x y : ℕ) → lookup y l'.prev ≡ some (some x) → Hop net l'.dist x y
  lower-chain x y e = elim (lower_prev u v alt l y) [
    | inl (same, new) ↦
        subst (λ y'. Hop net l'.dist x y') (sym same)
          (subst (λ x'. Hop net l'.dist x' v)
            (some-injective _ _ (some-injective _ _ (sym new ∙ e))) new-Hop)
    | inr (other, as_was) ↦ old-Hop x y other (t.chain x y (sym as_was ∙ e))
  ]

  lower-rooted :
      (y c : ℕ)
      → lookup y l'.dist ≡ some (finite c)
      → (y ≡ src) ⊎ ((x : ℕ) × (lookup y l'.prev ≡ some (some x)))
  lower-rooted y c e = elim (lower_prev u v alt l y) [
    | inl (_, new) ↦ inr (u, new)
    | inr (other, as_was) ↦ elim (t.rooted y c (sym (lower_as_was y other) ∙ e)) [
      | inl at_src ↦ inl at_src
      | inr (x, e') ↦ inr (x, as_was ∙ e')
    ]
  ]

  lower-top : (x : ℕ) → lookup src l'.prev ≢ some (some x)
  lower-top x e = elim (lower_prev u v alt l src) [
    | inl (same, _) ↦ src_ne same
    | inr (_, as_was) ↦ t.top x (sym as_was ∙ e)
  ]

  lower_sound : (x c : ℕ) → lookup x l'.dist ≡ some (finite c) → Reached net src x c
  lower_sound x c e = elim (lower_cases u v alt l x) [
    | inl (same, new) ↦
        subst (λ x'. Reached net src x' c) (sym same)
          (subst (λ c'. Reached net src v c') (same_cost new e)
            (Reached-Edge net src u v k (t.sound u k u_is) edge))
    | inr (_, as_was) ↦ t.sound x c (sym as_was ∙ e)
  ]

  lower-IsTree : IsTree net src (lower u v (k + edge_weight net u v) l)
  lower-IsTree = record {
    sound = lower_sound;
    origin = stays src 0 src_ne t.origin;
    known = λ x x_in. relax-Known u v alt l (lowered old found less) x (t.known x x_in);
    chain = lower-chain;
    rooted = lower-rooted;
    top = lower-top;
  }

-- A relaxation keeps the tree, whether it lowers or not.
pub relax-IsTree :
    {net : Network} {src : ℕ} {l : Labels} (u v k : ℕ) {l' : Labels} {b : Bool}
    → IsTree net src l
    → lookup u l.dist ≡ some (finite k)
    → Edge net u v
    → Relaxed u v (k + edge_weight net u v) l l' b
    → IsTree net src l'
relax-IsTree u v k t u_is edge (kept _) = t
relax-IsTree u v k t u_is edge (lowered old found less) =
    lower-IsTree u v k t u_is edge old found less
