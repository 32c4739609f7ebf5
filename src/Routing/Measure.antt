-- ===== src/Routing/Measure.antt =====
-- What goes down with every relaxation that lowers a distance, so that the searches of controller.py
-- end: the number of infinite distances, then the sum of the finite ones.
use cs305_2026spring_project.Prelude.{
  ℕ, suc, ◌≡◌, ◌⊎◌, ◌+◌, ◌<◌, true, some, [], ◌∷◌, arith, nat_eq, ==_iff,
}
use cs305_2026spring_project.Prelude.Table.{Dict, lookup, insert}
use cs305_2026spring_project.Routing.Graph.{Cost, finite, infinite, Labels, below}
use cs305_2026spring_project.Routing.Relax.{lower, below-lt}

unfoldable pub unreached : Dict ℕ Cost → ℕ
unreached [] = 0
unreached ((x, finite k) ∷ dist) = unreached dist
unreached ((x, infinite) ∷ dist) = suc (unreached dist)

unfoldable pub total : Dict ℕ Cost → ℕ
total [] = 0
total ((x, finite k) ∷ dist) = k + total dist
total ((x, infinite) ∷ dist) = total dist

abbrev pub Drops : Dict ℕ Cost → Dict ℕ Cost → Type 0
Drops dist dist' =
    (unreached dist' < unreached dist)
    ⊎ ((unreached dist' ≡ unreached dist) × (total dist' < total dist))

pub Drops-trans : (a b c : Dict ℕ Cost) → Drops a b → Drops b c → Drops a c
Drops-trans a b c h k = ground arith

insert-Drops :
    (v n : ℕ) (old : Cost) (dist : Dict ℕ Cost)
    → lookup v dist ≡ some old
    → below n old ≡ true
    → Drops dist (insert v (finite n) dist)
unfolding lookup insert unreached total
insert-Drops v n old [] found less = cc
insert-Drops v n old ((x, finite k) ∷ dist) found less =
    ground (arith, insert-Drops v n old dist, below-lt n k old less, ==_iff x v)
insert-Drops v n old ((x, infinite) ∷ dist) found less =
    ground (arith, insert-Drops v n old dist, ==_iff x v)

pub lower-Drops :
    (u v n : ℕ) (old : Cost) (l : Labels)
    → lookup v l.dist ≡ some old
    → below n old ≡ true
    → Drops l.dist (lower u v n l).dist
unfolding lower
lower-Drops u v n old l found less = insert-Drops v n old l.dist found less
