-- ===== src/Prelude/Split.antt =====
-- Python's `s.split(c)` and `c.join(parts)` for a separator of one character.
use Prim.Native.Nat.{ℕ}
use mathlib.Core.Path.{◌≡◌, refl, ap, ◌∙◌}
use mathlib.Core.Logic.{◌≢◌, inl, inr}
use mathlib.Core.List.{List, [], ◌∷◌, ◌++◌}
use native.Mathlib.Omega.{arith}
use cs305_2026spring_project.Prelude.Tests.{nat_beq, Bool-cases, if◌then◌else◌}
use cs305_2026spring_project.Prelude.Lists.{All}
use cs305_2026spring_project.Prelude.Equality.{Text}

-- One more character in front of the first part.
abbrev pub extend : ℕ → List Text → List Text
extend c [] = (c ∷ []) ∷ []
extend c (w ∷ ws) = (c ∷ w) ∷ ws

unfoldable pub split : ℕ → Text → List Text
split sep [] = [] ∷ []
split sep (c ∷ s) = let rest = split sep s in if nat_beq c sep then [] ∷ rest else extend c rest

unfoldable pub join : ℕ → List Text → Text
join sep [] = []
join sep (w ∷ []) = w
join sep (w ∷ (v ∷ vs)) = w ++ (sep ∷ join sep (v ∷ vs))

-- The part holds no separator.
abbrev pub Lacks : ℕ → Text → Type 0
Lacks sep w = All (λ c. c ≢ sep) w

split_word : (sep : ℕ) (w : Text) → Lacks sep w → split sep w ≡ w ∷ []
unfolding split
split_word sep [] h = refl
split_word sep (c ∷ w) h = ground (arith, split_word sep w h.1)

split_first : (sep : ℕ) (w s : Text) → Lacks sep w → split sep (w ++ (sep ∷ s)) ≡ w ∷ split sep s
unfolding split
split_first sep [] s h = ground arith
split_first sep (c ∷ w) s h = ground (arith, split_first sep w s h.1)

-- Splitting what was joined gives the parts back, if there is one and none holds the separator.
pub split-join :
    (sep : ℕ) (w : Text) (ws : List Text)
    → All (Lacks sep) (w ∷ ws)
    → split sep (join sep (w ∷ ws)) ≡ w ∷ ws
unfolding join
split-join sep w [] h = split_word sep w h.0
split-join sep w (v ∷ vs) h =
    split_first sep w (join sep (v ∷ vs)) h.0 ∙ ap (◌∷◌ w) (split-join sep v vs h.1)

join-extend : (sep c : ℕ) (ws : List Text) → join sep (extend c ws) ≡ c ∷ join sep ws
unfolding join
join-extend sep c [] = refl
join-extend sep c (w ∷ []) = refl
join-extend sep c (w ∷ (v ∷ vs)) = refl

-- There is always a first part.
split_cons : (sep : ℕ) (s : Text) → (w : Text) × (ws : List Text) × (split sep s ≡ w ∷ ws)
unfolding split
split_cons sep [] = ([], [], refl)
split_cons sep (c ∷ s) =
    let (w, ws, e) = split_cons sep s in
    elim (Bool-cases (nat_beq c sep)) [
      | inl same ↦ ([], split sep s, rw same)
      | inr other ↦ (c ∷ w, ws, rw (other, e))
    ]

join-nil : (sep : ℕ) (s : Text) → join sep ([] ∷ split sep s) ≡ sep ∷ join sep (split sep s)
unfolding join
join-nil sep s = let (w, ws, e) = split_cons sep s in rw e

-- Joining what was split gives the text back.
pub join-split : (sep : ℕ) (s : Text) → join sep (split sep s) ≡ s
unfolding split join
join-split sep [] = refl
join-split sep (c ∷ s) =
    ground (arith, join-split sep s, join-nil sep s, join-extend sep c (split sep s))

extend-Lacks :
    (sep c : ℕ) (ws : List Text) → c ≢ sep → All (Lacks sep) ws → All (Lacks sep) (extend c ws)
extend-Lacks sep c [] ne h = ((ne, tt), tt)
extend-Lacks sep c (w ∷ ws) ne h = ((ne, h.0), h.1)

-- The parts of a split hold no separator.
pub split-Lacks : (sep : ℕ) (s : Text) → All (Lacks sep) (split sep s)
unfolding split
split-Lacks sep [] = (tt, tt)
split-Lacks sep (c ∷ s) = elim (Bool-cases (nat_beq c sep)) [
  | inl same ↦ rw same (tt, split-Lacks sep s)
  | inr other ↦ rw other (extend-Lacks sep c (split sep s) (ground arith) (split-Lacks sep s))
]

pub split-join_ne :
    (sep : ℕ) (ws : List Text) → ws ≢ [] → All (Lacks sep) ws → split sep (join sep ws) ≡ ws
split-join_ne sep [] ne h = absurd (ne refl)
split-join_ne sep (w ∷ ws) ne h = split-join sep w ws h

pub split-ne-nil : (sep : ℕ) (s : Text) → split sep s ≢ []
split-ne-nil sep s h = let (w, ws, e) = split_cons sep s in cc e
