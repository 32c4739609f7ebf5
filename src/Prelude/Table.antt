-- ===== src/Prelude/Table.antt =====
-- Python's dict as an association list in insertion order. Clients reason by the laws in `if` form.

use mathlib.Core.Path.{◌≡◌, refl, sym, ap, ◌∙◌}
use mathlib.Core.Logic.{◌⊎◌, inl, inr, ◌≢◌}
use mathlib.Core.Bool.{Bool, true, false}
use mathlib.Core.Option.{Option, none, some, some-injective}
use mathlib.Core.List.{List, [], ◌∷◌, Memᴰ}
use mathlib.Core.List.Memᴰ
use native.Mathlib.Omega.{arith}
use cs305_2026spring_project.Prelude.Tests.{if◌then◌else◌, Bool-cases}
use cs305_2026spring_project.Prelude.Equality.{Comparable, ◌==◌, ==_iff}

abbrev pub Dict {ℓ κ} : Type ℓ → Type κ → Type (ℓ ⊔ κ)
Dict K V = List (K × V)

module _ {ℓ κ} {K : Type ℓ} {V : Type κ} ⦃e : Comparable K⦄ where
  -- `d.get(k)`
  unfoldable pub lookup : K → Dict K V → Option V
  lookup k [] = none
  lookup k ((j, v) ∷ d) = if j == k then some v else lookup k d

  -- `d[k] = v`: an old key keeps its place, a new one comes last.
  unfoldable pub insert : K → V → Dict K V → Dict K V
  insert k v [] = (k, v) ∷ []
  insert k v ((j, w) ∷ d) = if j == k then (j, v) ∷ d else (j, w) ∷ insert k v d

  -- `d.pop(k, None)`
  unfoldable pub erase : K → Dict K V → Dict K V
  erase k [] = []
  erase k ((j, w) ∷ d) = let rest = erase k d in if j == k then rest else (j, w) ∷ rest

  -- `k in d`
  abbrev pub contains : K → Dict K V → Bool
  contains k d = elim (lookup k d) [ none ↦ false | some _ ↦ true ]

  pub lookup-insert :
      (j k : K) (v : V) (d : Dict K V)
      → lookup j (insert k v d) ≡ (if k == j then some v else lookup j d)
  unfolding lookup insert
  lookup-insert j k v [] = refl
  lookup-insert j k v ((i, w) ∷ d) =
      ground (arith, lookup-insert j k v d, ==_iff i k, ==_iff i j, ==_iff k j)

  pub lookup-erase :
      (j k : K) (d : Dict K V) → lookup j (erase k d) ≡ (if k == j then none else lookup j d)
  unfolding lookup erase
  lookup-erase j k [] = ground arith
  lookup-erase j k ((i, w) ∷ d) =
      ground (arith, lookup-erase j k d, ==_iff i k, ==_iff i j, ==_iff k j)

  -- A key is found at the head or after it.
  pub lookup-cons :
      (k j : K) (v : V) (d : Dict K V) {w : V}
      → lookup k ((j, v) ∷ d) ≡ some w
      → ((j ≡ k) × (v ≡ w)) ⊎ ((j ≢ k) × (lookup k d ≡ some w))
  unfolding lookup
  lookup-cons k j v d {w} h = elim (Bool-cases (j == k)) [
    | inl here ↦
        let found : some v ≡ some w = sym (rw here refl) ∙ h in
        inl ((==_iff j k).0 here, some-injective v w found)
    | inr other ↦ inr (λ same. absurd (ground (arith, ==_iff j k)), sym (rw other refl) ∙ h)
  ]

pub ruleset dict_laws = (lookup-insert, lookup-erase)

-- No key stands twice, as in every dict.
abbrev pub IsDict {ℓ κ} : {K : Type ℓ} {V : Type κ} ⦃e : Comparable K⦄ → Dict K V → Type κ
IsDict [] = Unit
IsDict ((k, v) ∷ d) = (lookup k d ≡ none) × IsDict d

module _ {ℓ κ} {K : Type ℓ} {V : Type κ} ⦃e : Comparable K⦄ where
  pub insert-IsDict : (k : K) (v : V) (d : Dict K V) → IsDict d → IsDict (insert k v d)
  unfolding lookup insert
  insert-IsDict k v [] u = (refl, tt)
  insert-IsDict k v ((j, w) ∷ d) (new, u) = elim (Bool-cases (j == k)) [
    | inl here ↦ rw (here, insert) (new, u)
    | inr other ↦
        let apart : (k == j) ≡ false = ground (arith, ==_iff j k, ==_iff k j) in
        rw (other, insert) (lookup-insert j k v d ∙ rw apart new, insert-IsDict k v d u)
  ]

  pub erase-IsDict : (k : K) (d : Dict K V) → IsDict d → IsDict (erase k d)
  unfolding erase
  erase-IsDict k [] u = u
  erase-IsDict k ((j, w) ∷ d) (new, u) = elim (Bool-cases (j == k)) [
    | inl here ↦ rw (here, erase) (erase-IsDict k d u)
    | inr other ↦
        let still : lookup j (erase k d) ≡ none = ground (arith, lookup-erase j k d) in
        rw (other, erase) (still, erase-IsDict k d u)
  ]

  -- An entry of a dict is what its key leads to.
  pub lookup-Memᴰ : (k : K) (v : V) (d : Dict K V) → IsDict d → Memᴰ (k, v) d → lookup k d ≡ some v
  unfolding lookup
  lookup-Memᴰ k v [] u m = elim m [ ]
  lookup-Memᴰ k v ((j, w) ∷ d) (new, u) m = elim (Memᴰ.cases_cons m) [
    | inl same ↦
        let key = ap (λ (p : K × V). p.0) same in
        let value = ap (λ (p : K × V). p.1) same in
        let here : (j == k) ≡ true = (==_iff j k).1 (sym key) in rw here (ap some (sym value))
    | inr later ↦
        let found = lookup-Memᴰ k v d u later in
        let other : (j == k) ≡ false = ground (arith, ==_iff j k) in rw other found
  ]
