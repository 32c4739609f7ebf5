-- ===== src/Routing/Pigeonhole.antt =====
-- A list without repetition among the keys of self.switches is no longer than they are.
use mathlib.Core.List.{Memᴰ}
use mathlib.Core.List.Memᴰ
use cs305_2026spring_project.Prelude.{
  ℕ, suc, ◌≡◌, refl, sym, ◌≢◌, ◌⊎◌, inl, inr, ◌≤◌, List, [], ◌∷◌, length, nat_beq, Bool-cases,
  if◌then◌else◌, arith, nat_eq,
}

pub member_cases : (x : ℕ) (ys : List ℕ) → Memᴰ x ys ⊎ (Memᴰ x ys → ⊥)
member_cases x [] = inr Memᴰ.not-nil
member_cases x (y ∷ ys) = elim (Bool-cases (nat_beq x y)) [
  | inl same ↦ inl (Memᴰ.head (ground arith))
  | inr other ↦ elim (member_cases x ys) [
    | inl m ↦ inl (Memᴰ.tail m)
    | inr fresh ↦ inr (λ m. elim (Memᴰ.cases_cons m) [ inl e ↦ ground arith | inr m' ↦ fresh m' ])
  ]
]

abbrev pub Distinct : List ℕ → Type 0
Distinct [] = Unit
Distinct (x ∷ xs) = (Memᴰ x xs → ⊥) × Distinct xs

remove : ℕ → List ℕ → List ℕ
remove x [] = []
remove x (y ∷ ys) = let rest = remove x ys in if nat_beq x y then ys else y ∷ rest

length-remove : (x : ℕ) (ys : List ℕ) → Memᴰ x ys → suc (length (remove x ys)) ≡ length ys
unfolding remove
length-remove x [] m = elim m [ ]
length-remove x (y ∷ ys) (Memᴰ.head e) = ground arith
length-remove x (y ∷ ys) (Memᴰ.tail m) = ground (arith, length-remove x ys m)

Memᴰ-remove : (x y : ℕ) (ys : List ℕ) → y ≢ x → Memᴰ y ys → Memᴰ y (remove x ys)
unfolding remove
Memᴰ-remove x y [] other m = elim m [ ]
Memᴰ-remove x y (z ∷ ys) other (Memᴰ.head e) = elim (Bool-cases (nat_beq x z)) [
  | inl same ↦ absurd (ground arith)
  | inr differ ↦ rw differ (Memᴰ.head e)
]
Memᴰ-remove x y (z ∷ ys) other (Memᴰ.tail m) = elim (Bool-cases (nat_beq x z)) [
  | inl same ↦ rw same m
  | inr differ ↦ rw differ (Memᴰ.tail (Memᴰ-remove x y ys other m))
]

pub pigeonhole :
    (xs ys : List ℕ) → Distinct xs → ((x : ℕ) → Memᴰ x xs → Memᴰ x ys) → length xs ≤ length ys
pigeonhole [] ys distinct all_in = omega arith
pigeonhole (x ∷ xs) ys (fresh, distinct) all_in =
    let shorter : length xs ≤ length (remove x ys) = pigeonhole xs (remove x ys) distinct (λ y m.
      Memᴰ-remove x y ys (λ same. fresh (Memᴰ.cast (sym same) m)) (all_in y (Memᴰ.tail m))) in
    omega (arith, length-remove x ys (all_in x (Memᴰ.head refl)))
