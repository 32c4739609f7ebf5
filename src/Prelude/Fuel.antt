-- ===== src/Prelude/Fuel.antt =====
-- Computations on fuel, whose `none` is too little fuel or an exception.
use Prim.Native.Nat.{ℕ, ◌+◌}
use mathlib.Core.Path.{◌≡◌, subst}
use mathlib.Core.Bool.{Bool, true, false}
use mathlib.Core.Option.{Option, some}
use native.Mathlib.Omega.{arith}
use cs305_2026spring_project.Prelude.Tests.{if◌then◌else◌}
use cs305_2026spring_project.Prelude.Partial.{◌>>=◌}

-- The computation returns with every fuel that is large enough.
abbrev pub Ends : {A : Type 0} → (ℕ → Option A) → Type 0
Ends {A = A} f = (enough : ℕ) × ((more : ℕ) → (a : A) × (f (enough + more) ≡ some a))

pub Ends-if :
    {A : Type 0} (b : Bool) (f g : ℕ → Option A)
    → Ends f
    → Ends g
    → Ends (λ fuel. if b then f fuel else g fuel)
Ends-if true f g e k = e
Ends-if false f g e k = k

-- One after the other, when the second ends whatever the first returns.
pub Ends-bind :
    {A B : Type 0} (f : ℕ → Option A) (g : ℕ → A → Option B)
    → Ends f
    → (enough : ℕ) × ((more : ℕ) (a : A) → (b : B) × (g (enough + more) a ≡ some b))
    → Ends (λ fuel. f fuel >>= g fuel)
Ends-bind {A} {B} f g (e, answers) (k, results) = (
  e + k,
  λ more.
      let (a, f_is) = answers (k + more) in
      let f_is' = subst (λ n. f n ≡ some a) (omega arith) f_is in
      let (b, g_is) = results (e + more) a in
      let g_is' = subst (λ n. g n a ≡ some b) (omega arith) g_is in
      bound (f ((e + k) + more)) (g ((e + k) + more)) f_is' g_is',
)
  where
    bound :
        (o : Option A) (h : A → Option B) {a : A} {b : B}
        → o ≡ some a
        → h a ≡ some b
        → (c : B) × ((o >>= h) ≡ some c)
    bound o h {b = b} e' e'' = (b, rw e' e'')
