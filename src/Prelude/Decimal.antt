-- ===== src/Prelude/Decimal.antt =====
-- The decimal text of a number, `str(n)`, and the code points of a text.
use Prim.Native.Nat.{ℕ, zero, suc, ◌+◌, ◌-◌, ◌*◌, ◌/◌, ◌%◌, ◌<◌}
use Prim.Native.String.{String}
use Prim.Native.Char.{code}
use mathlib.Core.Path.{◌≡◌, sym, ap, ◌∙◌}
use mathlib.Core.Logic.{inl, inr}
use mathlib.Core.List.{List, [], ◌∷◌}
use native.Mathlib.Omega.{arith}
use broadcaster.Prelude.Tests.{ltb, if◌then◌else◌, Bool-cases}

abbrev pub codes : String → List ℕ
codes String.[] = []
codes (String.◌∷◌ c s) = code c ∷ codes s

-- The digits of `n` before `out`; a fuel above `n` is enough.
unfoldable pub digits : ℕ → ℕ → List ℕ → List ℕ
digits zero n out = out
digits (suc f) n out =
    let last = (48 + n % 10) ∷ out in
    let rest = digits f (n / 10) last in if ltb n 10 then last else rest

unfoldable pub str : ℕ → List ℕ
unfolding digits
str n = digits (n + 1) n []

-- The number that digits spell behind `n`.
abbrev pub value : List ℕ → ℕ → ℕ
value [] n = n
value (c ∷ cs) n = value cs (n * 10 + (c - 48))

value-digits : (f n : ℕ) (out : List ℕ) → n < f → value (digits f n out) 0 ≡ value out n
unfolding digits
value-digits zero n out h = absurd (omega arith)
value-digits (suc f) n out h = elim (Bool-cases (ltb n 10)) [
  | inl small ↦ rw small (ap (value out) (ground arith))
  | inr large ↦ rw large (value-digits f (n / 10) _ (ground arith) ∙ ap (value out) (omega arith))
]

pub value-str : (n : ℕ) → value (str n) 0 ≡ n
unfolding str
value-str n = value-digits (n + 1) n [] (omega arith)

-- Two numbers with one decimal text are one.
pub str_injective : (m n : ℕ) → str m ≡ str n → m ≡ n
str_injective m n e = sym (value-str m) ∙ ap (λ t. value t 0) e ∙ value-str n
