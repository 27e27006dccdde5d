-- ===== src/Base/Decimal.antt =====
-- The decimal digits that `{}` prints of a number.
use mathlib.Core.List.{foldl, foldl-append, [], ◌∷◌, ◌++◌}
use Prim.Native.Nat.{ℕ, zero, suc, ◌+◌, ◌-◌, ◌*◌, ◌/◌, ◌%◌, ◌<◌}
use mathlib.Core.Path.{◌≡◌, sym, ap, ◌∙◌}
use mathlib.Core.Logic.{inl, inr}
use native.Mathlib.Omega.{arith}
use pakstak.Base.Tests.{ltb, if◌then◌else◌, Bool-cases}
use pakstak.Base.Strings.{Text}

digits : ℕ → ℕ → Text
digits zero n = []
digits (suc fuel) n =
    let rest = digits fuel (n / 10) in
    if ltb n 10 then (b'0' + n) ∷ [] else rest ++ (b'0' + n % 10) ∷ []

-- A number has at most as many digits as it counts, and one more for zero.
unfoldable pub decimal : ℕ → Text
unfolding digits
decimal n = digits (suc n) n

push_digit : ℕ → ℕ → ℕ
push_digit n c = n * 10 + (c - b'0')

value : Text → ℕ
unfolding push_digit
value = foldl push_digit 0

value-digits : (fuel n : ℕ) → n < fuel → value (digits fuel n) ≡ n
unfolding digits value
value-digits zero n h = absurd (omega arith)
value-digits (suc fuel) n h = elim (Bool-cases (ltb n 10)) [
  | inl e ↦ rw e (omega arith)
  | inr e ↦
      rw (e, foldl-append)
        (ap (λ m. push_digit m (b'0' + n % 10)) (value-digits fuel (n / 10) (ground arith))
          ∙ omega arith)
]

-- Different numbers are printed differently.
pub decimal_injective : (m n : ℕ) → decimal m ≡ decimal n → m ≡ n
unfolding decimal
decimal_injective m n e =
    sym (value-digits (suc m) m (omega arith)) ∙ ap value e ∙ value-digits (suc n) n (omega arith)
