-- ===== src/Prelude/Decimal.antt =====
-- `%d` of Go's `fmt` on an unsigned number.
use Prim.Native.Nat.{ℕ, zero, suc, ◌/◌, ◌%◌, ◌<◌}
use Prim.Native.String.{String, ◌++◌}
use mathlib.Core.Path.{◌≡◌, refl}
use mathlib.Core.List.{List, [], ◌∷◌}
use native.Mathlib.Omega.{arith}
use envoy_control_plane.Prelude.Tests.{if◌then◌else◌, ltb}

nth_digit : ℕ → List String → String
nth_digit i [] = "9"
nth_digit zero (d ∷ ds) = d
nth_digit (suc i) (d ∷ ds) = nth_digit i ds

pub digit : ℕ → String
unfolding nth_digit
digit d = nth_digit d ("0" ∷ "1" ∷ "2" ∷ "3" ∷ "4" ∷ "5" ∷ "6" ∷ "7" ∷ "8" ∷ [])

-- One digit for each unit of fuel; the number itself is more fuel than it has digits.
decimal_from : ℕ → ℕ → String
decimal_from zero n = ""
decimal_from (suc fuel) n =
    let high = decimal_from fuel (n / 10) in if ltb n 10 then digit n else high ++ digit (n % 10)

unfoldable pub decimal : ℕ → String
unfolding decimal_from digit
decimal n = decimal_from (suc n) n

decimal_from_enough : (f g n : ℕ) → n < f → n < g → decimal_from f n ≡ decimal_from g n
unfolding decimal_from
decimal_from_enough zero g n h k = absurd (omega arith)
decimal_from_enough (suc f) zero n h k = absurd (omega arith)
decimal_from_enough (suc f) (suc g) n h k = ground (arith, decimal_from_enough f g (n / 10))

-- The fuel is always enough: the text satisfies the equation of the digits.
pub decimal_lem :
    (n : ℕ) → decimal n ≡ (if ltb n 10 then digit n else decimal (n / 10) ++ digit (n % 10))
unfolding decimal_from
decimal_lem n = unfold decimal in ground (arith, decimal_from_enough n (suc (n / 10)) (n / 10))

decimal_tests : (decimal 0 ≡ "0") × (decimal 8080 ≡ "8080") × (decimal 4294967295 ≡ "4294967295")
unfolding decimal
decimal_tests = (refl, refl, refl)
