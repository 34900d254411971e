-- ===== src/Prelude/Floats.antt =====
-- `float64` of Go for numbers that are not negative: a fraction with 53 bits, rounded to the nearest and from
-- the middle to the even one. The exponent has no bounds.
pub mod Rounding
use Prim.Native.Nat.{ℕ, zero, suc, ◌+◌, ◌-◌, ◌*◌, ◌/◌, ◌%◌, ◌≤◌, ◌<◌}
use native.Mathlib.Nat.{
  mul-le-mul_left, le_of_mul-le-mul_left, mul-le-mul, mul-pos, div-mul-le_self, mod-eq-sub-div-mul,
}
use ldf.Prelude.Tests.{ltb, ◌==◌, if◌then◌else◌, Bool-cases}
use mathlib.Core.Logic.{inl, inr}
use mathlib.Core.Bool.{true, false}
use mathlib.Core.Path.{◌≡◌, refl}
use native.Mathlib.Omega.{arith}

pub record Float : Type 0 where
  pub num : ℕ
  pub den : ℕ

half_even : ℕ → ℕ → ℕ
half_even n d =
    let q = n / d in
    let r = n % d in
    if ltb (2 * r) d then q else if ltb d (2 * r) then q + 1 else if q % 2 == 0 then q else q + 1

-- Doubles the denominator while the fraction has more than 53 bits, and what it is multiplied by.
shrink : ℕ → ℕ → ℕ → ℕ → ℕ × ℕ
shrink zero n d k = (d, k)
shrink (suc f) n d k = elim (ltb n (9007199254740992 * d)) [
  | true ↦ (d, k)
  | false ↦ shrink f n (2 * d) (2 * k)
]

-- Doubles the numerator while the fraction has fewer than 53 bits.
grow : ℕ → ℕ → ℕ → ℕ → ℕ × ℕ
grow zero n d k = (n, k)
grow (suc f) n d k = elim (ltb n (4503599627370496 * d)) [
  | true ↦ grow f (2 * n) d (2 * k)
  | false ↦ (n, k)
]

-- The float that is nearest to a fraction; the fuel of the loops is above their number of rounds.
unfoldable pub round : ℕ → ℕ → Float
unfolding half_even shrink grow
round n d =
    let (d', up) = shrink n n d 1 in
    let (n', down) = grow (4503599627370496 * d') n d' 1 in
    if n == 0
    then record { num = 0; den = 1 }
    else record { num = half_even n' d' * up; den = down }

unfoldable pub of_int : ℕ → Float
unfolding round
of_int n = round n 1

unfoldable pub add_float : Float → Float → Float
unfolding round
add_float f g = round (f.num * g.den + g.num * f.den) (f.den * g.den)

unfoldable pub mul_float : Float → Float → Float
unfolding round
mul_float f g = round (f.num * g.num) (f.den * g.den)

unfoldable pub div_float : Float → Float → Float
unfolding round
div_float f g = round (f.num * g.den) (f.den * g.num)

unfoldable pub trunc : Float → ℕ
trunc f = f.num / f.den

-- A float that is at most a fraction.
pub record AtMost (f : Float) (n d : ℕ) : Type 0 where
  pub positive : 0 < f.den
  pub bounded : f.num * d ≤ n * f.den
