-- ===== src/Prelude/Floats/Rounding.antt =====
-- How far a rounding is from the fraction, and that its loops have enough fuel.
use Prim.Native.Nat.{ℕ, zero, suc, ◌+◌, ◌-◌, ◌*◌, ◌/◌, ◌%◌, ◌≤◌, ◌<◌}
use native.Mathlib.Nat.{
  mul-le-mul_left, le_of_mul-le-mul_left, mul-le-mul, mul-pos, div-mul-le_self, mod-eq-sub-div-mul,
}
use ldf.Prelude.Tests.{ltb, ◌==◌, Bool-cases}
use mathlib.Core.Logic.{inl, inr}
use mathlib.Core.Path.{◌≡◌, refl}
use native.Mathlib.Omega.{arith}
use ldf.Prelude.Floats.{
  Float, half_even, shrink, grow, round, of_int, add_float, mul_float, div_float, trunc, AtMost,
}

half_even_near : (n d : ℕ) → 0 < d → 2 * (half_even n d * d) ≤ 2 * n + d
unfolding half_even
half_even_near n d h =
    let q = n / d in
    let below : q * d ≤ n = div-mul-le_self n d in
    let rest : n % d ≡ n - q * d = mod-eq-sub-div-mul n d in
    elim (Bool-cases (ltb (2 * (n % d)) d)) [
      | inl e ↦ rw (e, half_even) (omega arith)
      | inr e ↦
          let half : d ≤ 2 * (n % d) = ground arith in
          elim (Bool-cases (ltb d (2 * (n % d)))) [
            | inl e' ↦ rw (e, e', half_even) (omega arith)
            | inr e' ↦ elim (Bool-cases (q % 2 == 0)) [
              | inl e'' ↦ rw (e, e', e'', half_even) (omega arith)
              | inr e'' ↦ rw (e, e', e'', half_even) (omega arith)
            ]
          ]
    ]

shrink-keeps :
    (f n d k : ℕ)
    → 0 < d
    → (0 < (shrink f n d k).0) × ((shrink f n d k).0 * k ≡ d * (shrink f n d k).1)
unfolding shrink
shrink-keeps zero n d k h = (h, refl)
shrink-keeps (suc f) n d k h = elim (Bool-cases (ltb n (9007199254740992 * d))) [
  | inl e ↦ rw (e, shrink) (h, refl)
  | inr e ↦
      let (p, same) = shrink-keeps f n (2 * d) (2 * k) (omega arith) in
      rw (e, shrink) (p, omega arith)
]

-- What the fuel is enough for.
doubled : ℕ → ℕ → ℕ
doubled zero n = n
doubled (suc f) n = doubled f (2 * n)

le-doubled : (f n : ℕ) → 0 < n → n + f ≤ doubled f n
unfolding doubled
le-doubled zero n h = omega arith
le-doubled (suc f) n h = let later = le-doubled f (2 * n) (omega arith) in omega arith

grow-keeps :
    (f n d k : ℕ)
    → 0 < k
    → 4503599627370496 * d ≤ doubled f n
    → (0 < (grow f n d k).1)
      × (4503599627370496 * d ≤ (grow f n d k).0)
      × ((grow f n d k).0 * k ≡ n * (grow f n d k).1)
unfolding grow doubled
grow-keeps zero n d k p h = (p, h, refl)
grow-keeps (suc f) n d k p h = elim (Bool-cases (ltb n (4503599627370496 * d))) [
  | inl e ↦
      let (q, full, same) = grow-keeps f (2 * n) d (2 * k) (omega arith) h in
      rw (e, grow) (q, full, omega arith)
  | inr e ↦ rw (e, grow) (p, ground arith, refl)
]

shrink-below :
    (f n d k : ℕ) → n < 9007199254740992 * doubled f d → n < 9007199254740992 * (shrink f n d k).0
unfolding shrink doubled
shrink-below zero n d k h = h
shrink-below (suc f) n d k h = elim (Bool-cases (ltb n (9007199254740992 * d))) [
  | inl e ↦ rw (e, shrink) (ground arith)
  | inr e ↦ rw (e, shrink) (shrink-below f n (2 * d) (2 * k) h)
]

grow-below : (f n d k : ℕ) → n < 9007199254740992 * d → (grow f n d k).0 < 9007199254740992 * d
unfolding grow
grow-below zero n d k h = h
grow-below (suc f) n d k h = elim (Bool-cases (ltb n (4503599627370496 * d))) [
  | inl e ↦ rw (e, grow) (grow-below f (2 * n) d (2 * k) (ground arith))
  | inr e ↦ rw (e, grow) h
]

-- The fuel is enough: the loops of a rounding leave a fraction whose whole part has just 53 bits.
loops_end :
    (x y : ℕ)
    → 0 < x
    → 0 < y
    → let d = (shrink x x y 1).0 in
      let n = (grow (4503599627370496 * d) x d 1).0 in
      (4503599627370496 * d ≤ n) × (n < 9007199254740992 * d)
loops_end x y p q =
    let d = (shrink x x y 1).0 in
    let fuel = 4503599627370496 * d in
    let shrinks = le-doubled x y q in
    let below = shrink-below x x y 1 (omega arith) in
    let grows = le-doubled fuel x p in
    let (r, full, kept) = grow-keeps fuel x d 1 (omega arith) (omega arith) in
    (full, grow-below fuel x d 1 below)

-- The arithmetic of a rounding: the fraction x / y is m / c up to the powers of two u and v.
rounded :
    (x y n d c u m v h : ℕ)
    → 0 < y
    → x * d ≤ n * y
    → 0 < c
    → 2 * (h * c) ≤ 2 * m + c
    → 4503599627370496 * c ≤ m
    → m ≡ x * v
    → c ≡ y * u
    → h * u * (d * 9007199254740992) ≤ n * 9007199254740993 * v
rounded x y n d c u m v h p frac q near full mx cy =
    let bits : 9007199254740992 * (h * c) ≤ 9007199254740993 * m = omega arith in
    let bits' : 9007199254740992 * (h * (y * u)) ≤ 9007199254740993 * (x * v) =
      rw cy at (rw mx at bits) in
    let by_d = mul-le-mul_left d bits' in
    let by_v = mul-le-mul_left (9007199254740993 * v) frac in
    let all : y * (h * u * (d * 9007199254740992)) ≤ y * (n * 9007199254740993 * v) = omega arith in
    le_of_mul-le-mul_left all p

-- Rounding adds at most half a unit of the 53rd bit.
round-AtMost :
    (x y n d : ℕ)
    → 0 < y
    → x * d ≤ n * y
    → AtMost (round x y) (n * 9007199254740993) (d * 9007199254740992)
unfolding round
round-AtMost x y n d p h =
    let small = shrink x x y 1 in
    let (q, scaled) = shrink-keeps x x y 1 p in
    let fuel = 4503599627370496 * small.0 in
    let large = grow fuel x small.0 1 in
    elim (Bool-cases (x == 0)) [
      | inl e ↦ rw (e, round) record { positive = omega arith; bounded = omega arith }
      | inr e ↦
          let filled : 0 < x = ground arith in
          let enough = le-doubled fuel x filled in
          let (r, full, kept) = grow-keeps fuel x small.0 1 (omega arith) (omega arith) in
          let near = half_even_near large.0 small.0 q in
          rw (e, round)
            record {
              positive = r;
              bounded =
                  rounded x y n d small.0 small.1 large.0 large.1 (half_even large.0 small.0) p h q
                    near full (omega arith) (omega arith);
            }
    ]

pub of_int-AtMost : (n : ℕ) → AtMost (of_int n) (n * 9007199254740993) 9007199254740992
unfolding of_int
of_int-AtMost n =
    let r = round-AtMost n 1 n 1 (omega arith) (omega arith) in
    record { positive = r.positive; bounded = let b = r.bounded in omega arith }

pub mul_float-AtMost :
    (f g : Float) (n d n' d' : ℕ)
    → AtMost f n d
    → AtMost g n' d'
    → AtMost (mul_float f g) (n * n' * 9007199254740993) (d * d' * 9007199254740992)
unfolding mul_float
mul_float-AtMost f g n d n' d' a b =
    let both = mul-le-mul a.bounded b.bounded in
    round-AtMost (f.num * g.num) (f.den * g.den) (n * n') (d * d') (mul-pos a.positive b.positive)
      (omega arith)

pub add_float-AtMost :
    (f g : Float) (n n' d : ℕ)
    → AtMost f n d
    → AtMost g n' d
    → AtMost (add_float f g) ((n + n') * 9007199254740993) (d * 9007199254740992)
unfolding add_float
add_float-AtMost f g n n' d a b =
    let first = mul-le-mul_left g.den a.bounded in
    let second = mul-le-mul_left f.den b.bounded in
    round-AtMost (f.num * g.den + g.num * f.den) (f.den * g.den) (n + n') d
      (mul-pos a.positive b.positive) (omega arith)

-- A division by a whole number.
pub div_float-AtMost :
    (f : Float) (k n d : ℕ)
    → 0 < k
    → AtMost f n d
    → AtMost
        (div_float f record { num = k; den = 1 })
        (n * 9007199254740993)
        (k * d * 9007199254740992)
unfolding div_float
div_float-AtMost f k n d p a =
    let by_k = mul-le-mul_left k a.bounded in
    round-AtMost (f.num * 1) (f.den * k) n (k * d) (mul-pos a.positive p) (omega arith)

pub trunc-bound : (f : Float) (n d : ℕ) → AtMost f n d → trunc f * d ≤ n
unfolding trunc
trunc-bound f n d a =
    let below = mul-le-mul_left d (div-mul-le_self f.num f.den) in
    let bound = a.bounded in
    let all : f.den * (f.num / f.den * d) ≤ f.den * n = omega arith in
    le_of_mul-le-mul_left all a.positive
