-- ===== src/Forge/Version/Order.antt =====
-- The order of versions (ldfd/forge/github.go) is one that `sort.Slice` may sort by.
use ldf.Prelude.{
  ℕ, suc, ◌<◌, Text, text_eq, text_eq_iff, text_eq_refl, true, ltb, if◌then◌else◌, List, [], ◌∷◌,
  is_nil, ◌≡◌, refl, ap₂, arith,
}
use ldf.Forge.Version.{
  Sign, minus, nul, plus, sign, minus_one, split_version_part, text_compare, compare_suffixes,
  compare_split, first_part, later_parts, compare_parts,
}

abbrev pub flip : Sign → Sign
flip minus = plus
flip nul = nul
flip plus = minus

sign-values : (sign 0 ≡ nul) × (sign 1 ≡ plus) × (sign minus_one ≡ minus)
unfolding sign
sign-values = (refl, refl, refl)

text_compare-flip : (s t : Text) → sign (text_compare t s) ≡ flip (sign (text_compare s t))
unfolding text_compare sign
text_compare-flip [] [] = refl
text_compare-flip [] (b ∷ t) = refl
text_compare-flip (a ∷ s) [] = refl
text_compare-flip (a ∷ s) (b ∷ t) = ground (arith, text_compare-flip s t)

text_compare-nul : (s t : Text) → sign (text_compare s t) ≡ nul → s ≡ t
unfolding text_compare sign
text_compare-nul [] [] h = refl
text_compare-nul [] (b ∷ t) h = ground arith
text_compare-nul (a ∷ s) [] h = ground arith
text_compare-nul (a ∷ s) (b ∷ t) h = ground (arith, text_compare-nul s t)

text_compare-rises :
    (s t u : Text)
    → sign (text_compare s t) ≡ plus
    → sign (text_compare t u) ≡ plus
    → sign (text_compare s u) ≡ plus
unfolding text_compare sign
text_compare-rises [] [] u h k = ground arith
text_compare-rises [] (b ∷ t) u h k = ground arith
text_compare-rises (a ∷ s) t [] h k = refl
text_compare-rises (a ∷ s) [] (c ∷ u) h k = ground arith
text_compare-rises (a ∷ s) (b ∷ t) (c ∷ u) h k = ground (arith, text_compare-rises s t u)

compare_suffixes-nul : (s t : Text) → sign (compare_suffixes s t) ≡ nul → s ≡ t
unfolding compare_suffixes
compare_suffixes-nul s t h = ground (arith, text_eq_iff s t, text_compare-nul s t, sign-values)

compare_suffixes-same : (s : Text) → compare_suffixes s s ≡ 0
unfolding compare_suffixes
compare_suffixes-same s = ground (arith, text_eq_refl s)

text_eq_sym : (s t : Text) → text_eq s t ≡ text_eq t s
text_eq_sym s t = ground (arith, text_eq_iff s t, text_eq_iff t s)

nil_eq : (s t : Text) → is_nil s ≡ true → is_nil t ≡ true → s ≡ t
nil_eq [] [] h k = refl
nil_eq [] (c ∷ t) h k = ground arith
nil_eq (c ∷ s) t h k = ground arith

compare_suffixes-flip :
    (s t : Text) → sign (compare_suffixes t s) ≡ flip (sign (compare_suffixes s t))
unfolding compare_suffixes
compare_suffixes-flip s t =
    ground (arith, text_eq_sym s t, text_eq_iff s t, nil_eq s t, text_compare-flip s t, sign-values)

compare_suffixes-rises :
    (s t u : Text)
    → sign (compare_suffixes s t) ≡ plus
    → sign (compare_suffixes t u) ≡ plus
    → sign (compare_suffixes s u) ≡ plus
unfolding compare_suffixes
compare_suffixes-rises s t u h k = ground (
  arith,
  text_eq_iff s t,
  text_eq_iff t u,
  text_eq_iff s u,
  nil_eq s t,
  nil_eq t u,
  nil_eq s u,
  text_compare-rises s t u,
  text_compare-flip s t,
  sign-values,
)

-- The sign of one round, for numbers that are not negative.
sign-compare_split :
    (n1 n2 : ℕ) (s1 s2 : Text)
    → n1 < 9223372036854775808
    → n2 < 9223372036854775808
    → sign (compare_split (n1, s1) (n2, s2))
      ≡ (if ltb n2 n1 then plus else if ltb n1 n2 then minus else sign (compare_suffixes s1 s2))
unfolding compare_split sign
sign-compare_split n1 n2 s1 s2 h k = ground arith

-- A text whose number, as it is computed, is not negative.
abbrev pub IsSmall : Text → Type 0
IsSmall part = (split_version_part part).0 < 9223372036854775808

unfoldable pub round : Text → Text → Sign
round p q = sign (compare_split (split_version_part p) (split_version_part q))

sign-round :
    (p q : Text)
    → IsSmall p
    → IsSmall q
    → round p q ≡ (
        if ltb (split_version_part q).0 (split_version_part p).0
        then plus
        else if ltb (split_version_part p).0 (split_version_part q).0
        then minus
        else sign (compare_suffixes (split_version_part p).1 (split_version_part q).1))
unfolding round
sign-round p q h k =
    sign-compare_split (split_version_part p).0 (split_version_part q).0 (split_version_part p).1
      (split_version_part q).1 h k

pub round-same : (p : Text) → round p p ≡ nul
unfolding round compare_split sign
round-same p = ground (arith, compare_suffixes-same (split_version_part p).1)

pub round-flip : (p q : Text) → IsSmall p → IsSmall q → round q p ≡ flip (round p q)
round-flip p q h k = ground (
  arith,
  sign-round p q h k,
  sign-round q p k h,
  compare_suffixes-flip (split_version_part p).1 (split_version_part q).1,
)

pub round-rises :
    (p q r : Text)
    → IsSmall p
    → IsSmall q
    → IsSmall r
    → round p q ≡ plus
    → round q r ≡ plus
    → round p r ≡ plus
round-rises p q r hp hq hr h k = ground (
  arith,
  sign-round p q hp hq,
  sign-round q r hq hr,
  sign-round p r hp hr,
  compare_suffixes-rises (split_version_part p).1 (split_version_part q).1 (split_version_part r).1,
)

round-nul :
    (p q : Text)
    → IsSmall p
    → IsSmall q
    → round p q ≡ nul
    → split_version_part p ≡ split_version_part q
round-nul p q hp hq h =
    let number : (split_version_part p).0 ≡ (split_version_part q).0 =
      ground (arith, sign-round p q hp hq) in
    let suffix : (split_version_part p).1 ≡ (split_version_part q).1 =
      compare_suffixes-nul (split_version_part p).1 (split_version_part q).1
        (ground (arith, sign-round p q hp hq)) in
    ap₂ (λ n s. (n, s)) number suffix

pub round-ties : (p q r : Text) → IsSmall p → IsSmall q → round p q ≡ nul → round p r ≡ round q r
unfolding round
round-ties p q r hp hq h = rw (round-nul p q hp hq h) refl

-- The sign of the whole comparison with `n` rounds.
unfoldable pub ranked : ℕ → List Text → List Text → Sign
ranked n ps qs = sign (compare_parts n ps qs)

pub ranked-suc :
    (n : ℕ) (ps qs : List Text)
    → ranked (suc n) ps qs ≡ elim (round (first_part ps) (first_part qs)) [
      | nul ↦ ranked n (later_parts ps) (later_parts qs)
      | plus ↦ plus
      | minus ↦ minus
    ]
unfolding ranked round compare_parts sign
ranked-suc n ps qs = ground arith
