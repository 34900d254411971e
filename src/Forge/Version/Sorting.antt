-- ===== src/Forge/Version/Sorting.antt =====
-- The comparison of whole versions (ldfd/forge/github.go) ranks them: `sort.Slice` may sort by it.
use ldf.Prelude.{
  ℕ, zero, suc, ◌+◌, ◌-◌, ◌≤◌, Text, split_on, List, [], ◌∷◌, length, All, ◌≡◌, refl, sym, ap, ◌∙◌,
  arith,
}
use ldf.Forge.Version.{
  nul, plus, sign, first_part, later_parts, compare_parts, split_version_part, max_len,
  compare_versions,
}
use ldf.Forge.Version.Order.{
  flip, IsSmall, round-same, round-flip, round-rises, round-ties, ranked, ranked-suc,
}

abbrev pub AreSmall : List Text → Type 0
AreSmall = All IsSmall

empty-IsSmall : IsSmall []
unfolding split_version_part
empty-IsSmall = omega arith

first-IsSmall : (ps : List Text) → AreSmall ps → IsSmall (first_part ps)
first-IsSmall [] h = empty-IsSmall
first-IsSmall (p ∷ ps) h = h.0

later-AreSmall : (ps : List Text) → AreSmall ps → AreSmall (later_parts ps)
later-AreSmall [] h = tt
later-AreSmall (p ∷ ps) h = h.1

ranked-same : (n : ℕ) (ps : List Text) → ranked n ps ps ≡ nul
unfolding ranked compare_parts sign
ranked-same zero ps = refl
ranked-same (suc n) ps =
    ground (arith, ranked-suc n ps ps, round-same (first_part ps), ranked-same n (later_parts ps))

ranked-flip :
    (n : ℕ) (ps qs : List Text) → AreSmall ps → AreSmall qs → ranked n qs ps ≡ flip (ranked n ps qs)
unfolding ranked compare_parts sign
ranked-flip zero ps qs hp hq = refl
ranked-flip (suc n) ps qs hp hq = ground (
  arith,
  ranked-suc n ps qs,
  ranked-suc n qs ps,
  round-flip (first_part ps) (first_part qs) (first-IsSmall ps hp) (first-IsSmall qs hq),
  ranked-flip n (later_parts ps) (later_parts qs) (later-AreSmall ps hp) (later-AreSmall qs hq),
)

ranked-ties :
    (n : ℕ) (ps qs rs : List Text)
    → AreSmall ps
    → AreSmall qs
    → ranked n ps qs ≡ nul
    → ranked n ps rs ≡ ranked n qs rs
unfolding ranked compare_parts sign
ranked-ties zero ps qs rs hp hq h = refl
ranked-ties (suc n) ps qs rs hp hq h = ground (
  arith,
  ranked-suc n ps qs,
  ranked-suc n ps rs,
  ranked-suc n qs rs,
  round-ties (first_part ps) (first_part qs) (first_part rs) (first-IsSmall ps hp)
      (first-IsSmall qs hq),
  ranked-ties n (later_parts ps) (later_parts qs) (later_parts rs) (later-AreSmall ps hp)
      (later-AreSmall qs hq),
)

ranked-rises :
    (n : ℕ) (ps qs rs : List Text)
    → AreSmall ps
    → AreSmall qs
    → AreSmall rs
    → ranked n ps qs ≡ plus
    → ranked n qs rs ≡ plus
    → ranked n ps rs ≡ plus
unfolding ranked compare_parts sign
ranked-rises zero ps qs rs hp hq hr h k = h
ranked-rises (suc n) ps qs rs hp hq hr h k =
    let p = first_part ps in
    let q = first_part qs in
    let r = first_part rs in
    ground (
      arith,
      ranked-suc n ps qs,
      ranked-suc n ps rs,
      ranked-suc n qs rs,
      round-ties p q r (first-IsSmall ps hp) (first-IsSmall qs hq),
      round-ties r q p (first-IsSmall rs hr) (first-IsSmall qs hq),
      round-flip p q (first-IsSmall ps hp) (first-IsSmall qs hq),
      round-flip q r (first-IsSmall qs hq) (first-IsSmall rs hr),
      round-flip p r (first-IsSmall ps hp) (first-IsSmall rs hr),
      round-rises p q r (first-IsSmall ps hp) (first-IsSmall qs hq) (first-IsSmall rs hr),
      ranked-rises n (later_parts ps) (later_parts qs) (later_parts rs) (later-AreSmall ps hp)
          (later-AreSmall qs hq) (later-AreSmall rs hr),
    )

later-shorter : (n : ℕ) (ps : List Text) → length ps ≤ suc n → length (later_parts ps) ≤ n
later-shorter n [] h = omega arith
later-shorter n (p ∷ ps) h = omega (arith, h)

-- Rounds past the end of both lists change nothing.
ranked-past : (k : ℕ) → ranked k [] [] ≡ nul
ranked-past k = ranked-same k []

ranked-more :
    (n k : ℕ) (ps qs : List Text)
    → length ps ≤ n
    → length qs ≤ n
    → ranked (n + k) ps qs ≡ ranked n ps qs
unfolding ranked compare_parts sign
ranked-more zero k [] [] h l = let e : 0 + k ≡ k = omega arith in rw e (ranked-past k)
ranked-more zero k [] (q ∷ qs) h l = ground arith
ranked-more zero k (p ∷ ps) qs h l = ground arith
ranked-more (suc n) k ps qs h l =
    let e : suc n + k ≡ suc (n + k) = omega arith in
    ground (
      arith,
      e,
      ranked-suc n ps qs,
      ranked-suc (n + k) ps qs,
      ranked-more n k (later_parts ps) (later_parts qs) (later-shorter n ps h)
          (later-shorter n qs l),
    )

ranked-enough :
    (n m : ℕ) (ps qs : List Text)
    → length ps ≤ n
    → length qs ≤ n
    → n ≤ m
    → ranked m ps qs ≡ ranked n ps qs
ranked-enough n m ps qs h k l =
    let e : m ≡ n + (m - n) = omega (arith, l) in
    ap (λ i. ranked i ps qs) e ∙ ranked-more n (m - n) ps qs h k

-- The parts of a version.
abbrev pub parts_of : Text → List Text
parts_of v = split_on b'.' v

compared :
    (v w : Text) (m : ℕ)
    → length (parts_of v) ≤ m
    → length (parts_of w) ≤ m
    → sign (compare_versions v w) ≡ ranked m (parts_of v) (parts_of w)
unfolding ranked compare_versions max_len
compared v w m h k = sym (
    ranked-enough (max_len (parts_of v) (parts_of w)) m (parts_of v) (parts_of w) (ground arith)
      (ground arith) (ground arith))

-- For two versions whose parts hold numbers that are not negative when they are computed in 64 bits:
-- comparing the other way round turns the sign, and a version compares with itself as 0.
pub compare_versions-flip :
    (u v : Text)
    → AreSmall (parts_of u)
    → AreSmall (parts_of v)
    → (sign (compare_versions v u) ≡ flip (sign (compare_versions u v)))
      × (sign (compare_versions u u) ≡ nul)
compare_versions-flip u v hu hv =
    let m = length (parts_of u) + length (parts_of v) in
    let iu : length (parts_of u) ≤ m = omega arith in
    let iv : length (parts_of v) ≤ m = omega arith in
    rw (compared u u m iu iu, compared u v m iu iv, compared v u m iv iu)
      (ranked-flip m (parts_of u) (parts_of v) hu hv, ranked-same m (parts_of u))

-- For three versions whose parts hold numbers that are not negative when they are computed in 64 bits:
-- a version above a second that is above a third is above the third.
pub compare_versions-rises :
    (u v w : Text)
    → AreSmall (parts_of u)
    → AreSmall (parts_of v)
    → AreSmall (parts_of w)
    → sign (compare_versions u v) ≡ plus
    → sign (compare_versions v w) ≡ plus
    → sign (compare_versions u w) ≡ plus
compare_versions-rises u v w hu hv hw h k =
    let m = length (parts_of u) + (length (parts_of v) + length (parts_of w)) in
    let iu : length (parts_of u) ≤ m = omega arith in
    let iv : length (parts_of v) ≤ m = omega arith in
    let iw : length (parts_of w) ≤ m = omega arith in
    rw (compared u w m iu iw) (
      ranked-rises m (parts_of u) (parts_of v) (parts_of w) hu hv hw
        (sym (compared u v m iu iv) ∙ h) (sym (compared v w m iv iw) ∙ k))

-- Two versions that compare as 0, and whose parts hold numbers that are not negative when they are
-- computed in 64 bits, compare alike with every third version.
compare_versions-ties :
    (u v w : Text)
    → AreSmall (parts_of u)
    → AreSmall (parts_of v)
    → sign (compare_versions u v) ≡ nul
    → sign (compare_versions u w) ≡ sign (compare_versions v w)
compare_versions-ties u v w hu hv h =
    let m = length (parts_of u) + (length (parts_of v) + length (parts_of w)) in
    let iu : length (parts_of u) ≤ m = omega arith in
    let iv : length (parts_of v) ≤ m = omega arith in
    let iw : length (parts_of w) ≤ m = omega arith in
    rw (compared u w m iu iw, compared v w m iv iw)
      (ranked-ties m (parts_of u) (parts_of v) (parts_of w) hu hv (sym (compared u v m iu iv) ∙ h))
