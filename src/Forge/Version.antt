-- ===== src/Forge/Version.antt =====
-- `compareVersions` and `splitVersionPart` of ldfd/forge/github.go (the same code stands in
-- ldfd/download/discovery.go). An `int` is a word of 64 bits: from 2 ^ 63 on it is negative.
pub mod Order
pub mod Sorting
use ldf.Prelude.{
  ℕ, zero, suc, ◌+◌, ◌-◌, ◌*◌, ◌%◌, Text, text_eq, split_on, Bool, true, false, ◌&&◌, leb, ltb,
  ◌==◌, if◌then◌else◌, List, [], ◌∷◌, is_nil, length,
}

abbrev pub word_size : ℕ
word_size = 18446744073709551616

abbrev pub minus_one : ℕ
minus_one = 18446744073709551615

-- The sign of an `int`.
pub data Sign : Type 0 where
  minus nul plus : Sign

unfoldable pub sign : ℕ → Sign
sign w = if w == 0 then nul else if ltb w 9223372036854775808 then plus else minus

-- The loop over the digits, with the number read so far.
unfoldable pub digits_from : ℕ → Text → ℕ × Text
digits_from num [] = (num, [])
digits_from num (c ∷ s) =
    let rest = digits_from ((num * 10 + (c - b'0')) % word_size) s in
    if leb b'0' c && leb c b'9' then rest else (num, c ∷ s)

unfoldable pub split_version_part : Text → ℕ × Text
unfolding digits_from
split_version_part part = digits_from 0 part

-- `strings.Compare`
unfoldable pub text_compare : Text → Text → ℕ
text_compare [] [] = 0
text_compare [] (b ∷ t) = minus_one
text_compare (a ∷ s) [] = 1
text_compare (a ∷ s) (b ∷ t) =
    let rest = text_compare s t in if ltb a b then minus_one else if ltb b a then 1 else rest

unfoldable pub compare_suffixes : Text → Text → ℕ
unfolding text_eq text_compare
compare_suffixes s1 s2 =
    if text_eq s1 s2
    then 0
    else if is_nil s1
    then 1
    else if is_nil s2
    then minus_one
    else text_compare s1 s2

-- One round of the loop: 0 goes on to the next part.
unfoldable pub compare_split : ℕ × Text → ℕ × Text → ℕ
unfolding compare_suffixes
compare_split (n1, s1) (n2, s2) =
    if n1 == n2 then compare_suffixes s1 s2 else (n1 + word_size - n2) % word_size

-- The part at the loop's index, empty past the end, and the parts behind it.
abbrev pub first_part : List Text → Text
first_part [] = []
first_part (p ∷ ps) = p

abbrev pub later_parts : List Text → List Text
later_parts [] = []
later_parts (p ∷ ps) = ps

-- The loop, with the number of rounds that are left.
unfoldable pub compare_parts : ℕ → List Text → List Text → ℕ
unfolding split_version_part compare_split
compare_parts zero ps qs = 0
compare_parts (suc n) ps qs =
    let r =
      compare_split (split_version_part (first_part ps)) (split_version_part (first_part qs)) in
    let rest = compare_parts n (later_parts ps) (later_parts qs) in if r == 0 then rest else r

unfoldable pub max_len : List Text → List Text → ℕ
max_len ps qs = if ltb (length ps) (length qs) then length qs else length ps

unfoldable pub compare_versions : Text → Text → ℕ
unfolding split_on compare_parts max_len
compare_versions v1 v2 =
    let parts1 = split_on b'.' v1 in
    let parts2 = split_on b'.' v2 in compare_parts (max_len parts1 parts2) parts1 parts2
