-- ===== src/Prelude/Strings.antt =====
-- Go strings as lists of bytes, and the functions of the package `strings` that the program calls.
-- The texts are ASCII: `to_lower` folds the letters A to Z, `is_space` knows the ASCII spaces.
use Prim.Native.Nat.{ℕ, zero, suc, ◌+◌, ◌-◌, ◌/◌, ◌%◌}
use Prim.Native.Char.{code}
use Prim.Native.String.{String}
use mathlib.Core.Bool.{Bool, true, false, ◌&&◌, ◌||◌}
use mathlib.Core.List.{List, [], ◌∷◌, ◌++◌, map, reverse}
use ldf.Prelude.Tests.{leb, ltb, ◌==◌, if◌then◌else◌}
use ldf.Prelude.Lists.{length, drop}

abbrev pub Text : Type 0
Text = List ℕ

-- The bytes of a literal.
abbrev pub codes : String → Text
codes String.[] = []
codes (String.◌∷◌ c s) = code c ∷ codes s

unfoldable pub text_eq : Text → Text → Bool
text_eq [] [] = true
text_eq (a ∷ s) (b ∷ t) = a == b && text_eq s t
text_eq _ _ = false

unfoldable pub to_lower_byte : ℕ → ℕ
to_lower_byte c = if leb b'A' c && leb c b'Z' then c + 32 else c

unfoldable pub to_lower : Text → Text
unfolding to_lower_byte
to_lower = map to_lower_byte

unfoldable pub has_prefix : Text → Text → Bool
has_prefix s [] = true
has_prefix [] (b ∷ t) = false
has_prefix (a ∷ s) (b ∷ t) = a == b && has_prefix s t

unfoldable pub trim_prefix : Text → Text → Text
unfolding has_prefix
trim_prefix s p = if has_prefix s p then drop (length p) s else s

-- The text ends with `t`: it is `t`, or what follows its first byte ends with `t`.
unfoldable pub has_suffix : Text → Text → Bool
unfolding text_eq
has_suffix [] t = text_eq [] t
has_suffix (a ∷ s) t = text_eq (a ∷ s) t || has_suffix s t

unfoldable pub trim_suffix : Text → Text → Text
unfolding text_eq
trim_suffix [] t = []
trim_suffix (a ∷ s) t = let rest = trim_suffix s t in if text_eq (a ∷ s) t then [] else a ∷ rest

unfoldable pub contains : Text → Text → Bool
unfolding has_prefix
contains [] t = has_prefix [] t
contains (a ∷ s) t = has_prefix (a ∷ s) t || contains s t

prepend_byte : ℕ → List Text → List Text
prepend_byte c [] = (c ∷ []) ∷ []
prepend_byte c (p ∷ ps) = (c ∷ p) ∷ ps

-- `strings.Split` at a separator of one byte: one part more than there are separators.
unfoldable pub split_on : ℕ → Text → List Text
unfolding prepend_byte
split_on sep [] = [] ∷ []
split_on sep (c ∷ s) =
    let rest = split_on sep s in if c == sep then [] ∷ rest else prepend_byte c rest

unfoldable pub join : Text → List Text → Text
join sep [] = []
join sep (p ∷ []) = p
join sep (p ∷ q ∷ ps) = p ++ (sep ++ join sep (q ∷ ps))

unfoldable pub is_space : ℕ → Bool
is_space c = c == 32 || (leb 9 c && leb c 13)

unfoldable pub trim_left : Text → Text
trim_left [] = []
trim_left (c ∷ s) = let rest = trim_left s in if is_space c then rest else c ∷ s

unfoldable pub trim_space : Text → Text
unfolding trim_left is_space
trim_space s = reverse (trim_left (reverse (trim_left s)))

-- `skip` bytes of an occurrence that was replaced are still to be passed over.
unfoldable pub replace_from : Text → Text → ℕ → Text → Text
unfolding has_prefix
replace_from old new skip [] = []
replace_from old new (suc skip) (c ∷ s) = replace_from old new skip s
replace_from old new zero (c ∷ s) =
    let hit = has_prefix (c ∷ s) old in
    (if hit then new else c ∷ []) ++ replace_from old new (if hit then length old - 1 else 0) s

-- `strings.ReplaceAll` for an `old` that is not empty.
unfoldable pub replace_all : Text → Text → Text → Text
unfolding replace_from
replace_all s old new = replace_from old new 0 s

-- `%d` of a number, with fuel above its number of digits.
print_from : ℕ → ℕ → Text → Text
print_from zero n out = out
print_from (suc f) n out =
    let more = print_from f (n / 10) ((b'0' + n % 10) ∷ out) in
    if ltb n 10 then (b'0' + n) ∷ out else more

unfoldable pub print_nat : ℕ → Text
unfolding print_from
print_nat n = print_from (suc n) n []
