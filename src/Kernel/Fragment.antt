-- ===== src/Kernel/Fragment.antt =====
-- `GenerateConfigFragment` of ldfd/build/kernel/config.go: the text that is written to the file.
use ldf.Prelude.{
  Text, codes, text_eq, text_eq_iff, Bool, true, false, ◌||◌, ◌&&◌, ltb, ◌==◌, if◌then◌else◌, [],
  ◌∷◌, ◌++◌, none, some, ◌≡◌, refl, arith, ◌∙◌,
}
use ldf.Kernel.Options.{Options, lookup, IsUnique}

-- The order of `sort.Strings`.
unfoldable pub text_le : Text → Text → Bool
text_le [] t = true
text_le (a ∷ s) [] = false
text_le (a ∷ s) (b ∷ t) = ltb a b || (a == b && text_le s t)

unfoldable pub insert_sorted : Text → Text → Options → Options
unfolding text_le
insert_sorted key value [] = (key, value) ∷ []
insert_sorted key value ((k, v) ∷ m) =
    let rest = insert_sorted key value m in
    if text_le key k then (key, value) ∷ (k, v) ∷ m else (k, v) ∷ rest

-- The entries in the order of their keys.
unfoldable pub sorted : Options → Options
unfolding insert_sorted
sorted [] = []
sorted ((k, v) ∷ m) = insert_sorted k v (sorted m)

-- The `switch` on the value, without the line's end.
unfoldable pub config_line : Text → Text → Text
unfolding text_eq
config_line key value =
    if text_eq value (codes "y") || text_eq value (codes "m")
    then key ++ b'=' ∷ value
    else if text_eq value (codes "n")
    then codes "# " ++ (key ++ codes " is not set")
    else key ++ (codes "=\"" ++ (value ++ codes "\""))

unfoldable pub config_lines : Options → Text
unfolding config_line
config_lines [] = []
config_lines ((k, v) ∷ m) = config_line k v ++ 10 ∷ config_lines m

unfoldable pub generate_config_fragment : Options → Text
unfolding sorted config_lines
generate_config_fragment options = config_lines (sorted options)

text_le_refl : (s : Text) → text_le s s ≡ true
unfolding text_le
text_le_refl [] = refl
text_le_refl (c ∷ s) = ground (arith, text_le_refl s)

lookup-insert_sorted :
    (key value j : Text) (m : Options)
    → lookup j (insert_sorted key value m) ≡ (if text_eq j key then some value else lookup j m)
unfolding lookup insert_sorted
lookup-insert_sorted key value j [] = refl
lookup-insert_sorted key value j ((k, v) ∷ m) = ground (
  arith,
  lookup-insert_sorted key value j m,
  text_le_refl key,
  text_eq_iff j key,
  text_eq_iff j k,
)

insert_sorted-IsUnique :
    (key value : Text) (m : Options)
    → IsUnique m
    → lookup key m ≡ none
    → IsUnique (insert_sorted key value m)
unfolding lookup insert_sorted
insert_sorted-IsUnique key value [] u h = (refl, tt)
insert_sorted-IsUnique key value ((k, v) ∷ m) u h = ground (
  arith,
  lookup-insert_sorted key value k m,
  insert_sorted-IsUnique key value m u.1,
  text_eq_iff key k,
  text_eq_iff k key,
)

-- Sorting keeps the value of every key.
pub lookup-sorted : (m : Options) (j : Text) → lookup j (sorted m) ≡ lookup j m
unfolding lookup sorted
lookup-sorted [] j = refl
lookup-sorted ((k, v) ∷ m) j =
    ground (arith, lookup-insert_sorted k v j (sorted m), lookup-sorted m j)

pub sorted-IsUnique : (m : Options) → IsUnique m → IsUnique (sorted m)
unfolding lookup sorted
sorted-IsUnique [] u = tt
sorted-IsUnique ((k, v) ∷ m) u =
    insert_sorted-IsUnique k v (sorted m) (sorted-IsUnique m u.1) (lookup-sorted m k ∙ u.0)
