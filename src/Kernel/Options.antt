-- ===== src/Kernel/Options.antt =====
-- The Go map of kernel options as an association list, and `MergeConfigOptions`
-- (ldfd/build/kernel/config.go). A map has each key once: `IsUnique`.
use ldf.Prelude.{
  Text, text_eq, text_eq_iff, if◌then◌else◌, List, [], ◌∷◌, Option, none, some, ◌≡◌, refl, arith,
}

abbrev pub Options : Type 0
Options = List (Text × Text)

unfoldable pub lookup : Text → Options → Option Text
unfolding text_eq
lookup key [] = none
lookup key ((k, v) ∷ m) = if text_eq key k then some v else lookup key m

-- `options[key] = value`
unfoldable pub set_option : Text → Text → Options → Options
unfolding text_eq
set_option key value [] = (key, value) ∷ []
set_option key value ((k, v) ∷ m) =
    let rest = set_option key value m in if text_eq key k then (key, value) ∷ m else (k, v) ∷ rest

-- Every entry of a map, or of a list of assignments, written into another map.
unfoldable pub set_all : Options → Options → Options
unfolding set_option
set_all [] m = m
set_all ((k, v) ∷ entries) m = set_all entries (set_option k v m)

unfoldable pub merge_config_options : Options → Options → Options
unfolding set_all
merge_config_options base override = set_all override (set_all base [])

abbrev pub IsUnique : Options → Type 0
IsUnique [] = Unit
IsUnique ((k, v) ∷ m) = (lookup k m ≡ none) × IsUnique m

pub lookup-set_option :
    (key j value : Text) (m : Options)
    → lookup j (set_option key value m) ≡ (if text_eq j key then some value else lookup j m)
unfolding lookup set_option
lookup-set_option key j value [] = refl
lookup-set_option key j value ((k, v) ∷ m) =
    ground (
      arith,
      lookup-set_option key j value m,
      text_eq_iff key k,
      text_eq_iff j key,
      text_eq_iff j k,
    )

pub set_option-IsUnique :
    (key value : Text) (m : Options) → IsUnique m → IsUnique (set_option key value m)
unfolding lookup set_option
set_option-IsUnique key value [] u = (refl, tt)
set_option-IsUnique key value ((k, v) ∷ m) u = ground (
  arith,
  lookup-set_option key k value m,
  set_option-IsUnique key value m u.1,
  text_eq_iff key k,
  text_eq_iff k key,
)

abbrev pub or_else : Option Text → Option Text → Option Text
or_else none other = other
or_else (some v) other = some v

pub lookup-set_all :
    (entries m : Options) (j : Text)
    → IsUnique entries
    → lookup j (set_all entries m) ≡ or_else (lookup j entries) (lookup j m)
unfolding lookup set_all
lookup-set_all [] m j u = refl
lookup-set_all ((k, v) ∷ entries) m j u = ground (
  arith,
  lookup-set_all entries (set_option k v m) j u.1,
  lookup-set_option k j v m,
  text_eq_iff j k,
)

pub set_all-IsUnique : (entries m : Options) → IsUnique m → IsUnique (set_all entries m)
unfolding set_all
set_all-IsUnique [] m u = u
set_all-IsUnique ((k, v) ∷ entries) m u =
    set_all-IsUnique entries (set_option k v m) (set_option-IsUnique k v m u)

lookup-nil : (key : Text) → lookup key [] ≡ none
unfolding lookup
lookup-nil key = refl

-- In the merge of two maps every key has the overriding map's value, or the base's where that has
-- none; and the merge is a map again.
pub lookup-merge_config_options :
    (base override : Options) (key : Text)
    → IsUnique base
    → IsUnique override
    → (lookup key (merge_config_options base override)
        ≡ or_else (lookup key override) (lookup key base))
      × IsUnique (merge_config_options base override)
unfolding merge_config_options
lookup-merge_config_options base override key u w = (
  ground (
    arith,
    lookup-set_all override (set_all base []) key w,
    lookup-set_all base [] key u,
    lookup-nil key,
  ),
  set_all-IsUnique override (set_all base []) (set_all-IsUnique base [] tt),
)
