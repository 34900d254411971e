-- ===== src/Download/Url/Numbers.antt =====
-- The numbers of a version as a text says them, and that ldfd/download/url_builder.go reads just these.
use ldf.Prelude.{
  Text, codes, has_prefix, split_on, replace_from, replace_all, Bool-cases, inl, inr, ◌==◌,
  if◌then◌else◌, List, [], ◌∷◌, ◌≡◌, ◌⊎◌, refl, ap,
}
use ldf.Download.Url.{components_of, parse_version_components, build_compact_version, part_or_zero}

-- The text before the first dot, and what stands behind that dot.
abbrev pub before_dot : Text → Text
before_dot [] = []
before_dot (c ∷ s) = if c == b'.' then [] else c ∷ before_dot s

abbrev pub behind_dot : Text → Text
behind_dot [] = []
behind_dot (c ∷ s) = if c == b'.' then s else behind_dot s

-- A number of a version, 0 where there is none.
abbrev pub number : Text → Text
number [] = codes "0"
number (c ∷ s) = c ∷ s

abbrev pub major_of : Text → Text
major_of v = number (before_dot v)

abbrev pub minor_of : Text → Text
minor_of v = number (before_dot (behind_dot v))

abbrev pub patch_of : Text → Text
patch_of v = number (before_dot (behind_dot (behind_dot v)))

abbrev pub without_dots : Text → Text
without_dots [] = []
without_dots (c ∷ s) = if c == b'.' then without_dots s else c ∷ without_dots s

-- A split at the dots begins with the text before the first one, and goes on with the split of the rest.
abbrev rest_of : Text → List Text
rest_of [] = []
rest_of (c ∷ s) = if c == b'.' then split_on b'.' s else rest_of s

split_on-dot : (s : Text) → split_on b'.' s ≡ before_dot s ∷ rest_of s
unfolding split_on
split_on-dot [] = refl
split_on-dot (c ∷ s) = elim (Bool-cases (c == b'.')) [
  | inl hit ↦ rw hit refl
  | inr miss ↦ rw (miss, split_on-dot s) refl
]

rest_of_cases :
    (s : Text)
    → ((rest_of s ≡ []) × (behind_dot s ≡ [])) ⊎ (rest_of s ≡ split_on b'.' (behind_dot s))
rest_of_cases [] = inl (refl, refl)
rest_of_cases (c ∷ s) = elim (Bool-cases (c == b'.')) [
  | inl hit ↦ rw hit (inr refl)
  | inr miss ↦ rw miss (rest_of_cases s)
]

part_or_zero-number : (part : Text) → part_or_zero part ≡ number part
part_or_zero-number [] = refl
part_or_zero-number (c ∷ part) = refl

-- The code reads the three numbers that stand between the dots.
pub parse_version_components-numbers :
    (v : Text) → parse_version_components v ≡ (major_of v, minor_of v, patch_of v)
unfolding parse_version_components components_of
parse_version_components-numbers v =
    let rest = behind_dot v in
    elim (rest_of_cases v) [
      | inl (none_left, empty) ↦
          rw (split_on-dot v, none_left, empty, part_or_zero-number (before_dot v)) refl
      | inr more ↦ elim (rest_of_cases rest) [
        | inl (none_left, empty) ↦
            rw
              (
                split_on-dot v,
                more,
                split_on-dot rest,
                none_left,
                empty,
                part_or_zero-number (before_dot v),
                part_or_zero-number (before_dot rest),
              )
              refl
        | inr more' ↦
            rw
              (
                split_on-dot v,
                more,
                split_on-dot rest,
                more',
                split_on-dot (behind_dot rest),
                part_or_zero-number (before_dot v),
                part_or_zero-number (before_dot rest),
                part_or_zero-number (before_dot (behind_dot rest)),
              )
              refl
      ]
    ]

pub build_compact_version-without_dots : (v : Text) → build_compact_version v ≡ without_dots v
unfolding build_compact_version replace_all replace_from has_prefix
build_compact_version-without_dots [] = refl
build_compact_version-without_dots (c ∷ s) = elim (Bool-cases (c == b'.')) [
  | inl hit ↦ rw hit (build_compact_version-without_dots s)
  | inr miss ↦ rw miss (ap (λ t. c ∷ t) (build_compact_version-without_dots s))
]
