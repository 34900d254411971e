-- ===== src/Forge/Filter/Agree.antt =====
-- What the version filter of ldfd/forge/filter.go lets through, and that its two ways agree.
use ldf.Prelude.{
  Text, to_lower, Bool, true, false, List, [], ◌∷◌, map, ◌≡◌, ◌↔◌, ◌⊎◌, inl, inr, none, some, refl,
  sym, ap, ◌∙◌, arith, Bool-cases, Any, All, any, keep, find_first,
}
use ldf.Forge.Types.{DiscoveredVersion}
use ldf.Forge.Glob.{glob_match, Matches}
use ldf.Forge.Glob.Decides.{glob_match_iff}
use ldf.Forge.Filter.{
  VersionFilter, matches, is_empty, filter_versions, FilterResult, include_result, exclude_result,
  filter_with_reasons,
}

-- A version matches a pattern, letter case aside.
abbrev pub MatchesFolded : Text → Text → Type 0
MatchesFolded version p = Matches (to_lower p) (to_lower version)

any_iff :
    (v : Text) (ps : List Text) → (any (λ p. glob_match p v) ps ≡ true) ↔ Any (MatchesFolded v) ps
any_iff v [] = (λ h. cc, λ h. absurd h)
any_iff v (p ∷ ps) = ground (arith, glob_match_iff p v, any_iff v ps)

none_iff :
    (v : Text) (ps : List Text)
    → (any (λ p. glob_match p v) ps ≡ false) ↔ All (λ p. ¬ MatchesFolded v p) ps
none_iff v [] = (λ h. tt, λ h. refl)
none_iff v (p ∷ ps) = ground (arith, glob_match_iff p v, none_iff v ps)

-- A version passes exactly when it matches some include pattern, or there is none of these, and
-- matches no exclude pattern.
pub matches_iff :
    (vf : VersionFilter) (v : Text)
    → (matches vf v ≡ true) ↔ (
        ((vf.include_patterns ≡ []) ⊎ Any (MatchesFolded v) vf.include_patterns)
        × All (λ p. ¬ MatchesFolded v p) vf.exclude_patterns)
unfolding matches
matches_iff vf v = ground (arith, any_iff v vf.include_patterns, none_iff v vf.exclude_patterns)

find_first-any {ℓ} :
    {A : Type ℓ} (t : A → Bool) (xs : List A)
    → any t xs ≡ elim (find_first t xs) as (λ _. Bool) [ some _ ↦ true | none ↦ false ]
find_first-any t [] = refl
find_first-any t (x ∷ xs) = ground (arith, find_first-any t xs)

explained :
    (vf : VersionFilter) (v : Text)
    → (exclude_result vf (include_result vf v)).included ≡ matches vf v
unfolding include_result exclude_result matches
explained vf v = ground (
  arith,
  find_first-any (λ p. glob_match p v) vf.include_patterns,
  find_first-any (λ p. glob_match p v) vf.exclude_patterns,
)

explained_version :
    (vf : VersionFilter) (v : Text) → (exclude_result vf (include_result vf v)).version ≡ v
unfolding include_result exclude_result
explained_version vf v = ground arith

abbrev version_of : DiscoveredVersion → Text
version_of v = v.version

abbrev result_version : FilterResult → Text
result_version r = r.version

abbrev is_included : FilterResult → Bool
is_included r = r.included

kept_agree :
    (vf : VersionFilter) (vs : List DiscoveredVersion)
    → map version_of (keep (λ v. matches vf v.version) vs)
      ≡ map result_version (keep is_included (filter_with_reasons vf (map version_of vs)))
unfolding filter_with_reasons
kept_agree vf [] = refl
kept_agree vf (v ∷ vs) =
    ground (arith, explained vf v.version, explained_version vf v.version, kept_agree vf vs)

keep_all_of_empty :
    (vf : VersionFilter) (vs : List DiscoveredVersion)
    → is_empty vf ≡ true
    → keep (λ v. matches vf v.version) vs ≡ vs
unfolding is_empty matches
keep_all_of_empty vf [] h = refl
keep_all_of_empty vf (v ∷ vs) h = ground (arith, keep_all_of_empty vf vs)

-- For every filter and every list, `FilterVersions` keeps the versions, in order, that
-- `FilterWithReasons` reports as included.
pub filter_versions-filter_with_reasons :
    (vf : VersionFilter) (vs : List DiscoveredVersion)
    → map version_of (filter_versions vf vs)
      ≡ map result_version (keep is_included (filter_with_reasons vf (map version_of vs)))
unfolding filter_versions
filter_versions-filter_with_reasons vf vs = elim (Bool-cases (is_empty vf)) [
  | inl e ↦ rw e (ap (map version_of) (sym (keep_all_of_empty vf vs e)) ∙ kept_agree vf vs)
  | inr e ↦ rw e (kept_agree vf vs)
]
