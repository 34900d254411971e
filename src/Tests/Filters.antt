-- ===== src/Tests/Filters.antt =====
-- Version filters of ldfd/forge/filter.go on concrete inputs.
use ldf.Prelude.{
  Text, codes, true, false, List, [], ◌∷◌, none, ◌≡◌, ◌↔◌, ◌⊎◌, refl, arith, All, Any, map, keep,
  trim_space, has_prefix,
}
use ldf.Forge.Types.{DiscoveredVersion, stable}
use ldf.Forge.Glob.{glob_match_internal, Matches}
use ldf.Forge.Glob.Decides.{glob_match_internal_iff}
use ldf.Forge.Filter.{
  VersionFilter, parse_version_filter, to_string, matches, filter_versions, filter_with_reasons,
}
use ldf.Forge.Filter.Agree.{MatchesFolded, matches_iff, filter_versions-filter_with_reasons}
use ldf.Forge.Filter.Print.{IsPart, IsExclude, IsPrintable, parse-to_string}

abbrev stable_six : VersionFilter
stable_six = record { include_patterns = codes "6.*" ∷ []; exclude_patterns = codes "*-rc*" ∷ [] }

abbrev found : Text → DiscoveredVersion
found v = record {
  version = v;
  version_type = stable;
  release_date = none;
  download_url = [];
  is_stable = true;
  is_prerelease = false;
}

abbrev three_versions : List DiscoveredVersion
three_versions = found (codes "6.1") ∷ found (codes "6.2-rc1") ∷ found (codes "5.4") ∷ []

run_of_filter : map (λ v. v.version) (filter_versions stable_six three_versions) ≡ codes "6.1" ∷ []
unfolding filter_versions
run_of_filter = refl

glob_match_internal_iff_example :
    (glob_match_internal (codes "v?.*") (codes "v6.12") ≡ true)
    ↔ Matches (codes "v?.*") (codes "v6.12")
glob_match_internal_iff_example = glob_match_internal_iff (codes "v?.*") (codes "v6.12")

matches_iff_example : (matches stable_six (codes "6.1") ≡ true) ↔ (
    ((stable_six.include_patterns ≡ [])
      ⊎ Any (MatchesFolded (codes "6.1")) stable_six.include_patterns)
    × All (λ p. ¬ MatchesFolded (codes "6.1") p) stable_six.exclude_patterns)
matches_iff_example = matches_iff stable_six (codes "6.1")

filter_versions-filter_with_reasons_example :
    map (λ v. v.version) (filter_versions stable_six three_versions)
    ≡ map
        (λ r. r.version)
        (keep
          (λ r. r.included)
          (filter_with_reasons stable_six (map (λ v. v.version) three_versions)))
filter_versions-filter_with_reasons_example =
    filter_versions-filter_with_reasons stable_six three_versions

stable_six-IsPrintable : IsPrintable stable_six
unfolding trim_space has_prefix
stable_six-IsPrintable = record {
  includes = (
    record {
      part = record { no_comma = omega arith; trimmed = refl };
      filled = refl;
      no_bang = refl;
      no_plus = refl;
    },
    tt,
  );
  excludes =
      (record { part = record { no_comma = omega arith; trimmed = refl }; filled = refl }, tt);
}

parse-to_string_example : parse_version_filter (to_string stable_six) ≡ stable_six
parse-to_string_example = parse-to_string stable_six stable_six-IsPrintable

plus_bang-IsPart : IsPart (codes "+!a")
unfolding trim_space
plus_bang-IsPart = record { no_comma = omega arith; trimmed = refl }

a-IsExclude : IsExclude (codes "a")
unfolding trim_space
a-IsExclude = record { part = record { no_comma = omega arith; trimmed = refl }; filled = refl }
