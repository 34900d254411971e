-- ===== src/Forge/Filter.antt =====
-- `VersionFilter` of ldfd/forge/filter.go. The Go loops that stop at the first pattern that matches
-- are `any` and `find_first`.
pub mod Agree
pub mod Print
use ldf.Prelude.{
  ℕ, Text, codes, Bool, true, false, not, ◌&&◌, ◌||◌, if◌then◌else◌, List, [], ◌∷◌, ◌++◌, map,
  Option, none, some, is_nil, any, keep, find_first, split_on, join, trim_space, has_prefix,
  trim_prefix,
}
use ldf.Forge.Types.{DiscoveredVersion}
use ldf.Forge.Glob.{glob_match}

pub record VersionFilter : Type 0 where
  pub include_patterns : List Text
  pub exclude_patterns : List Text

abbrev pub no_patterns : VersionFilter
no_patterns = record { include_patterns = []; exclude_patterns = [] }

add_include : VersionFilter → Text → VersionFilter
add_include vf p =
    if is_nil p then vf else record vf { include_patterns = vf.include_patterns ++ p ∷ [] }

add_exclude : VersionFilter → Text → VersionFilter
add_exclude vf p =
    if is_nil p then vf else record vf { exclude_patterns = vf.exclude_patterns ++ p ∷ [] }

-- A part with its spaces trimmed, `continue` on an empty one included.
unfoldable pub add_trimmed : VersionFilter → Text → VersionFilter
unfolding has_prefix trim_prefix add_include add_exclude
add_trimmed vf part =
    if is_nil part
    then vf
    else if has_prefix part (codes "!")
    then add_exclude vf (trim_prefix part (codes "!"))
    else if has_prefix part (codes "+")
    then add_include vf (trim_prefix part (codes "+"))
    else add_include vf part

-- One part of the comma-separated text.
unfoldable pub add_part : VersionFilter → Text → VersionFilter
unfolding trim_space add_trimmed
add_part vf raw = add_trimmed vf (trim_space raw)

unfoldable pub add_parts : VersionFilter → List Text → VersionFilter
add_parts vf [] = vf
add_parts vf (part ∷ parts) = add_parts (add_part vf part) parts

unfoldable pub parse_version_filter : Text → VersionFilter
unfolding add_parts add_part split_on
parse_version_filter filter_str =
    if is_nil filter_str then no_patterns else add_parts no_patterns (split_on b',' filter_str)

-- `VersionFilter.Matches`.
unfoldable pub matches : VersionFilter → Text → Bool
unfolding glob_match
matches vf version =
    if not (is_nil vf.include_patterns) && not (any (λ p. glob_match p version) vf.include_patterns)
    then false
    else if any (λ p. glob_match p version) vf.exclude_patterns
    then false
    else true

unfoldable pub is_empty : VersionFilter → Bool
is_empty vf = is_nil vf.include_patterns && is_nil vf.exclude_patterns

-- `VersionFilter.String`.
unfoldable pub to_string : VersionFilter → Text
unfolding join
to_string vf = join (codes ",") (vf.include_patterns ++ map (λ p. b'!' ∷ p) vf.exclude_patterns)

unfoldable pub filter_versions : VersionFilter → List DiscoveredVersion → List DiscoveredVersion
unfolding is_empty matches
filter_versions vf versions =
    if is_empty vf then versions else keep (λ v. matches vf v.version) versions

pub record FilterResult : Type 0 where
  pub version : Text
  pub included : Bool
  pub reason : Text

-- The include patterns of `FilterWithReasons`.
include_result : VersionFilter → Text → FilterResult
unfolding glob_match
include_result vf version =
    if is_nil vf.include_patterns
    then record { version = version; included = true; reason = [] }
    else elim (find_first (λ p. glob_match p version) vf.include_patterns) [
      | some p ↦ record { version = version; included = true; reason = codes "matches " ++ p }
      | none ↦ record {
        version = version;
        included = false;
        reason = codes "no include pattern matched";
      }
    ]

-- The exclude patterns, "only if still included".
exclude_result : VersionFilter → FilterResult → FilterResult
unfolding glob_match
exclude_result vf result =
    if result.included
    then elim (find_first (λ p. glob_match p result.version) vf.exclude_patterns) [
      | some p ↦ record result { included = false; reason = codes "excluded by !" ++ p }
      | none ↦ result
    ]
    else result

unfoldable pub filter_with_reasons : VersionFilter → List Text → List FilterResult
unfolding include_result exclude_result
filter_with_reasons vf [] = []
filter_with_reasons vf (version ∷ versions) =
    exclude_result vf (include_result vf version) ∷ filter_with_reasons vf versions
