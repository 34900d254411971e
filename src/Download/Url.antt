-- ===== src/Download/Url.antt =====
-- `URLBuilder` of ldfd/download/url_builder.go. Of a source and of a component the fields it reads; a
-- pointer is an Option.
pub mod Expands
pub mod Numbers
pub mod Template
use ldf.Prelude.{
  ℕ, Text, codes, text_eq, has_suffix, trim_suffix, contains, split_on, replace_all, Bool, true,
  false, ◌&&◌, ◌||◌, if◌then◌else◌, List, [], ◌∷◌, ◌++◌, Option, none, some, is_nil,
}

pub record UpstreamSource : Type 0 where
  pub url : Text
  pub url_template : Text

pub record Component : Type 0 where
  pub default_url_template : Text
  pub github_normalized_template : Text

pub data UrlError : Type 0 where
  source_is_nil component_is_nil version_is_empty : UrlError

pub data UrlResult : Type 0 where
  built : Text → UrlResult
  refused : UrlError → UrlResult

unfoldable pub normalize_base_url : Text → Text
unfolding trim_suffix
normalize_base_url url = trim_suffix (trim_suffix url (codes "/")) (codes ".git")

unfoldable pub is_github_url : Text → Bool
unfolding contains
is_github_url url = contains url (codes "github.com")

unfoldable pub is_gitlab_url : Text → Bool
unfolding contains
is_gitlab_url url = contains url (codes "gitlab.com") || contains url (codes "gitlab.")

unfoldable pub select_template : UpstreamSource → Component → Text
unfolding is_github_url
select_template source component =
    if is_nil source.url_template
    then if is_github_url source.url
        && (if is_nil component.github_normalized_template then false else true)
      then component.github_normalized_template
      else component.default_url_template
    else source.url_template

-- A part of a version, "0" where it is missing or empty.
abbrev pub part_or_zero : Text → Text
part_or_zero part = if is_nil part then codes "0" else part

unfoldable pub components_of : List Text → Text × Text × Text
components_of [] = (codes "0", codes "0", codes "0")
components_of (a ∷ []) = (part_or_zero a, codes "0", codes "0")
components_of (a ∷ b ∷ []) = (part_or_zero a, part_or_zero b, codes "0")
components_of (a ∷ b ∷ c ∷ parts) = (part_or_zero a, part_or_zero b, part_or_zero c)

unfoldable pub parse_version_components : Text → Text × Text × Text
unfolding split_on components_of
parse_version_components version = components_of (split_on b'.' version)

unfoldable pub build_compact_version : Text → Text
unfolding replace_all
build_compact_version version = replace_all version (codes ".") []

unfoldable pub apply_template : Text → Text → Text → Text
unfolding parse_version_components build_compact_version replace_all
apply_template template base_url version =
    let (major, minor, patch) = parse_version_components version in
    let r1 = replace_all template (codes "{base_url}") base_url in
    let r2 = replace_all r1 (codes "{version}") version in
    let r3 = replace_all r2 (codes "{tag}") (b'v' ∷ version) in
    let r4 = replace_all r3 (codes "{tag_short}") (b'v' ∷ (major ++ b'.' ∷ minor)) in
    let r5 = replace_all r4 (codes "{tag_compact}") (b'v' ∷ build_compact_version version) in
    let r6 = replace_all r5 (codes "{major}") major in
    let r7 = replace_all r6 (codes "{minor}") minor in
    let r8 = replace_all r7 (codes "{patch}") patch in
    replace_all r8 (codes "{major_x}") (major ++ codes ".x")

unfoldable pub build_url : Option UpstreamSource → Option Component → Text → UrlResult
unfolding normalize_base_url select_template apply_template
build_url none component version = refused source_is_nil
build_url (some source) none version = refused component_is_nil
build_url (some source) (some component) version =
    if is_nil version
    then refused version_is_empty
    else let base_url = normalize_base_url source.url in
      let template = select_template source component in
      if is_nil template then built base_url else built (apply_template template base_url version)

unfoldable pub build_git_clone_url : UpstreamSource → Text
unfolding normalize_base_url has_suffix
build_git_clone_url source =
    let base_url = normalize_base_url source.url in
    if has_suffix base_url (codes ".git") then base_url else base_url ++ codes ".git"

unfoldable pub build_git_ref : Text → Text
build_git_ref version = b'v' ∷ version

unfoldable pub preview_url : Option UpstreamSource → Option Component → Text → UrlResult
unfolding build_url
preview_url source component example_version =
    build_url source component (if is_nil example_version then codes "1.0.0" else example_version)
