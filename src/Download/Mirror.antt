-- ===== src/Download/Mirror.antt =====
-- `MirrorResolver` of ldfd/download/mirror.go with the rows of ldfd/db/mirror_configs.go. `sort.Slice`,
-- which leaves equal elements in any order, is the argument `sort_slice`. `os.Stat` is the argument `exists`. A negative priority is not
-- represented.
pub mod First
use ldf.Prelude.{
  ℕ, Text, has_prefix, trim_prefix, Bool, true, false, not, ltb, if◌then◌else◌, List, [], ◌∷◌, ◌++◌,
  is_nil, ◌||◌, codes, text_eq, path_base, path_join,
}

pub record MirrorConfigEntry : Type 0 where
  pub id : Text
  pub name : Text
  pub url_prefix : Text
  pub mirror_url : Text
  pub priority : ℕ
  pub enabled : Bool

pub record MirrorConfig : Type 0 where
  pub proxy_url : Text
  pub local_path : Text

unfoldable pub default_mirror_config : MirrorConfig
default_mirror_config = record { proxy_url = []; local_path = [] }

pub record MirrorResolver : Type 0 where
  pub mirrors : List MirrorConfigEntry
  pub config : MirrorConfig

-- The comparison that `NewMirrorResolver` sorts by.
unfoldable pub lower_priority : MirrorConfigEntry → MirrorConfigEntry → Bool
lower_priority m n = ltb m.priority n.priority

unfoldable pub new_mirror_resolver :
    ((MirrorConfigEntry → MirrorConfigEntry → Bool)
      → List MirrorConfigEntry
      → List MirrorConfigEntry)
    → List MirrorConfigEntry
    → MirrorConfig
    → MirrorResolver
unfolding lower_priority
new_mirror_resolver sort_slice mirrors cfg = record {
  mirrors = sort_slice lower_priority mirrors;
  config = cfg;
}

-- The loop of `ResolveURL`.
unfoldable pub resolve_by : List MirrorConfigEntry → Text → Text
unfolding has_prefix trim_prefix
resolve_by [] original_url = original_url
resolve_by (m ∷ mirrors) original_url =
    let rest = resolve_by mirrors original_url in
    if not m.enabled
    then rest
    else if has_prefix original_url m.url_prefix
    then m.mirror_url ++ trim_prefix original_url m.url_prefix
    else rest

unfoldable pub resolve_url : MirrorResolver → Text → Text
unfolding resolve_by
resolve_url r original_url = resolve_by r.mirrors original_url

unfoldable pub has_mirrors : MirrorResolver → Bool
has_mirrors r = not (is_nil r.mirrors)

unfoldable pub has_local_path : MirrorResolver → Bool
has_local_path r = not (is_nil r.config.local_path)

unfoldable pub has_proxy : MirrorResolver → Bool
has_proxy r = not (is_nil r.config.proxy_url)

-- `ResolveLocalPath`
unfoldable pub resolve_local_path : MirrorResolver → (Text → Bool) → Text → Text → Text → Text
unfolding path_base path_join text_eq
resolve_local_path r exists original_url source_id version =
    let filename = path_base original_url in
    let structured_path = path_join (r.config.local_path ∷ source_id ∷ version ∷ filename ∷ []) in
    let flat_path = path_join (r.config.local_path ∷ filename ∷ []) in
    if is_nil r.config.local_path
    then []
    else if is_nil filename || text_eq filename (codes ".")
    then []
    else if exists structured_path
    then structured_path
    else if exists flat_path
    then flat_path
    else []
