-- ===== src/Download/Url/Template.antt =====
-- `applyTemplate` of ldfd/download/url_builder.go against the simultaneous replacement of all
-- placeholders.
use ldf.Prelude.{
  ℕ, zero, suc, Text, codes, has_prefix, split_on, replace_from, replace_all, false, Bool-cases,
  inl, inr, ◌==◌, if◌then◌else◌, List, [], ◌∷◌, ◌++◌, some, is_nil, All, All-append, ◌≡◌, ◌≢◌, refl,
  ◌∙◌, arith,
}
use ldf.Download.Url.{
  UpstreamSource, Component, built, normalize_base_url, select_template, components_of,
  parse_version_components, build_compact_version, apply_template, part_or_zero, build_url,
}
use ldf.Download.Url.Numbers.{
  major_of, minor_of, patch_of, without_dots, parse_version_components-numbers,
  build_compact_version-without_dots,
}
use ldf.Download.Url.Expands.{
  Placeholder, base_url, version, tag, tag_short, tag_compact, major, minor, patch, major_x, Piece,
  literal, place, template_of, expand, NoBrace, PieceNoBrace, replace_in_order-expand,
}

-- The value of each placeholder, from the documented list of the code.
abbrev pub value_of : Text → Text → Placeholder → Text
value_of base v base_url = base
value_of base v version = v
value_of base v tag = b'v' ∷ v
value_of base v tag_short = b'v' ∷ (major_of v ++ b'.' ∷ minor_of v)
value_of base v tag_compact = b'v' ∷ without_dots v
value_of base v major = major_of v
value_of base v minor = minor_of v
value_of base v patch = patch_of v
value_of base v major_x = major_of v ++ codes ".x"

-- The value of each placeholder as the code computes it.
abbrev given : Text → Text → Placeholder → Text
given base v base_url = base
given base v version = v
given base v tag = b'v' ∷ v
given base v tag_short =
    b'v' ∷ ((parse_version_components v).0 ++ b'.' ∷ (parse_version_components v).1)
given base v tag_compact = b'v' ∷ build_compact_version v
given base v major = (parse_version_components v).0
given base v minor = (parse_version_components v).1
given base v patch = (parse_version_components v).2
given base v major_x = (parse_version_components v).0 ++ codes ".x"

given-value_of : (base v : Text) (p : Placeholder) → given base v p ≡ value_of base v p
given-value_of base v base_url = refl
given-value_of base v version = refl
given-value_of base v tag = refl
given-value_of base v tag_short = rw (parse_version_components-numbers v, given) refl
given-value_of base v tag_compact = rw (build_compact_version-without_dots v, given) refl
given-value_of base v major = rw (parse_version_components-numbers v, given) refl
given-value_of base v minor = rw (parse_version_components-numbers v, given) refl
given-value_of base v patch = rw (parse_version_components-numbers v, given) refl
given-value_of base v major_x = rw (parse_version_components-numbers v, given) refl

expand_same :
    (f g : Placeholder → Text) (pieces : List Piece)
    → ((p : Placeholder) → f p ≡ g p)
    → expand f pieces ≡ expand g pieces
expand_same f g [] same = refl
expand_same f g (literal t ∷ ps) same = rw (expand_same f g ps same) refl
expand_same f g (place p ∷ ps) same = rw (same p, expand_same f g ps same) refl

zero-NoBrace :
    NoBrace (codes "0") × NoBrace (codes "v") × NoBrace (codes ".x") × NoBrace (codes ".")
zero-NoBrace = omega arith

-- The first part of a split with a byte put before it.
grown-NoBrace :
    (c : ℕ) (parts : List Text)
    → c ≢ b'{'
    → All NoBrace parts
    → All NoBrace (elim parts as (λ x. List Text) [ [] ↦ (c ∷ []) ∷ [] | p ∷ ps ↦ (c ∷ p) ∷ ps ])
grown-NoBrace c [] n h = ((n, tt), tt)
grown-NoBrace c (p ∷ ps) n h = ((n, h.0), h.1)

split_on-NoBrace : (sep : ℕ) (s : Text) → NoBrace s → All NoBrace (split_on sep s)
unfolding split_on
split_on-NoBrace sep [] h = (tt, tt)
split_on-NoBrace sep (c ∷ s) h = elim (Bool-cases (c == sep)) [
  | inl hit ↦ rw hit (tt, split_on-NoBrace sep s h.1)
  | inr miss ↦ rw miss (grown-NoBrace c (split_on sep s) h.0 (split_on-NoBrace sep s h.1))
]

replace_from-NoBrace :
    (old : Text) (skip : ℕ) (s : Text) → NoBrace s → NoBrace (replace_from old [] skip s)
unfolding replace_from
replace_from-NoBrace old skip [] h = tt
replace_from-NoBrace old (suc skip) (c ∷ s) h = replace_from-NoBrace old skip s h.1
replace_from-NoBrace old zero (c ∷ s) h = elim (Bool-cases (has_prefix (c ∷ s) old)) [
  | inl hit ↦ rw hit (replace_from-NoBrace old _ s h.1)
  | inr miss ↦ rw miss (h.0, replace_from-NoBrace old 0 s h.1)
]

part_or_zero-NoBrace : (part : Text) → NoBrace part → NoBrace (part_or_zero part)
part_or_zero-NoBrace [] h = zero-NoBrace.0
part_or_zero-NoBrace (c ∷ part) h = h

components_of-NoBrace :
    (parts : List Text)
    → All NoBrace parts
    → NoBrace (components_of parts).0
      × NoBrace (components_of parts).1
      × NoBrace (components_of parts).2
unfolding components_of
components_of-NoBrace [] h = (zero-NoBrace.0, zero-NoBrace.0, zero-NoBrace.0)
components_of-NoBrace (a ∷ []) h = (part_or_zero-NoBrace a h.0, zero-NoBrace.0, zero-NoBrace.0)
components_of-NoBrace (a ∷ b ∷ []) h =
    (part_or_zero-NoBrace a h.0, part_or_zero-NoBrace b h.1.0, zero-NoBrace.0)
components_of-NoBrace (a ∷ b ∷ c ∷ parts) h =
    (part_or_zero-NoBrace a h.0, part_or_zero-NoBrace b h.1.0, part_or_zero-NoBrace c h.1.1.0)

version-NoBrace :
    (v : Text)
    → NoBrace v
    → NoBrace (parse_version_components v).0
      × NoBrace (parse_version_components v).1
      × NoBrace (parse_version_components v).2
unfolding parse_version_components
version-NoBrace v h = components_of-NoBrace (split_on b'.' v) (split_on-NoBrace b'.' v h)

given-NoBrace :
    (base v : Text) → NoBrace base → NoBrace v → (p : Placeholder) → NoBrace (given base v p)
unfolding build_compact_version replace_all
given-NoBrace base v hb hv base_url = hb
given-NoBrace base v hb hv version = hv
given-NoBrace base v hb hv tag = (zero-NoBrace.1.0, hv)
given-NoBrace base v hb hv tag_short = (
  zero-NoBrace.1.0,
  All-append _ _ _ (version-NoBrace v hv).0 (zero-NoBrace.3.0, (version-NoBrace v hv).1),
)
given-NoBrace base v hb hv tag_compact = (zero-NoBrace.1.0, replace_from-NoBrace (codes ".") 0 v hv)
given-NoBrace base v hb hv major = (version-NoBrace v hv).0
given-NoBrace base v hb hv minor = (version-NoBrace v hv).1
given-NoBrace base v hb hv patch = (version-NoBrace v hv).2
given-NoBrace base v hb hv major_x = All-append _ _ _ (version-NoBrace v hv).0 zero-NoBrace.2

-- For a template of placeholders and of text without an opening brace, a base URL and a version without
-- an opening brace, the nine replacements one after the other give the text in which every placeholder
-- stands replaced by its documented value, all at once.
apply_template-expand :
    (base v : Text) (pieces : List Piece)
    → NoBrace base
    → NoBrace v
    → All PieceNoBrace pieces
    → apply_template (template_of pieces) base v ≡ expand (value_of base v) pieces
unfolding apply_template
apply_template-expand base v pieces hb hv h =
    replace_in_order-expand (given base v) pieces (given-NoBrace base v hb hv) h
    ∙ expand_same (given base v) (value_of base v) pieces (given-value_of base v)

-- For a source, a component and a version that is not empty: where the template that is chosen for them
-- is written with placeholders and text without an opening brace, and neither the normalized base URL
-- nor the version has one, the URL is built, and it is the template with every placeholder replaced by
-- its documented value; an empty template gives the normalized base URL.
pub build_url-expand :
    (source : UpstreamSource) (component : Component) (v : Text) (pieces : List Piece)
    → is_nil v ≡ false
    → select_template source component ≡ template_of pieces
    → NoBrace (normalize_base_url source.url)
    → NoBrace v
    → All PieceNoBrace pieces
    → build_url (some source) (some component) v
      ≡ built (
          if is_nil (template_of pieces)
          then normalize_base_url source.url
          else expand (value_of (normalize_base_url source.url) v) pieces)
unfolding build_url
build_url-expand source component v pieces filled chosen hb hv h =
    ground (
      arith,
      filled,
      chosen,
      apply_template-expand (normalize_base_url source.url) v pieces hb hv h,
    )
