-- ===== src/Forge/Filter/Print.antt =====
-- `VersionFilter.String` against `ParseVersionFilter` (ldfd/forge/filter.go).
use ldf.Prelude.{
  Text, codes, false, List, [], ◌∷◌, ◌++◌, map, ◌≡◌, ◌≢◌, refl, ap, ◌∙◌, arith, All, All-append,
  All-imp, All-map, is_nil, split_on-join, join, trim_space, has_prefix, append-nil, append_assoc,
}
use ldf.Forge.Filter.{
  VersionFilter, no_patterns, add_part, add_parts, parse_version_filter, to_string,
}

-- Free of commas and of outer spaces.
pub record IsPart (p : Text) : Type 0 where
  pub no_comma : All (λ c. c ≢ b',') p
  pub trimmed : trim_space p ≡ p

pub record IsInclude (p : Text) : Type 0 where
  pub part : IsPart p
  pub filled : is_nil p ≡ false
  pub no_bang : has_prefix p (codes "!") ≡ false
  pub no_plus : has_prefix p (codes "+") ≡ false

pub record IsExclude (p : Text) : Type 0 where
  pub part : IsPart (b'!' ∷ p)
  pub filled : is_nil p ≡ false

-- The patterns that can be written down in the filter's own syntax.
pub record IsPrintable (vf : VersionFilter) : Type 0 where
  pub includes : All IsInclude vf.include_patterns
  pub excludes : All IsExclude vf.exclude_patterns

add_part-include :
    (vf : VersionFilter) (p : Text)
    → IsInclude p
    → add_part vf p ≡ record vf { include_patterns = vf.include_patterns ++ p ∷ [] }
unfolding add_part
add_part-include vf p h = rw h.part.trimmed (ground arith)

add_part-exclude :
    (vf : VersionFilter) (p : Text)
    → IsExclude p
    → add_part vf (b'!' ∷ p) ≡ record vf { exclude_patterns = vf.exclude_patterns ++ p ∷ [] }
unfolding add_part
add_part-exclude vf p h = rw h.part.trimmed (ground arith)

add_parts-excludes :
    (ps es is : List Text)
    → All IsExclude ps
    → add_parts (record { include_patterns = is; exclude_patterns = es }) (map (λ p. b'!' ∷ p) ps)
      ≡ record { include_patterns = is; exclude_patterns = es ++ ps }
unfolding add_parts
add_parts-excludes [] es is h = rw append-nil
add_parts-excludes (p ∷ ps) es is h =
    ap (λ vf. add_parts vf (map (λ q. b'!' ∷ q) ps))
      (add_part-exclude (record { include_patterns = is; exclude_patterns = es }) p h.0)
    ∙ (add_parts-excludes ps (es ++ p ∷ []) is h.1
        ∙ ap (λ t. record { include_patterns = is; exclude_patterns = t })
            (append_assoc es (p ∷ []) ps))

add_parts-includes :
    (ps is : List Text) (rest : List Text)
    → All IsInclude ps
    → add_parts (record { include_patterns = is; exclude_patterns = [] }) (ps ++ rest)
      ≡ add_parts (record { include_patterns = is ++ ps; exclude_patterns = [] }) rest
unfolding add_parts
add_parts-includes [] is rest h = rw append-nil
add_parts-includes (p ∷ ps) is rest h =
    ap (λ vf. add_parts vf (ps ++ rest))
      (add_part-include (record { include_patterns = is; exclude_patterns = [] }) p h.0)
    ∙ (add_parts-includes ps (is ++ p ∷ []) rest h.1
        ∙ ap (λ t. add_parts (record { include_patterns = t; exclude_patterns = [] }) rest)
            (append_assoc is (p ∷ []) ps))

abbrev written : VersionFilter → List Text
written vf = vf.include_patterns ++ map (λ p. b'!' ∷ p) vf.exclude_patterns

abbrev NoComma : Text → Type 0
NoComma q = All (λ c. c ≢ b',') q

abbrev IsFilled : Text → Type 0
IsFilled q = is_nil q ≡ false

written-NoComma : (vf : VersionFilter) → IsPrintable vf → All NoComma (written vf)
written-NoComma vf h =
    All-append NoComma _ _
      (All-imp IsInclude NoComma vf.include_patterns (λ p i. i.part.no_comma) h.includes)
      (All-map NoComma (λ p. b'!' ∷ p) vf.exclude_patterns
        (All-imp IsExclude (λ p. NoComma (b'!' ∷ p)) vf.exclude_patterns (λ p i. i.part.no_comma)
          h.excludes))

written-IsFilled : (vf : VersionFilter) → IsPrintable vf → All IsFilled (written vf)
written-IsFilled vf h =
    All-append IsFilled _ _
      (All-imp IsInclude IsFilled vf.include_patterns (λ p i. i.filled) h.includes)
      (All-map IsFilled (λ p. b'!' ∷ p) vf.exclude_patterns
        (All-imp IsExclude (λ p. IsFilled (b'!' ∷ p)) vf.exclude_patterns (λ p i. refl) h.excludes))

add_parts-written : (vf : VersionFilter) → IsPrintable vf → add_parts no_patterns (written vf) ≡ vf
add_parts-written vf h =
    add_parts-includes vf.include_patterns [] (map (λ p. b'!' ∷ p) vf.exclude_patterns) h.includes
    ∙ add_parts-excludes vf.exclude_patterns [] vf.include_patterns h.excludes

is_nil-join : (p : Text) (ps : List Text) → IsFilled p → IsFilled (join (codes ",") (p ∷ ps))
unfolding join
is_nil-join p [] h = h
is_nil-join [] (q ∷ ps) h = cc
is_nil-join (c ∷ p) (q ∷ ps) h = refl

-- The parts are read back one by one; with no part the text is empty.
parse-join :
    (parts : List Text)
    → All NoComma parts
    → All IsFilled parts
    → parse_version_filter (join (codes ",") parts) ≡ add_parts no_patterns parts
unfolding parse_version_filter join
parse-join [] h k = refl
parse-join (p ∷ ps) h k =
    rw (is_nil-join p ps k.0) (ap (add_parts no_patterns) (split_on-join b',' p ps h))

-- For every filter whose patterns are not empty, hold no comma and no outer spaces, and whose include
-- patterns do not begin with ! or +, parsing what `String` prints gives the filter back.
pub parse-to_string :
    (vf : VersionFilter) → IsPrintable vf → parse_version_filter (to_string vf) ≡ vf
unfolding to_string
parse-to_string vf h =
    parse-join (written vf) (written-NoComma vf h) (written-IsFilled vf h) ∙ add_parts-written vf h

explicit_bang :
    (x : Text)
    → IsPart (b'+' ∷ b'!' ∷ x)
    → parse_version_filter (b'+' ∷ b'!' ∷ x)
      ≡ record { include_patterns = (b'!' ∷ x) ∷ []; exclude_patterns = [] }
unfolding join add_part add_parts
explicit_bang x h =
    parse-join ((b'+' ∷ b'!' ∷ x) ∷ []) (h.no_comma, tt) (refl, tt) ∙ rw h.trimmed (ground arith)

-- An explicit include pattern that begins with ! is printed without its +, and is read back as an
-- exclude pattern: for every pattern text x, +!x includes !x, and its print excludes x.
plus_bang_lost :
    (x : Text)
    → IsPart (b'+' ∷ b'!' ∷ x)
    → IsExclude x
    → (parse_version_filter (b'+' ∷ b'!' ∷ x)
        ≡ record { include_patterns = (b'!' ∷ x) ∷ []; exclude_patterns = [] })
      × (parse_version_filter (to_string (parse_version_filter (b'+' ∷ b'!' ∷ x)))
          ≡ record { include_patterns = []; exclude_patterns = x ∷ [] })
unfolding to_string join
plus_bang_lost x h k =
    let first = explicit_bang x h in
    let only_x : VersionFilter = record { include_patterns = []; exclude_patterns = x ∷ [] } in
    (first, rw first (parse-to_string only_x (record { includes = tt; excludes = (k, tt) })))
