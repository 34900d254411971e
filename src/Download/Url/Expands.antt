-- ===== src/Download/Url/Expands.antt =====
-- What the nine replacements of `applyTemplate` (ldfd/download/url_builder.go) do to a template.
use ldf.Prelude.{
  suc, ◌-◌, Text, codes, text_eq, text_eq_sound, has_prefix, has_prefix-append, replace_from,
  replace_all, false, Bool-cases, inl, inr, if◌then◌else◌, List, [], ◌∷◌, ◌++◌, map, length, All,
  ◌≡◌, ◌≢◌, refl, ap, ◌∙◌, arith,
}

pub data Placeholder : Type 0 where
  base_url version tag tag_short tag_compact major minor patch major_x : Placeholder

pub data Piece : Type 0 where
  literal : Text → Piece
  place : Placeholder → Piece

abbrev pub name_of : Placeholder → Text
name_of base_url = codes "base_url"
name_of version = codes "version"
name_of tag = codes "tag"
name_of tag_short = codes "tag_short"
name_of tag_compact = codes "tag_compact"
name_of major = codes "major"
name_of minor = codes "minor"
name_of patch = codes "patch"
name_of major_x = codes "major_x"

abbrev pub token : Text → Text
token name = b'{' ∷ (name ++ codes "}")

-- A template as it is written, and with every placeholder replaced.
abbrev pub template_of : List Piece → Text
template_of [] = []
template_of (literal t ∷ ps) = t ++ template_of ps
template_of (place p ∷ ps) = token (name_of p) ++ template_of ps

abbrev pub expand : (Placeholder → Text) → List Piece → Text
expand value [] = []
expand value (literal t ∷ ps) = t ++ expand value ps
expand value (place p ∷ ps) = value p ++ expand value ps

abbrev pub NoBrace : Text → Type 0
NoBrace = All (λ c. c ≢ b'{')

abbrev pub PieceNoBrace : Piece → Type 0
PieceNoBrace (literal t) = NoBrace t
PieceNoBrace (place p) = Unit

-- What a replacement of one placeholder does to a piece.
abbrev fill : Text → Text → Piece → Piece
fill name new (literal t) = literal t
fill name new (place p) = if text_eq (name_of p) name then literal new else place p

replace_from-literal :
    (old new lit rest : Text)
    → NoBrace lit
    → replace_from (b'{' ∷ old) new 0 (lit ++ rest) ≡ lit ++ replace_from (b'{' ∷ old) new 0 rest
unfolding replace_from has_prefix
replace_from-literal old new [] rest h = refl
replace_from-literal old new (c ∷ lit) rest h =
    ground (arith, h.0, replace_from-literal old new lit rest h.1)

replace_from-skip :
    (old new o rest : Text)
    → replace_from old new (length o) (o ++ rest) ≡ replace_from old new 0 rest
unfolding replace_from
replace_from-skip old new [] rest = refl
replace_from-skip old new (c ∷ o) rest = replace_from-skip old new o rest

replace_from-hit :
    (old new rest : Text)
    → replace_from (b'{' ∷ old) new 0 ((b'{' ∷ old) ++ rest)
      ≡ new ++ replace_from (b'{' ∷ old) new 0 rest
unfolding replace_from
replace_from-hit old new rest =
    let e : suc (length old) - 1 ≡ length old = omega arith in
    rw (has_prefix-append (b'{' ∷ old) rest, e, replace_from-skip (b'{' ∷ old) new old rest) refl

-- Tokens of different names are no prefixes of each other.
has_prefix-token :
    (m n rest : Text)
    → All (λ c. c ≢ b'}') m
    → All (λ c. c ≢ b'}') n
    → has_prefix ((m ++ codes "}") ++ rest) (n ++ codes "}") ≡ text_eq m n
unfolding has_prefix text_eq
has_prefix-token [] [] rest h k = refl
has_prefix-token [] (d ∷ n) rest h k = ground (arith, k.0)
has_prefix-token (c ∷ m) [] rest h k = ground (arith, h.0)
has_prefix-token (c ∷ m) (d ∷ n) rest h k = ground (arith, has_prefix-token m n rest h.1 k.1)

names_ok : (p : Placeholder) → All (λ c. c ≢ b'}') (name_of p) × NoBrace (name_of p ++ codes "}")
names_ok base_url = omega arith
names_ok version = omega arith
names_ok tag = omega arith
names_ok tag_short = omega arith
names_ok tag_compact = omega arith
names_ok major = omega arith
names_ok minor = omega arith
names_ok patch = omega arith
names_ok major_x = omega arith

replace_from-miss :
    (old new n rest : Text)
    → has_prefix ((n ++ codes "}") ++ rest) old ≡ false
    → NoBrace (n ++ codes "}")
    → replace_from (b'{' ∷ old) new 0 (token n ++ rest)
      ≡ token n ++ replace_from (b'{' ∷ old) new 0 rest
unfolding replace_from has_prefix
replace_from-miss old new n rest h k =
    ground (arith, replace_from-literal old new (n ++ codes "}") rest k)

-- One replacement fills the places of its name, and no others.
replace_all-fill :
    (p : Placeholder) (new : Text) (ps : List Piece)
    → All PieceNoBrace ps
    → replace_all (template_of ps) (token (name_of p)) new
      ≡ template_of (map (fill (name_of p) new) ps)
unfolding replace_all replace_from
replace_all-fill p new [] h = refl
replace_all-fill p new (literal t ∷ ps) h =
    replace_from-literal (name_of p ++ codes "}") new t (template_of ps) h.0
    ∙ ap (λ s. t ++ s) (replace_all-fill p new ps h.1)
replace_all-fill p new (place q ∷ ps) h = elim (Bool-cases (text_eq (name_of q) (name_of p))) [
  | inl same ↦
      let e = text_eq_sound (name_of q) (name_of p) same in
      rw (same, e)
        (replace_from-hit (name_of p ++ codes "}") new (template_of ps)
          ∙ ap (λ s. new ++ s) (replace_all-fill p new ps h.1))
  | inr other ↦
      let miss =
        has_prefix-token (name_of q) (name_of p) (template_of ps) (names_ok q).0 (names_ok p).0
        ∙ other in
      rw other (
        replace_from-miss (name_of p ++ codes "}") new (name_of q) (template_of ps) miss
          (names_ok q).1
        ∙ ap (λ s. token (name_of q) ++ s) (replace_all-fill p new ps h.1))
]

fill-NoBrace :
    (name new : Text) (ps : List Piece)
    → NoBrace new
    → All PieceNoBrace ps
    → All PieceNoBrace (map (fill name new) ps)
fill-NoBrace name new [] n h = tt
fill-NoBrace name new (literal t ∷ ps) n h = (h.0, fill-NoBrace name new ps n h.1)
fill-NoBrace name new (place q ∷ ps) n h = elim (Bool-cases (text_eq (name_of q) name)) [
  | inl same ↦ rw same (n, fill-NoBrace name new ps n h.1)
  | inr other ↦ rw other (tt, fill-NoBrace name new ps n h.1)
]

-- The replacements in the order of the code.
abbrev pub order : List Placeholder
order = base_url ∷ version ∷ tag ∷ tag_short ∷ tag_compact ∷ major ∷ minor ∷ patch ∷ major_x ∷ []

abbrev pub replace_in_order : (Placeholder → Text) → List Placeholder → Text → Text
replace_in_order value [] t = t
replace_in_order value (p ∷ ps) t =
    replace_in_order value ps (replace_all t (token (name_of p)) (value p))

abbrev fill_in_order : (Placeholder → Text) → List Placeholder → List Piece → List Piece
fill_in_order value [] pieces = pieces
fill_in_order value (p ∷ ps) pieces =
    fill_in_order value ps (map (fill (name_of p) (value p)) pieces)

replace_in_order-fill :
    (value : Placeholder → Text) (ps : List Placeholder) (pieces : List Piece)
    → ((p : Placeholder) → NoBrace (value p))
    → All PieceNoBrace pieces
    → replace_in_order value ps (template_of pieces) ≡ template_of (fill_in_order value ps pieces)
replace_in_order-fill value [] pieces n h = refl
replace_in_order-fill value (p ∷ ps) pieces n h = rw (replace_all-fill p (value p) pieces h) (
    replace_in_order-fill value ps (map (fill (name_of p) (value p)) pieces) n
      (fill-NoBrace (name_of p) (value p) pieces (n p) h))

filled :
    (value : Placeholder → Text) (pieces : List Piece)
    → template_of (fill_in_order value order pieces) ≡ expand value pieces
unfolding text_eq
filled value [] = refl
filled value (literal t ∷ ps) = ap (λ s. t ++ s) (filled value ps)
filled value (place base_url ∷ ps) = ap (λ s. value base_url ++ s) (filled value ps)
filled value (place version ∷ ps) = ap (λ s. value version ++ s) (filled value ps)
filled value (place tag ∷ ps) = ap (λ s. value tag ++ s) (filled value ps)
filled value (place tag_short ∷ ps) = ap (λ s. value tag_short ++ s) (filled value ps)
filled value (place tag_compact ∷ ps) = ap (λ s. value tag_compact ++ s) (filled value ps)
filled value (place major ∷ ps) = ap (λ s. value major ++ s) (filled value ps)
filled value (place minor ∷ ps) = ap (λ s. value minor ++ s) (filled value ps)
filled value (place patch ∷ ps) = ap (λ s. value patch ++ s) (filled value ps)
filled value (place major_x ∷ ps) = ap (λ s. value major_x ++ s) (filled value ps)

-- Replacing in order fills every place at once, as long as no value brings in a brace.
pub replace_in_order-expand :
    (value : Placeholder → Text) (pieces : List Piece)
    → ((p : Placeholder) → NoBrace (value p))
    → All PieceNoBrace pieces
    → replace_in_order value order (template_of pieces) ≡ expand value pieces
replace_in_order-expand value pieces n h =
    replace_in_order-fill value order pieces n h ∙ filled value pieces
