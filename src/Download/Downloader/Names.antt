-- ===== src/Download/Downloader/Names.antt =====
-- The content types of ldfd/download/downloader.go.
use ldf.Prelude.{
  ℕ, Text, codes, text_eq, true, false, ◌==◌, [], ◌∷◌, ◌++◌, any, Bool-cases, inl, inr, after_last,
  path_ext, ◌≡◌, refl, arith,
}
use ldf.Download.Downloader.{content_type_of, detect_content_type}

has_byte-append :
    (c : ℕ) (s t : Text) → any (λ y. y == c) t ≡ true → any (λ y. y == c) (s ++ t) ≡ true
has_byte-append c [] t h = h
has_byte-append c (x ∷ s) t h = ground (arith, has_byte-append c s t h)

-- What stands behind the last `c` of a text that ends in a text with a `c`.
after_last-append :
    (c : ℕ) (s t : Text) → any (λ y. y == c) t ≡ true → after_last c (s ++ t) ≡ after_last c t
unfolding after_last
after_last-append c [] t h = refl
after_last-append c (x ∷ s) t h = ground (arith, has_byte-append c s t h, after_last-append c s t h)

after_last-none : (c : ℕ) (t : Text) → any (λ y. y == c) t ≡ false → after_last c t ≡ t
unfolding after_last
after_last-none c [] h = refl
after_last-none c (x ∷ t) h = ground arith

-- The last element of a path that ends in a text with no slash ends in that text.
after_slash-append :
    (s t : Text) (d : ℕ)
    → any (λ y. y == b'/') (d ∷ t) ≡ false
    → (front : Text) × (after_last b'/' (s ++ d ∷ t) ≡ front ++ d ∷ t)
unfolding after_last
after_slash-append [] t d h = ([], ground (arith, after_last-none b'/' (d ∷ t) h))
after_slash-append (x ∷ s) t d h =
    let (front, e) = after_slash-append s t d h in
    elim (Bool-cases (any (λ y. y == b'/') (s ++ d ∷ t))) [
      | inl a ↦ (front, rw a e)
      | inr a ↦ elim (Bool-cases (x == b'/')) [
        | inl b ↦ (s, rw (a, b) refl)
        | inr b ↦ (x ∷ s, rw (a, b) refl)
      ]
    ]

path_ext_of_end :
    (s t : Text) (d : ℕ)
    → any (λ y. y == b'/') (d ∷ t) ≡ false
    → any (λ y. y == b'.') (d ∷ t) ≡ true
    → path_ext (s ++ d ∷ t) ≡ b'.' ∷ after_last b'.' (d ∷ t)
unfolding path_ext
path_ext_of_end s t d no_slash dot =
    let (front, e) = after_slash-append s t d no_slash in
    rw (e, has_byte-append b'.' front (d ∷ t) dot, after_last-append b'.' front (d ∷ t) dot) refl

-- A URL that ends in `.tar.gz`, `.tar.xz` or `.tar.bz2` is stored as `application/octet-stream`, whatever
-- stands before that: the extension of a path has one dot, so that the three cases with two are never
-- taken.
detect_content_type-compressed :
    (url : Text)
    → (detect_content_type (url ++ codes ".tar.gz") ≡ codes "application/octet-stream")
      × (detect_content_type (url ++ codes ".tar.xz") ≡ codes "application/octet-stream")
      × (detect_content_type (url ++ codes ".tar.bz2") ≡ codes "application/octet-stream")
unfolding detect_content_type content_type_of text_eq after_last
detect_content_type-compressed url = (
  rw (path_ext_of_end url _ _ refl refl) refl,
  rw (path_ext_of_end url _ _ refl refl) refl,
  rw (path_ext_of_end url _ _ refl refl) refl,
)
