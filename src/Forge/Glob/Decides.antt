-- ===== src/Forge/Glob/Decides.antt =====
-- The glob matcher of ldfd/forge/filter.go answers whether the text matches.
use ldf.Prelude.{
  ℕ, Text, to_lower, Bool, true, false, ◌==◌, [], ◌∷◌, ◌++◌, ◌≡◌, ◌≢◌, ◌↔◌, refl, sym, ap, arith,
  Bool-cases, append-nil, append_assoc, ◌∙◌, inl, inr, or_iff, ==_iff,
}
use ldf.Forge.Glob.{
  match_byte, try_suffixes, glob_from, glob_match_internal, glob_match, Matches, empty, any_byte,
  same_byte, star,
}

-- The pattern matches what is left after some bytes.
abbrev MatchesLater : Text → Text → Type 0
MatchesLater p t = (skipped s : Text) × (t ≡ skipped ++ s) × Matches p s

abbrev Meaning : Bool → Text → Text → Type 0
Meaning true p t = MatchesLater p t
Meaning false p t = Matches p t

later_of_now : (b : Bool) (p t : Text) → Matches p t → Meaning b p t
later_of_now true p t m = ([], t, refl, m)
later_of_now false p t m = m

match_byte_sound :
    (c : ℕ) (p : Text) (next : Text → Bool)
    → c ≢ b'*'
    → ((t : Text) → next t ≡ true → Matches p t)
    → (s : Text) → match_byte c next s ≡ true
    → Matches (c ∷ p) s
unfolding match_byte
match_byte_sound c p next no_star sound [] h = cc
match_byte_sound c p next no_star sound (x ∷ s) h = elim (Bool-cases (c == b'?')) [
  | inl q ↦ any_byte ((==_iff c _).0 q) (sound s (rw q at h))
  | inr q ↦
      let both : (c ≡ x) × (next s ≡ true) = ground arith in
      same_byte no_star (ground arith) both.0 (sound s both.1)
]

try_suffixes_sound :
    (p : Text) (next : Text → Bool)
    → ((t : Text) → next t ≡ true → Matches p t)
    → (s : Text) → try_suffixes next s ≡ true
    → MatchesLater p s
unfolding try_suffixes
try_suffixes_sound p next sound [] h = ([], [], refl, sound [] h)
try_suffixes_sound p next sound (x ∷ s) h = elim ((or_iff (next (x ∷ s)) _).0 h) [
  | inl e ↦ ([], x ∷ s, refl, sound (x ∷ s) e)
  | inr e ↦
      let (sk, r, q, m) = try_suffixes_sound p next sound s e in (x ∷ sk, r, ap (λ t. x ∷ t) q, m)
]

glob_from_sound : (b : Bool) (p s : Text) → glob_from b p s ≡ true → Meaning b p s
unfolding glob_from
glob_from_sound true [] s h = (s, [], sym (append-nil s), empty)
glob_from_sound false [] [] h = empty
glob_from_sound false [] (x ∷ s) h = cc
glob_from_sound true (c ∷ p) s h = elim (Bool-cases (c == b'*')) [
  | inl q ↦
      let (sk, r, e, m) = glob_from_sound true p s (rw (q, glob_from) at h) in
      ([], s, refl, star sk r ((==_iff c _).0 q) e m)
  | inr q ↦
      try_suffixes_sound (c ∷ p) (match_byte c (glob_from false p))
        (match_byte_sound c p (glob_from false p) (ground arith) (glob_from_sound false p)) s
        (rw (q, glob_from) at h)
]
glob_from_sound false (c ∷ p) s h = elim (Bool-cases (c == b'*')) [
  | inl q ↦
      let (sk, r, e, m) = glob_from_sound true p s (rw (q, glob_from) at h) in
      star sk r ((==_iff c _).0 q) e m
  | inr q ↦
      match_byte_sound c p (glob_from false p) (ground arith) (glob_from_sound false p) s
        (rw (q, glob_from) at h)
]

match_byte_complete :
    (c : ℕ) (p : Text) (next : Text → Bool)
    → c ≢ b'*'
    → ((t : Text) → Matches p t → next t ≡ true)
    → (s : Text) → Matches (c ∷ p) s
    → match_byte c next s ≡ true
unfolding match_byte
match_byte_complete c p next no_star complete (x ∷ s) (any_byte q m) = ground (arith, complete s m)
match_byte_complete c p next no_star complete (x ∷ s) (same_byte _ _ q m) =
    ground (arith, complete s m)
match_byte_complete c p next no_star complete s (star sk r q e m) = absurd (no_star q)

try_suffixes_complete :
    (next : Text → Bool) (skipped s : Text)
    → next s ≡ true
    → try_suffixes next (skipped ++ s) ≡ true
unfolding try_suffixes
try_suffixes_complete next [] [] h = h
try_suffixes_complete next [] (x ∷ s) h = (or_iff _ _).1 (inl h)
try_suffixes_complete next (x ∷ sk) s h = (or_iff _ _).1 (inr (try_suffixes_complete next sk s h))

-- A star passes over the bytes that the star before it left.
later-star : (c : ℕ) (p t : Text) → c ≡ b'*' → MatchesLater (c ∷ p) t → MatchesLater p t
later-star c p t q (sk, r, e, any_byte k m) = absurd (omega arith)
later-star c p t q (sk, r, e, same_byte n _ _ m) = absurd (n q)
later-star c p t q (sk, r, e, star sk' r' _ e' m) =
    (sk ++ sk', r', e ∙ (ap (λ u. sk ++ u) e' ∙ sym (append_assoc sk sk' r')), m)

glob_from_complete : (b : Bool) (p s : Text) → Meaning b p s → glob_from b p s ≡ true
unfolding glob_from
glob_from_complete true [] s m = refl
glob_from_complete false [] s empty = refl
glob_from_complete true (c ∷ p) s m = elim (Bool-cases (c == b'*')) [
  | inl q ↦ rw (q, glob_from) (glob_from_complete true p s (later-star c p s ((==_iff c _).0 q) m))
  | inr q ↦
      let (sk, r, e, d) = m in
      rw (q, glob_from)
        (rw e (
          try_suffixes_complete (match_byte c (glob_from false p)) sk r (
            match_byte_complete c p (glob_from false p) (ground arith) (glob_from_complete false p)
              r d)))
]
glob_from_complete false (c ∷ p) s m = elim (Bool-cases (c == b'*')) [
  | inl q ↦
      rw (q, glob_from)
        (glob_from_complete true p s
          (later-star c p s ((==_iff c _).0 q) (later_of_now true (c ∷ p) s m)))
  | inr q ↦
      rw (q, glob_from)
        (match_byte_complete c p (glob_from false p) (ground arith) (glob_from_complete false p) s
          m)
]

-- For every pattern and text, the matcher answers true exactly when the text matches the pattern:
-- a star stands for any bytes, also none, `?` for one byte, any other byte for itself.
pub glob_match_internal_iff : (p s : Text) → (glob_match_internal p s ≡ true) ↔ Matches p s
unfolding glob_match_internal
glob_match_internal_iff p s = (glob_from_sound false p s, glob_from_complete false p s)

pub glob_match_iff : (p s : Text) → (glob_match p s ≡ true) ↔ Matches (to_lower p) (to_lower s)
unfolding glob_match
glob_match_iff p s = glob_match_internal_iff (to_lower p) (to_lower s)
