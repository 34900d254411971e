-- ===== src/Forge/Glob.antt =====
-- `globMatch` and `globMatchInternal` of ldfd/forge/filter.go, and what a match means.
pub mod Decides
use ldf.Prelude.{
  ℕ, Text, to_lower, Bool, true, false, ◌&&◌, ◌||◌, ◌==◌, if◌then◌else◌, [], ◌∷◌, ◌++◌, ◌≡◌, ◌≢◌,
  is_nil,
}

-- `?` and an ordinary byte of the pattern: one byte of the text, and the rest by `next`.
match_byte : ℕ → (Text → Bool) → Text → Bool
match_byte c next [] = false
match_byte c next (x ∷ s) = if c == b'?' then next s else c == x && next s

-- The loop over `i`: the rest of the pattern is tried at each suffix of the text.
try_suffixes : (Text → Bool) → Text → Bool
try_suffixes next [] = next []
try_suffixes next (x ∷ s) = next (x ∷ s) || try_suffixes next s

-- The flag is set in the inner loop, which passes over the stars that follow a star.
unfoldable pub glob_from : Bool → Text → Text → Bool
unfolding match_byte try_suffixes
glob_from true [] s = true
glob_from false [] s = is_nil s
glob_from after_star (c ∷ p) s = elim (c == b'*') [
  | true ↦ glob_from true p s
  | false ↦
      let next = match_byte c (glob_from false p) in
      if after_star then try_suffixes next s else next s
]

unfoldable pub glob_match_internal : Text → Text → Bool
unfolding glob_from
glob_match_internal pattern_text s = glob_from false pattern_text s

unfoldable pub glob_match : Text → Text → Bool
unfolding glob_match_internal to_lower
glob_match pattern_text s = glob_match_internal (to_lower pattern_text) (to_lower s)

-- What a pattern means, with no search in it: a star stands for any bytes, `?` for one byte.
pub data Matches : Text → Text → Type 0 where
  empty : Matches [] []
  any_byte : {c x : ℕ} {p s : Text} → c ≡ b'?' → Matches p s → Matches (c ∷ p) (x ∷ s)
  same_byte :
      {c x : ℕ} {p s : Text} → c ≢ b'*' → c ≢ b'?' → c ≡ x → Matches p s → Matches (c ∷ p) (x ∷ s)
  star :
      {c : ℕ} {p t : Text} (skipped s : Text)
      → c ≡ b'*'
      → t ≡ skipped ++ s
      → Matches p s
      → Matches (c ∷ p) t
