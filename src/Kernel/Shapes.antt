-- ===== src/Kernel/Shapes.antt =====
-- Keys, values and the matches of the two regular expressions (ldfd/build/kernel/config.go).
use ldf.Prelude.{
  ℕ, suc, ◌-◌, Text, codes, text_eq_refl, has_suffix, true, false, [], ◌∷◌, ◌++◌, none, some,
  is_nil, is_nil-append_cons, take, length, length-append, ◌≡◌, ◌≢◌, refl, ap, arith, All,
}
use ldf.Kernel.Parse.{
  is_key_byte, span_key, config_prefix, value_after, match_set, match_unset, strip_quotes,
}

-- CONFIG_ and a name of capitals, digits and underscores.
pub record IsKey (key : Text) : Type 0 where
  pub name : Text
  pub shape : key ≡ config_prefix ++ name
  pub filled : is_nil name ≡ false
  pub bytes : All (λ c. is_key_byte c ≡ true) name

abbrev pub NoNewline : Text → Type 0
NoNewline s = All (λ c. c ≢ 10) s

pub record IsEntry (key value : Text) : Type 0 where
  pub key_ok : IsKey key
  pub one_line : NoNewline value

pub span_key-append :
    (name rest : Text) (c : ℕ)
    → All (λ x. is_key_byte x ≡ true) name
    → is_key_byte c ≡ false
    → span_key (name ++ c ∷ rest) ≡ (name, c ∷ rest)
unfolding span_key
span_key-append [] rest c h k = rw k
span_key-append (x ∷ name) rest c h k = rw (span_key-append name rest c h.1 k, h.0)

pub key_ends : (is_key_byte b'=' ≡ false) × (is_key_byte 32 ≡ false)
unfolding is_key_byte
key_ends = (refl, refl)

pub match_set-line :
    (name value : Text)
    → is_nil name ≡ false
    → All (λ x. is_key_byte x ≡ true) name
    → match_set ((config_prefix ++ name) ++ b'=' ∷ value) ≡ some (config_prefix ++ name, value)
unfolding match_set value_after
match_set-line name value f h = ground (arith, span_key-append name value b'=' h key_ends.0)

pub match_unset-line :
    (name : Text)
    → is_nil name ≡ false
    → All (λ x. is_key_byte x ≡ true) name
    → (match_set (codes "# " ++ ((config_prefix ++ name) ++ codes " is not set")) ≡ none)
      × (match_unset (codes "# " ++ ((config_prefix ++ name) ++ codes " is not set"))
          ≡ some (config_prefix ++ name))
unfolding match_set match_unset
match_unset-line name f h = (
  refl,
  ground (
    arith,
    span_key-append name (codes "is not set") 32 h key_ends.1,
    text_eq_refl (codes " is not set"),
  ),
)

has_suffix-append : (s t : Text) → has_suffix (s ++ t) t ≡ true
unfolding has_suffix
has_suffix-append [] [] = refl
has_suffix-append [] (c ∷ t) = ground (arith, text_eq_refl (c ∷ t))
has_suffix-append (x ∷ s) t = ground (arith, has_suffix-append s t)

take_before : (s t : Text) → take (length s) (s ++ t) ≡ s
take_before [] t = refl
take_before (c ∷ s) t = ap (λ u. c ∷ u) (take_before s t)

strip_length : (value : Text) → suc (length (value ++ b'"' ∷ [])) - 2 ≡ length value
strip_length value = omega (arith, length-append value (codes "\""))

pub strip_quotes-quoted : (value : Text) → strip_quotes (b'"' ∷ (value ++ b'"' ∷ [])) ≡ some value
unfolding strip_quotes
strip_quotes-quoted value = ground (
  arith,
  has_suffix-append value (codes "\""),
  length-append value (codes "\""),
  take_before value (codes "\""),
  is_nil-append_cons value [] b'"',
  strip_length value,
)
