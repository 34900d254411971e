-- ===== src/Prelude/StringLaws.antt =====
-- Laws of the text functions.
use Prim.Native.Nat.{ℕ}
use mathlib.Core.Path.{◌≡◌, refl, sym, ap, ap₂, ◌∙◌}
use mathlib.Core.Logic.{◌↔◌, ◌≢◌}
use mathlib.Core.Bool.{true, false}
use mathlib.Core.List.{List, [], ◌∷◌, ◌++◌, reverse, reverse-append, reverse-reverse}
use native.Mathlib.Omega.{arith}
use ldf.Prelude.Lists.{length, drop, All, is_nil}
use ldf.Prelude.Strings.{
  Text, text_eq, to_lower_byte, to_lower, has_prefix, trim_prefix, split_on, join, is_space,
  trim_left, trim_space,
}

pub text_eq_sound : (s t : Text) → text_eq s t ≡ true → s ≡ t
unfolding text_eq
text_eq_sound [] [] h = refl
text_eq_sound [] (b ∷ t) h = cc
text_eq_sound (a ∷ s) [] h = cc
text_eq_sound (a ∷ s) (b ∷ t) h = ground (arith, text_eq_sound s t)

pub text_eq_refl : (s : Text) → text_eq s s ≡ true
unfolding text_eq
text_eq_refl [] = refl
text_eq_refl (a ∷ s) = ground (arith, text_eq_refl s)

pub text_eq_iff : (s t : Text) → (text_eq s t ≡ true) ↔ (s ≡ t)
text_eq_iff s t = (text_eq_sound s t, λ e. rw e (text_eq_refl t))

pub to_lower_byte_idem : (c : ℕ) → to_lower_byte (to_lower_byte c) ≡ to_lower_byte c
unfolding to_lower_byte
to_lower_byte_idem c = ground arith

pub to_lower_idem : (s : Text) → to_lower (to_lower s) ≡ to_lower s
unfolding to_lower
to_lower_idem [] = refl
to_lower_idem (c ∷ s) = ap₂ ◌∷◌ (to_lower_byte_idem c) (to_lower_idem s)

-- A prefix is what the text begins with.
pub has_prefix-append : (p s : Text) → has_prefix (p ++ s) p ≡ true
unfolding has_prefix
has_prefix-append [] s = refl
has_prefix-append (c ∷ p) s = ground (arith, has_prefix-append p s)

pub has_prefix_sound : (s p : Text) → has_prefix s p ≡ true → s ≡ p ++ drop (length p) s
unfolding has_prefix
has_prefix_sound s [] h = refl
has_prefix_sound [] (c ∷ p) h = cc
has_prefix_sound (a ∷ s) (c ∷ p) h = ground (arith, has_prefix_sound s p)

pub drop-append : (p s : Text) → drop (length p) (p ++ s) ≡ s
drop-append [] s = refl
drop-append (c ∷ p) s = drop-append p s

pub trim_prefix-append : (p s : Text) → trim_prefix (p ++ s) p ≡ s
unfolding trim_prefix
trim_prefix-append p s = rw has_prefix-append (drop-append p s)

-- Splitting undoes joining, for parts that do not hold the separator.
pub split_on-part :
    (sep : ℕ) (p rest : Text)
    → All (λ c. c ≢ sep) p
    → split_on sep (p ++ sep ∷ rest) ≡ p ∷ split_on sep rest
unfolding split_on
split_on-part sep [] rest h = ground arith
split_on-part sep (c ∷ p) rest h = ground (arith, split_on-part sep p rest)

split_on-last : (sep : ℕ) (p : Text) → All (λ c. c ≢ sep) p → split_on sep p ≡ p ∷ []
unfolding split_on
split_on-last sep [] h = refl
split_on-last sep (c ∷ p) h = ground (arith, split_on-last sep p)

pub split_on-join :
    (sep : ℕ) (p : Text) (ps : List Text)
    → All (λ q. All (λ c. c ≢ sep) q) (p ∷ ps)
    → split_on sep (join (sep ∷ []) (p ∷ ps)) ≡ p ∷ ps
unfolding join
split_on-join sep p [] h = split_on-last sep p h.0
split_on-join sep p (q ∷ ps) h =
    split_on-part sep p (join (sep ∷ []) (q ∷ ps)) h.0
    ∙ ap (λ t. p ∷ t) (split_on-join sep q ps h.1)

pub is_nil-append_cons {ℓ} : {A : Type ℓ} (s t : List A) (c : A) → is_nil (s ++ c ∷ t) ≡ false
is_nil-append_cons [] t c = refl
is_nil-append_cons (x ∷ s) t c = refl

trim_left-cons : (c : ℕ) (s : Text) → is_space c ≡ false → trim_left (c ∷ s) ≡ c ∷ s
unfolding trim_left
trim_left-cons c s h = rw h

-- A text that begins and ends with no space keeps its ends.
pub trim_space-id :
    (c d : ℕ) (s : Text)
    → is_space c ≡ false
    → is_space d ≡ false
    → trim_space (c ∷ (s ++ d ∷ [])) ≡ c ∷ (s ++ d ∷ [])
unfolding trim_space
trim_space-id c d s h k =
    let t = c ∷ (s ++ d ∷ []) in
    let flipped : reverse t ≡ d ∷ reverse (c ∷ s) = reverse-append (c ∷ s) (d ∷ []) in
    rw (trim_left-cons c (s ++ d ∷ []) h) (
      rw flipped
        (rw (trim_left-cons d (reverse (c ∷ s)) k) (ap reverse (sym flipped) ∙ reverse-reverse t)))
