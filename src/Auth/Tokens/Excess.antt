-- ===== src/Auth/Tokens/Excess.antt =====
-- The rows that `CleanupExcessTokens` of ldfd/auth/tokens.go keeps because they are chosen.
use ldf.Prelude.{
  ℕ, ◌+◌, ◌≤◌, Text, text_eq, text_eq_sound, or_false, Bool, false, not, ◌||◌, List, [], ◌∷◌, any,
  keep, length, is_row, ◌≡◌, refl, ap, arith, Bool-cases, inl, inr,
}
use ldf.Auth.{RefreshToken}
use ldf.Auth.Tokens.Rows.{text_eq_apart}
use ldf.Auth.Tokens.{token_key, is_active}

-- No id stands in two rows, as the primary key has it.
abbrev pub IdsUnique : List RefreshToken → Type 0
IdsUnique [] = Unit
IdsUnique (t ∷ rows) = (is_row token_key t.id rows ≡ false) × IdsUnique rows

-- The row is one of these.
abbrev pub one_of : List RefreshToken → RefreshToken → Bool
one_of chosen t = any (λ u. text_eq t.id u.id) chosen

keep_or :
    {A : Type 0} (p q : A → Bool) (rows : List A)
    → length (keep (λ t. p t || q t) rows) ≤ length (keep p rows) + length (keep q rows)
keep_or p q [] = omega arith
keep_or p q (t ∷ rows) = ground (arith, keep_or p q rows)

none_with_id :
    (id : Text) (rows : List RefreshToken)
    → is_row token_key id rows ≡ false
    → length (keep (λ t. text_eq t.id id) rows) ≡ 0
unfolding is_row
none_with_id id [] h = refl
none_with_id id (t ∷ rows) h =
    let (apart, rest) = or_false (text_eq id t.id) _ h in
    rw (text_eq_apart id t.id apart) (none_with_id id rows rest)

one_with_id :
    (id : Text) (rows : List RefreshToken)
    → IdsUnique rows
    → length (keep (λ t. text_eq t.id id) rows) ≤ 1
one_with_id id [] u = omega arith
one_with_id id (t ∷ rows) u = elim (Bool-cases (text_eq t.id id)) [
  | inl e ↦
      let same : t.id ≡ id = text_eq_sound t.id id e in
      let others = none_with_id id rows (rw same at u.0) in rw e (omega arith)
  | inr e ↦ rw e (one_with_id id rows u.1)
]

none_chosen : (rows : List RefreshToken) → length (keep (one_of []) rows) ≡ 0
none_chosen [] = refl
none_chosen (t ∷ rows) = none_chosen rows

pub length-one_of :
    (chosen rows : List RefreshToken)
    → IdsUnique rows
    → length (keep (one_of chosen) rows) ≤ length chosen
length-one_of [] rows u = let e = none_chosen rows in omega arith
length-one_of (c ∷ chosen) rows u =
    let first = one_with_id c.id rows u in
    let rest = length-one_of chosen rows u in
    let both = keep_or (λ t. text_eq t.id c.id) (one_of chosen) rows in omega arith

-- Of the rows that are kept, those that are active are among the chosen ones.
pub active_chosen :
    (now : ℕ) (user_id : Text) (chosen rows : List RefreshToken)
    → length (
        keep
          (is_active now user_id)
          (keep (λ t. not (is_active now user_id t) || one_of chosen t) rows))
      ≤ length (keep (one_of chosen) rows)
active_chosen now user_id chosen [] = omega arith
active_chosen now user_id chosen (t ∷ rows) =
    let rest = active_chosen now user_id chosen rows in
    elim (Bool-cases (is_active now user_id t)) [
      | inl e ↦ elim (Bool-cases (one_of chosen t)) [
        | inl c ↦ rw (e, c) (rw e (omega arith))
        | inr c ↦ rw (e, c) rest
      ]
      | inr e ↦ elim (Bool-cases (one_of chosen t)) [
        | inl c ↦ rw (e, c) (rw e (omega arith))
        | inr c ↦ rw (e, c) (rw e rest)
      ]
    ]

pub inactive_kept :
    (now : ℕ) (user_id : Text) (chosen rows : List RefreshToken)
    → keep
        (λ t. not (is_active now user_id t))
        (keep (λ t. not (is_active now user_id t) || one_of chosen t) rows)
      ≡ keep (λ t. not (is_active now user_id t)) rows
inactive_kept now user_id chosen [] = refl
inactive_kept now user_id chosen (t ∷ rows) =
    let rest = inactive_kept now user_id chosen rows in
    elim (Bool-cases (is_active now user_id t)) [
      | inl e ↦ elim (Bool-cases (one_of chosen t)) [
        | inl c ↦ rw (e, c) (rw e rest)
        | inr c ↦ rw (e, c) rest
      ]
      | inr e ↦ rw e (rw e (ap (λ kept. t ∷ kept) rest))
    ]
