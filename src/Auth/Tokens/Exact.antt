-- ===== src/Auth/Tokens/Exact.antt =====
-- How many tokens `CleanupExcessTokens` of ldfd/auth/tokens.go leaves.
use Prim.Native.Nat.{min}
use ldf.Prelude.{
  ℕ, zero, suc, ◌≤◌, ◌<◌, Text, text_eq, text_eq_refl, or_false, Bool, false, not, ◌||◌, ltb, List,
  [], ◌∷◌, All, keep, take, length, is_row, ◌≡◌, refl, sym, subst, arith, Bool-cases, inl, inr,
}
use ldf.Auth.{RefreshToken, Database}
use ldf.Auth.Tokens.{
  token_key, is_active, insert_newest, newest_first, cleanup_excess_tokens,
  get_user_refresh_token_count,
}
use ldf.Auth.Tokens.Rows.{text_eq_apart}
use ldf.Auth.Tokens.Excess.{IdsUnique, one_of, length-one_of, active_chosen, inactive_kept}
use ldf.Auth.Tokens.Newest.{In, In-keep, In-newest_first, In-take, In-one_of}

length-keep :
    (test : RefreshToken → Bool) (rows : List RefreshToken) → length (keep test rows) ≤ length rows
length-keep test [] = omega arith
length-keep test (r ∷ rows) = ground (arith, length-keep test rows)

length-keep_less :
    (test : RefreshToken → Bool) (t : RefreshToken) (rows : List RefreshToken)
    → test t ≡ false
    → In t rows
    → length (keep test rows) < length rows
length-keep_less test t [] h i = absurd i
length-keep_less test t (r ∷ rows) h (inl e) =
    let no : test r ≡ false = subst (λ x. test x ≡ false) (sym e) h in
    let rest = length-keep test rows in rw no (omega arith)
length-keep_less test t (r ∷ rows) h (inr i) =
    let rest = length-keep_less test t rows h i in ground arith

-- Another row than those with this id.
abbrev apart_from : Text → RefreshToken → Bool
apart_from id r = not (text_eq id r.id)

still-In :
    (id : Text) (xs ys : List RefreshToken)
    → is_row token_key id xs ≡ false
    → All (λ x. In x ys) xs
    → All (λ x. In x (keep (apart_from id) ys)) xs
unfolding is_row
still-In id [] ys h a = tt
still-In id (x ∷ xs) ys h a =
    let (apart, rest) = or_false (text_eq id x.id) _ h in
    ((In-keep (apart_from id) x ys).1 (a.0, rw apart refl), still-In id xs ys rest a.1)

-- Rows with ids of their own that all stand in a table are no more than it has.
length-subset :
    (xs ys : List RefreshToken) → IdsUnique xs → All (λ x. In x ys) xs → length xs ≤ length ys
length-subset [] ys u a = omega arith
length-subset (x ∷ xs) ys u a =
    let gone : apart_from x.id x ≡ false = rw (text_eq_refl x.id) refl in
    let less = length-keep_less (apart_from x.id) x ys gone a.0 in
    let rest = length-subset xs (keep (apart_from x.id) ys) u.1 (still-In x.id xs ys u.0 a.1) in
    omega arith

is_row-keep :
    (id : Text) (test : RefreshToken → Bool) (rows : List RefreshToken)
    → is_row token_key id rows ≡ false
    → is_row token_key id (keep test rows) ≡ false
unfolding is_row
is_row-keep id test [] h = refl
is_row-keep id test (r ∷ rows) h = ground (arith, is_row-keep id test rows)

IdsUnique-keep :
    (test : RefreshToken → Bool) (rows : List RefreshToken)
    → IdsUnique rows
    → IdsUnique (keep test rows)
IdsUnique-keep test [] u = tt
IdsUnique-keep test (r ∷ rows) u = elim (Bool-cases (test r)) [
  | inl e ↦ rw e (is_row-keep r.id test rows u.0, IdsUnique-keep test rows u.1)
  | inr e ↦ rw e (IdsUnique-keep test rows u.1)
]

is_row-insert_newest :
    (id : Text) (t : RefreshToken) (rows : List RefreshToken)
    → text_eq id t.id ≡ false
    → is_row token_key id rows ≡ false
    → is_row token_key id (insert_newest t rows) ≡ false
unfolding insert_newest is_row
is_row-insert_newest id t [] n h = ground arith
is_row-insert_newest id t (r ∷ rows) n h = ground (arith, is_row-insert_newest id t rows)

insert_newest-IdsUnique :
    (t : RefreshToken) (rows : List RefreshToken)
    → is_row token_key t.id rows ≡ false
    → IdsUnique rows
    → IdsUnique (insert_newest t rows)
unfolding insert_newest is_row
insert_newest-IdsUnique t [] n u = (refl, tt)
insert_newest-IdsUnique t (r ∷ rows) n u =
    let (apart, rest) = or_false (text_eq t.id r.id) _ n in
    elim (Bool-cases (ltb r.created_at t.created_at)) [
      | inl e ↦ rw e (n, u)
      | inr e ↦ rw e (
        is_row-insert_newest r.id t rows (text_eq_apart t.id r.id apart) u.0,
        insert_newest-IdsUnique t rows rest u.1,
      )
    ]

is_row-newest_first :
    (id : Text) (rows : List RefreshToken)
    → is_row token_key id rows ≡ false
    → is_row token_key id (newest_first rows) ≡ false
unfolding newest_first is_row
is_row-newest_first id [] h = refl
is_row-newest_first id (r ∷ rows) h =
    let (apart, rest) = or_false (text_eq id r.id) _ h in
    is_row-insert_newest id r (newest_first rows) apart (is_row-newest_first id rows rest)

newest_first-IdsUnique : (rows : List RefreshToken) → IdsUnique rows → IdsUnique (newest_first rows)
unfolding newest_first
newest_first-IdsUnique [] u = tt
newest_first-IdsUnique (r ∷ rows) u =
    insert_newest-IdsUnique r (newest_first rows) (is_row-newest_first r.id rows u.0)
      (newest_first-IdsUnique rows u.1)

is_row-take :
    (id : Text) (n : ℕ) (rows : List RefreshToken)
    → is_row token_key id rows ≡ false
    → is_row token_key id (take n rows) ≡ false
unfolding is_row
is_row-take id zero rows h = refl
is_row-take id (suc n) [] h = refl
is_row-take id (suc n) (r ∷ rows) h = ground (arith, is_row-take id n rows)

take-IdsUnique : (n : ℕ) (rows : List RefreshToken) → IdsUnique rows → IdsUnique (take n rows)
take-IdsUnique zero rows u = tt
take-IdsUnique (suc n) [] u = tt
take-IdsUnique (suc n) (r ∷ rows) u = (is_row-take r.id n rows u.0, take-IdsUnique n rows u.1)

length-insert_newest :
    (t : RefreshToken) (rows : List RefreshToken)
    → length (insert_newest t rows) ≡ suc (length rows)
unfolding insert_newest
length-insert_newest t [] = refl
length-insert_newest t (r ∷ rows) = ground (arith, length-insert_newest t rows)

length-newest_first : (rows : List RefreshToken) → length (newest_first rows) ≡ length rows
unfolding newest_first
length-newest_first [] = refl
length-newest_first (r ∷ rows) =
    let one = length-insert_newest r (newest_first rows) in
    let rest = length-newest_first rows in omega arith

length-take_exact : (n : ℕ) (rows : List RefreshToken) → length (take n rows) ≡ min n (length rows)
length-take_exact zero rows = omega arith
length-take_exact (suc n) [] = omega arith
length-take_exact (suc n) (r ∷ rows) = let rest = length-take_exact n rows in omega arith

All-of :
    {P : RefreshToken → Type 0} (rows : List RefreshToken)
    → ((t : RefreshToken) → In t rows → P t)
    → All P rows
All-of [] f = tt
All-of (r ∷ rows) f = (f r (inl refl), All-of rows λ t i. f t (inr i))

-- A clean-up leaves a user as many active refresh tokens as there were, but no more than the limit, and
-- leaves every other row, that of another user or one that is revoked or expired, where it was, if no id
-- stands in two rows.
pub cleanup_excess_tokens-count :
    (db : Database) (now : ℕ) (user_id : Text) (max_tokens : ℕ)
    → IdsUnique db.refresh_tokens
    → let db' = cleanup_excess_tokens db now user_id max_tokens in
      (get_user_refresh_token_count db' now user_id
        ≡ min max_tokens (get_user_refresh_token_count db now user_id))
      × (keep (λ t. not (is_active now user_id t)) db'.refresh_tokens
          ≡ keep (λ t. not (is_active now user_id t)) db.refresh_tokens)
unfolding cleanup_excess_tokens get_user_refresh_token_count
cleanup_excess_tokens-count db now user_id max_tokens unique =
    let rows = db.refresh_tokens in
    let active = is_active now user_id in
    let sorted = newest_first (keep active rows) in
    let chosen = take max_tokens sorted in
    let test : RefreshToken → Bool = λ t. not (active t) || one_of chosen t in
    let most = active_chosen now user_id chosen rows in
    let few = length-one_of chosen rows unique in
    let long = length-take_exact max_tokens sorted in
    let whole = length-newest_first (keep active rows) in
    let distinct =
      take-IdsUnique max_tokens sorted
        (newest_first-IdsUnique (keep active rows) (IdsUnique-keep active rows unique)) in
    let all_kept : All (λ t. In t (keep active (keep test rows))) chosen = All-of chosen (λ t i.
      let (in_rows, is) =
        (In-keep active t rows).0
          ((In-newest_first t (keep active rows)).0 (In-take max_tokens t sorted i)) in
      (In-keep active t (keep test rows)).1 (
        (In-keep test t rows).1
            (in_rows, (let found = In-one_of t chosen i in rw (is, found) refl)),
        is,
      )) in
    let least = length-subset chosen (keep active (keep test rows)) distinct all_kept in
    (omega arith, inactive_kept now user_id chosen rows)
