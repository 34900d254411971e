-- ===== src/Auth/Tokens/Newest.antt =====
-- Which tokens `CleanupExcessTokens` of ldfd/auth/tokens.go deletes.
use ldf.Prelude.{
  ℕ, zero, suc, ◌≤◌, Text, text_eq, text_eq_sound, text_eq_refl, Bool, true, false, not, ◌||◌, ltb,
  List, [], ◌∷◌, All, Any, keep, take, is_row, ◌≡◌, ◌↔◌, refl, sym, ap, ◌∙◌, subst, arith,
  Bool-cases, inl, inr,
}
use ldf.Auth.{RefreshToken, Database}
use ldf.Auth.Tokens.{token_key, is_active, insert_newest, newest_first, cleanup_excess_tokens}
use ldf.Auth.Tokens.Excess.{IdsUnique, one_of}

abbrev pub In : RefreshToken → List RefreshToken → Type 0
In t rows = Any (λ r. r ≡ t) rows

pub In-keep :
    (test : RefreshToken → Bool) (t : RefreshToken) (rows : List RefreshToken)
    → In t (keep test rows) ↔ (In t rows × (test t ≡ true))
In-keep test t [] = ground arith
In-keep test t (r ∷ rows) =
    let (there, back) = In-keep test t rows in
    elim (Bool-cases (test r)) [
      | inl e ↦ rw e (
        (λ i. elim i [
          | inl q ↦ (inl q, subst (λ x. test x ≡ true) q e)
          | inr j ↦ (inr (there j).0, (there j).1)
        ]),
        (λ w. elim w.0 [ inl q ↦ inl q | inr j ↦ inr (back (j, w.1)) ]),
      )
      | inr e ↦ rw e (
        (λ i. (inr (there i).0, (there i).1)),
        (λ w. elim w.0 [
          | inl q ↦ let yes : test r ≡ true = subst (λ x. test x ≡ true) (sym q) w.1 in cc
          | inr j ↦ back (j, w.1)
        ]),
      )
    ]

In-insert_newest :
    (k t : RefreshToken) (rows : List RefreshToken) → In k (insert_newest t rows) ↔ In k (t ∷ rows)
unfolding insert_newest
In-insert_newest k t [] = ground arith
In-insert_newest k t (r ∷ rows) = ground (arith, In-insert_newest k t rows)

pub In-newest_first :
    (k : RefreshToken) (rows : List RefreshToken) → In k (newest_first rows) ↔ In k rows
unfolding newest_first
In-newest_first k [] = ground arith
In-newest_first k (t ∷ rows) =
    ground (arith, In-insert_newest k t (newest_first rows), In-newest_first k rows)

abbrev NewestFirst : List RefreshToken → Type 0
NewestFirst [] = Unit
NewestFirst (t ∷ rows) = All (λ r. r.created_at ≤ t.created_at) rows × NewestFirst rows

All-insert_newest :
    (l t : RefreshToken) (rows : List RefreshToken)
    → t.created_at ≤ l.created_at
    → All (λ r. r.created_at ≤ l.created_at) rows
    → All (λ r. r.created_at ≤ l.created_at) (insert_newest t rows)
unfolding insert_newest
All-insert_newest l t [] e h = (e, tt)
All-insert_newest l t (r ∷ rows) e h = elim (Bool-cases (ltb r.created_at t.created_at)) [
  | inl b ↦ rw b (e, h)
  | inr b ↦ rw b (h.0, All-insert_newest l t rows e h.1)
]

All-older :
    (l t : RefreshToken) (rows : List RefreshToken)
    → l.created_at ≤ t.created_at
    → All (λ r. r.created_at ≤ l.created_at) rows
    → All (λ r. r.created_at ≤ t.created_at) rows
All-older l t [] e h = tt
All-older l t (r ∷ rows) e h = (omega arith, All-older l t rows e h.1)

insert_newest-NewestFirst :
    (t : RefreshToken) (rows : List RefreshToken)
    → NewestFirst rows
    → NewestFirst (insert_newest t rows)
unfolding insert_newest
insert_newest-NewestFirst t [] h = (tt, tt)
insert_newest-NewestFirst t (r ∷ rows) h = elim (Bool-cases (ltb r.created_at t.created_at)) [
  | inl b ↦ rw b ((ground arith, All-older r t rows (ground arith) h.0), h)
  | inr b ↦
      rw b (All-insert_newest r t rows (ground arith) h.0, insert_newest-NewestFirst t rows h.1)
]

newest_first-NewestFirst : (rows : List RefreshToken) → NewestFirst (newest_first rows)
unfolding newest_first
newest_first-NewestFirst [] = tt
newest_first-NewestFirst (t ∷ rows) =
    insert_newest-NewestFirst t (newest_first rows) (newest_first-NewestFirst rows)

All-at :
    (l t : RefreshToken) (rows : List RefreshToken)
    → All (λ r. r.created_at ≤ l.created_at) rows
    → In t rows
    → t.created_at ≤ l.created_at
All-at l t [] h i = absurd i
All-at l t (r ∷ rows) h (inl e) = subst (λ x. x.created_at ≤ l.created_at) e h.0
All-at l t (r ∷ rows) h (inr i) = All-at l t rows h.1 i

pub In-take : (n : ℕ) (u : RefreshToken) (rows : List RefreshToken) → In u (take n rows) → In u rows
In-take zero u rows i = absurd i
In-take (suc n) u [] i = absurd i
In-take (suc n) u (r ∷ rows) (inl e) = inl e
In-take (suc n) u (r ∷ rows) (inr i) = inr (In-take n u rows i)

-- What is taken from the front is not older than what is not.
take-newer :
    (n : ℕ) (t u : RefreshToken) (rows : List RefreshToken)
    → NewestFirst rows
    → In t rows
    → ¬ (In t (take n rows))
    → In u (take n rows)
    → t.created_at ≤ u.created_at
take-newer zero t u rows h i out j = absurd j
take-newer (suc n) t u [] h i out j = absurd j
take-newer (suc n) t u (r ∷ rows) h (inl e) out j = absurd (out (inl e))
take-newer (suc n) t u (r ∷ rows) h (inr i) out (inl e) =
    subst (λ x. t.created_at ≤ x.created_at) e (All-at r t rows h.0 i)
take-newer (suc n) t u (r ∷ rows) h (inr i) out (inr j) =
    take-newer n t u rows h.1 i (λ k. out (inr k)) j

pub In-one_of :
    (t : RefreshToken) (chosen : List RefreshToken) → In t chosen → one_of chosen t ≡ true
In-one_of t [] i = absurd i
In-one_of t (c ∷ chosen) (inl e) =
    let same : text_eq t.id t.id ≡ true = text_eq_refl t.id in
    let found : text_eq t.id c.id ≡ true = subst (λ x. text_eq t.id x.id ≡ true) (sym e) same in
    rw found refl
In-one_of t (c ∷ chosen) (inr i) = let later = In-one_of t chosen i in ground (arith, later)

one_of-In :
    (t : RefreshToken) (chosen : List RefreshToken)
    → one_of chosen t ≡ true
    → (c : RefreshToken) × In c chosen × (t.id ≡ c.id)
one_of-In t [] h = cc
one_of-In t (c ∷ chosen) h = elim (Bool-cases (text_eq t.id c.id)) [
  | inl e ↦ (c, inl refl, text_eq_sound t.id c.id e)
  | inr e ↦ let (d, i, same) = one_of-In t chosen (rw e at h) in (d, inr i, same)
]

is_row-In :
    (c : RefreshToken) (rows : List RefreshToken) → In c rows → is_row token_key c.id rows ≡ true
unfolding is_row
is_row-In c [] i = absurd i
is_row-In c (r ∷ rows) (inl e) =
    let found : text_eq c.id r.id ≡ true =
      subst (λ x. text_eq c.id x.id ≡ true) (sym e) (text_eq_refl c.id) in
    rw found refl
is_row-In c (r ∷ rows) (inr i) = let later = is_row-In c rows i in ground (arith, later)

-- The head's id stands in no row of the rest.
head_apart :
    (r c : RefreshToken) (rows : List RefreshToken)
    → is_row token_key r.id rows ≡ false
    → In c rows
    → ¬ (r.id ≡ c.id)
head_apart r c rows h i e =
    let found = is_row-In c rows i in
    let found' : is_row token_key r.id rows ≡ true = rw e found in cc

same_row :
    (u c : RefreshToken) (rows : List RefreshToken)
    → IdsUnique rows
    → In u rows
    → In c rows
    → u.id ≡ c.id
    → c ≡ u
same_row u c [] h i j e = absurd i
same_row u c (r ∷ rows) h (inl p) (inl q) e = sym q ∙ p
same_row u c (r ∷ rows) h (inl p) (inr j) e =
    absurd (head_apart r c rows h.0 j (ap (λ x. x.id) p ∙ e))
same_row u c (r ∷ rows) h (inr i) (inl q) e =
    absurd (head_apart r u rows h.0 i (ap (λ x. x.id) q ∙ sym e))
same_row u c (r ∷ rows) h (inr i) (inr j) e = same_row u c rows h.1 i j e

-- Of a user's active refresh tokens a clean-up deletes the oldest ones: none that it deletes is newer than
-- one that it keeps, if no id stands in two rows.
pub cleanup_excess_tokens-newest :
    (db : Database) (now : ℕ) (user_id : Text) (max_tokens : ℕ) (deleted kept : RefreshToken)
    → IdsUnique db.refresh_tokens
    → is_active now user_id deleted ≡ true
    → is_active now user_id kept ≡ true
    → In deleted db.refresh_tokens
    → ¬ (In deleted (cleanup_excess_tokens db now user_id max_tokens).refresh_tokens)
    → In kept (cleanup_excess_tokens db now user_id max_tokens).refresh_tokens
    → deleted.created_at ≤ kept.created_at
unfolding cleanup_excess_tokens
cleanup_excess_tokens-newest db now user_id max_tokens deleted kept unique a b i out j =
    let rows = db.refresh_tokens in
    let sorted = newest_first (keep (is_active now user_id) rows) in
    let chosen = take max_tokens sorted in
    let test : RefreshToken → Bool = λ t. not (is_active now user_id t) || one_of chosen t in
    let (k, passes) = (In-keep test kept rows).0 j in
    let is_chosen : one_of chosen kept ≡ true = rw b at passes in
    let (c, l, same) = one_of-In kept chosen is_chosen in
    let in_rows : In c rows =
      ((In-keep (is_active now user_id) c rows).0 (
        (In-newest_first c (keep (is_active now user_id) rows)).0
          (In-take max_tokens c sorted l))).0 in
    let kept_chosen : In kept chosen =
      subst (λ x. In x chosen) (same_row kept c rows unique k in_rows same) l in
    let not_chosen : ¬ (In deleted chosen) = λ m. out (
      (In-keep test deleted rows).1
        (i, (let found = In-one_of deleted chosen m in rw (a, found) refl))) in
    let ordered : In deleted sorted =
      (In-newest_first deleted (keep (is_active now user_id) rows)).1
        ((In-keep (is_active now user_id) deleted rows).1 (i, a)) in
    take-newer max_tokens deleted kept sorted
      (newest_first-NewestFirst (keep (is_active now user_id) rows)) ordered not_chosen kept_chosen
