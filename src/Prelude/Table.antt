-- ===== src/Prelude/Table.antt =====
-- A database table as the list of its rows, each with a text for its key: `SELECT … WHERE id = ?`,
-- `UPDATE … WHERE id = ?` and `DELETE … WHERE id = ?`.
use mathlib.Core.Path.{◌≡◌, refl}
use mathlib.Core.Logic.{inl, inr}
use mathlib.Core.Bool.{Bool, true, false, not}
use mathlib.Core.List.{List, [], ◌∷◌, ◌++◌, map}
use mathlib.Core.Option.{Option, none, some}
use mathlib.Core.Option
use native.Mathlib.Omega.{arith}
use ldf.Prelude.Tests.{if◌then◌else◌, Bool-cases}
use ldf.Prelude.Lists.{any, keep, find_first}
use ldf.Prelude.Strings.{Text, text_eq}
use ldf.Prelude.StringLaws.{text_eq_iff, text_eq_refl}

module _ {ℓ} {A : Type ℓ} (key : A → Text) where
  abbrev pub has_key : Text → A → Bool
  has_key id row = text_eq id (key row)

  unfoldable pub find_row : Text → List A → Option A
  unfolding text_eq
  find_row id rows = find_first (has_key id) rows

  unfoldable pub is_row : Text → List A → Bool
  unfolding text_eq
  is_row id rows = any (has_key id) rows

  unfoldable pub update_row : Text → (A → A) → List A → List A
  unfolding text_eq
  update_row id f rows = map (λ row. if has_key id row then f row else row) rows

  unfoldable pub delete_row : Text → List A → List A
  unfolding text_eq
  delete_row id rows = keep (λ row. not (has_key id row)) rows

  -- A change of a row that leaves its key alone.
  abbrev pub KeepsKey : (A → A) → Type ℓ
  KeepsKey f = (row : A) → key (f row) ≡ key row

  pub find_row-update_row :
      (id : Text) (f : A → A) (rows : List A)
      → KeepsKey f
      → find_row id (update_row id f rows) ≡ Option.map f (find_row id rows)
  unfolding find_row update_row
  find_row-update_row id f [] k = refl
  find_row-update_row id f (row ∷ rows) k = ground (arith, k row, find_row-update_row id f rows k)

  pub find_row-update_other :
      (id other : Text) (f : A → A) (rows : List A)
      → KeepsKey f
      → text_eq id other ≡ false
      → find_row other (update_row id f rows) ≡ find_row other rows
  unfolding find_row update_row
  find_row-update_other id other f [] k h = refl
  find_row-update_other id other f (row ∷ rows) k h = ground (
    arith,
    k row,
    find_row-update_other id other f rows k,
    text_eq_iff id (key row),
    text_eq_iff other (key row),
    text_eq_iff id other,
  )

  pub is_row-update_row :
      (id other : Text) (f : A → A) (rows : List A)
      → KeepsKey f
      → is_row other (update_row id f rows) ≡ is_row other rows
  unfolding is_row update_row
  is_row-update_row id other f [] k = refl
  is_row-update_row id other f (row ∷ rows) k =
      ground (arith, k row, is_row-update_row id other f rows k)

  pub find_row_of_is_row :
      (id : Text) (rows : List A)
      → is_row id rows ≡ true
      → (row : A) × (find_row id rows ≡ some row)
  unfolding find_row is_row
  find_row_of_is_row id [] h = cc
  find_row_of_is_row id (row ∷ rows) h = elim (Bool-cases (has_key id row)) [
    | inl e ↦ (row, rw e)
    | inr e ↦ rw e (find_row_of_is_row id rows (rw e at h))
  ]

  pub find_row-none : (id : Text) (rows : List A) → is_row id rows ≡ false → find_row id rows ≡ none
  unfolding find_row is_row
  find_row-none id [] h = refl
  find_row-none id (row ∷ rows) h = ground (arith, find_row-none id rows)

  pub is_row_of_find_row :
      (id : Text) (rows : List A) {row : A} → find_row id rows ≡ some row → is_row id rows ≡ true
  unfolding find_row is_row
  is_row_of_find_row id [] h = cc
  is_row_of_find_row id (row ∷ rows) {row = found} h =
      ground (arith, is_row_of_find_row id rows {row = found})

  -- A row that is found has the key.
  pub find_row-key :
      (id : Text) (rows : List A) {row : A}
      → find_row id rows ≡ some row
      → text_eq id (key row) ≡ true
  unfolding find_row
  find_row-key id [] h = cc
  find_row-key id (row ∷ rows) {row = found} h = ground (arith, find_row-key id rows {row = found})

  pub find_row-append :
      (id : Text) (rows : List A) (row : A)
      → is_row id rows ≡ false
      → key row ≡ id
      → find_row id (rows ++ row ∷ []) ≡ some row
  unfolding find_row is_row
  find_row-append id [] row h e = ground (arith, text_eq_refl id)
  find_row-append id (other ∷ rows) row h e = ground (arith, find_row-append id rows row)

  -- A change of every row that leaves the keys alone.
  pub find_row-map :
      (id : Text) (f : A → A) (rows : List A)
      → KeepsKey f
      → find_row id (map f rows) ≡ Option.map f (find_row id rows)
  unfolding find_row
  find_row-map id f [] k = refl
  find_row-map id f (row ∷ rows) k = ground (arith, k row, find_row-map id f rows k)

  -- The row of a key stays its row while it is kept.
  pub find_row-keep :
      (id : Text) (test : A → Bool) (rows : List A) {row : A}
      → find_row id rows ≡ some row
      → test row ≡ true
      → find_row id (keep test rows) ≡ some row
  unfolding find_row
  find_row-keep id test [] h kept = cc
  find_row-keep id test (other ∷ rows) {row = row} h kept = elim (Bool-cases (has_key id other)) [
    | inl same ↦
        let q : some other ≡ some row = rw same at h in
        let t : test other ≡ true = ground arith in rw (t, same) q
    | inr apart ↦
        let rest = find_row-keep id test rows {row = row} (rw apart at h) kept in
        elim (Bool-cases (test other)) [ inl t ↦ rw (t, apart) rest | inr t ↦ rw t rest ]
  ]
