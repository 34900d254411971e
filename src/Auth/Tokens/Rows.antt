-- ===== src/Auth/Tokens/Rows.antt =====
-- Two facts on the rows of the refresh tokens of ldfd/auth/tokens.go, and the statements that keep them:
-- no hash stands in two rows, and no row with a given hash is still good.
use ldf.Prelude.{
  Text, text_eq, text_eq_iff, text_eq_refl, Bool, true, false, not, ◌&&◌, if◌then◌else◌, List, [],
  ◌∷◌, ◌++◌, some, any, map, keep, find_row, is_row, update_row, ◌≡◌, sym, ◌∙◌, refl, arith, inl,
  inr, Bool-cases, or_false_of,
}
use ldf.Auth.{RefreshToken}
use ldf.Auth.Tokens.{token_key, token_hash_key, revoke}

abbrev pub live : Text → RefreshToken → Bool
live h t = text_eq h t.token_hash && not t.revoked

-- No row with the hash is still good.
abbrev pub Dead : Text → List RefreshToken → Type 0
Dead h rows = any (live h) rows ≡ false

unfoldable pub HashesUnique : List RefreshToken → Type 0
unfolding is_row
HashesUnique [] = Unit
HashesUnique (t ∷ rows) = (is_row token_hash_key t.token_hash rows ≡ false) × HashesUnique rows

-- A change of a row that keeps its hash and does not make a revoked token good.
abbrev pub Tame : (RefreshToken → RefreshToken) → Type 0
Tame f =
    (t : RefreshToken)
    → ((f t).token_hash ≡ t.token_hash) × (t.revoked ≡ true → (f t).revoked ≡ true)

pub text_eq_apart : (s t : Text) → text_eq s t ≡ false → text_eq t s ≡ false
text_eq_apart s t h = elim (Bool-cases (text_eq t s)) [
  | inr e ↦ e
  | inl e ↦
      let same : text_eq s s ≡ false = rw ((text_eq_iff t s).0 e) at h in
      e ∙ sym (text_eq_refl s) ∙ same
]

pub Dead-keep :
    (h : Text) (test : RefreshToken → Bool) (rows : List RefreshToken)
    → Dead h rows
    → Dead h (keep test rows)
Dead-keep h test [] d = refl
Dead-keep h test (t ∷ rows) d = ground (arith, Dead-keep h test rows)

pub Dead-map :
    (h : Text) (f : RefreshToken → RefreshToken) (rows : List RefreshToken)
    → Tame f
    → Dead h rows
    → Dead h (map f rows)
Dead-map h f [] tame d = refl
Dead-map h f (t ∷ rows) tame d = ground (arith, tame t, Dead-map h f rows tame)

pub Dead-append :
    (h : Text) (rows : List RefreshToken) (new : RefreshToken)
    → live h new ≡ false
    → Dead h rows
    → Dead h (rows ++ new ∷ [])
Dead-append h [] new n d = ground arith
Dead-append h (t ∷ rows) new n d = ground (arith, Dead-append h rows new n)

pub revoke_where-Tame : (test : RefreshToken → Bool) → Tame (λ t. if test t then revoke t else t)
unfolding revoke
revoke_where-Tame test t = elim (Bool-cases (test t)) [
  | inl e ↦ rw e (refl, λ r. refl)
  | inr e ↦ rw e (refl, λ r. r)
]

Dead-no_row :
    (h : Text) (rows : List RefreshToken) → is_row token_hash_key h rows ≡ false → Dead h rows
unfolding is_row
Dead-no_row h [] r = refl
Dead-no_row h (t ∷ rows) r = ground (arith, Dead-no_row h rows)

revoked_dead :
    (h id : Text) (t : RefreshToken)
    → text_eq id t.id ≡ true
    → live h (if text_eq id t.id then revoke t else t) ≡ false
unfolding revoke
revoked_dead h id t e = rw e (ground arith)

other_dead :
    (h id : Text) (t : RefreshToken)
    → text_eq h t.token_hash ≡ false
    → live h (if text_eq id t.id then revoke t else t) ≡ false
unfolding revoke
other_dead h id t apart = elim (Bool-cases (text_eq id t.id)) [
  | inl e ↦ rw (e, apart) refl
  | inr e ↦ rw (e, apart) refl
]

-- Where no hash stands twice, revoking the row of a hash by its id leaves no good row with the hash.
pub Dead-revoke :
    (h : Text) (rows : List RefreshToken) {token : RefreshToken}
    → HashesUnique rows
    → find_row token_hash_key h rows ≡ some token
    → Dead h (update_row token_key token.id revoke rows)
unfolding HashesUnique find_row update_row
Dead-revoke h [] u e = cc
Dead-revoke h (t ∷ rows) {token = token} u e =
    let f : RefreshToken → RefreshToken = λ x. if text_eq token.id x.id then revoke x else x in
    elim (Bool-cases (text_eq h t.token_hash)) [
      | inl same ↦
          let q : some t ≡ some token = rw same at e in
          let found : t ≡ token = cc in
          let alone : is_row token_hash_key h rows ≡ false =
            rw ((text_eq_iff h t.token_hash).0 same) u.0 in
          let rest =
            Dead-map h f rows (revoke_where-Tame (λ x. text_eq token.id x.id))
              (Dead-no_row h rows alone) in
          or_false_of _ _ (revoked_dead h token.id t (rw found (text_eq_refl token.id))) rest
      | inr apart ↦
          or_false_of _ _ (other_dead h token.id t apart) (Dead-revoke h rows u.1 (rw apart at e))
    ]
