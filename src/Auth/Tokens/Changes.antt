-- ===== src/Auth/Tokens/Changes.antt =====
-- What the statements of ldfd/auth/tokens.go and `RefreshAccessToken` of ldfd/auth/jwt.go do to the rows of
-- the refresh tokens.
use ldf.Prelude.{
  ℕ, Text, text_eq, Bool, false, not, ◌||◌, List, [], ◌∷◌, ◌++◌, Option, none, some, map, keep,
  is_row, update_row, ◌≡◌, ◌⊎◌, refl, arith, inl, inr, Bool-cases, Option-cases, or_false,
}
use ldf.Auth.{User, Database, AuthError, RefreshToken, user_key}
use ldf.Auth.Users.{get_user_by_id}
use ldf.Auth.Roles.{get_role_by_id}
use ldf.Auth.Tokens.{
  Fresh, Validation, valid, invalid, token_key, token_hash_key, new_refresh_token,
  create_refresh_token, validate_refresh_token, revoke_refresh_token, cleanup_excess_tokens, rotate,
  refresh_access_token,
}
use ldf.Auth.Tokens.Rows.{Dead, Tame, Dead-keep, Dead-map, Dead-append, revoke_where-Tame}

-- Changes of the rows: nothing, a change of some rows, the loss of some rows and a new row with a hash
-- that no row had.
pub data Changed (Allowed : Text → Type 0) : List RefreshToken → List RefreshToken → Type 0 where
  same : {rows : List RefreshToken} → Changed Allowed rows rows
  mapped :
      {rows rows' : List RefreshToken} (f : RefreshToken → RefreshToken)
      → Tame f
      → Changed Allowed (map f rows) rows'
      → Changed Allowed rows rows'
  kept :
      {rows rows' : List RefreshToken} (test : RefreshToken → Bool)
      → Changed Allowed (keep test rows) rows'
      → Changed Allowed rows rows'
  added :
      {rows rows' : List RefreshToken} (new : RefreshToken)
      → Allowed new.token_hash
      → is_row token_hash_key new.token_hash rows ≡ false
      → Changed Allowed (rows ++ new ∷ []) rows'
      → Changed Allowed rows rows'

-- A hash is not the given one.
abbrev pub Not : Text → Text → Type 0
Not h other = text_eq h other ≡ false

pub Dead-Changed :
    (h : Text) {rows rows' : List RefreshToken}
    → Changed (Not h) rows rows'
    → Dead h rows
    → Dead h rows'
Dead-Changed h same d = d
Dead-Changed h {rows = rows} (mapped f tame c) d = Dead-Changed h c (Dead-map h f rows tame d)
Dead-Changed h {rows = rows} (kept test c) d = Dead-Changed h c (Dead-keep h test rows d)
Dead-Changed h {rows = rows} (added new ok fresh c) d =
    Dead-Changed h c (Dead-append h rows new (ground arith) d)

pub Changed-append :
    {Allowed : Text → Type 0} {a b c : List RefreshToken}
    → Changed Allowed a b
    → Changed Allowed b c
    → Changed Allowed a c
Changed-append same d = d
Changed-append (mapped f tame c) d = mapped f tame (Changed-append c d)
Changed-append (kept test c) d = kept test (Changed-append c d)
Changed-append (added new ok fresh c) d = added new ok fresh (Changed-append c d)

pub Validation-cases :
    (v : Validation)
    → ((token : RefreshToken) × (v ≡ valid token)) ⊎ ((error : AuthError) × (v ≡ invalid error))
Validation-cases (valid token) = inl (token, refl)
Validation-cases (invalid error) = inr (error, refl)

module _ {Allowed : Text → Type 0} (hash : Text → Text) where
  pub create_refresh_token-Changed :
      (db : Database) (fresh : Fresh) (user_id : Text)
      → Allowed (hash fresh.plain)
      → Changed Allowed db.refresh_tokens
          (create_refresh_token hash db fresh user_id).0.refresh_tokens
  unfolding create_refresh_token new_refresh_token
  create_refresh_token-Changed db fresh user_id ok =
      let taken = is_row token_hash_key (hash fresh.plain) db.refresh_tokens in
      elim (Bool-cases (
        is_row token_key fresh.id db.refresh_tokens
        || (taken || not (is_row user_key user_id db.users)))) [
          | inl e ↦ rw (e, create_refresh_token) same
          | inr e ↦
              let (first, second) = or_false _ _ e in
              rw (e, create_refresh_token)
                (added (new_refresh_token hash fresh user_id) ok (or_false _ _ second).0 same)
        ]

  revoke_refresh_token-Changed :
      (db : Database) (id : Text)
      → Changed Allowed db.refresh_tokens (revoke_refresh_token db id).refresh_tokens
  unfolding revoke_refresh_token update_row
  revoke_refresh_token-Changed db id = mapped _ (revoke_where-Tame (λ t. text_eq id t.id)) same

  pub rotate-Changed :
      (max_tokens : ℕ) (db : Database) (fresh : Fresh) (user : Option User)
      → Allowed (hash fresh.plain)
      → Changed Allowed db.refresh_tokens (rotate hash max_tokens db fresh user).0.refresh_tokens
  unfolding rotate cleanup_excess_tokens
  rotate-Changed max_tokens db fresh none ok = same
  rotate-Changed max_tokens db fresh (some user) ok =
      let created = create_refresh_token-Changed db fresh user.id ok in
      elim (Option-cases (get_role_by_id db user.role_id)) [
        | inl e ↦ rw (e, rotate) same
        | inr (role, e) ↦ elim (Option-cases (create_refresh_token hash db fresh user.id).1) [
          | inr (error, e') ↦ rw (e, e', rotate) created
          | inl e' ↦ rw (e, e', rotate) (Changed-append created (kept _ same))
        ]
      ]

  pub refresh_access_token-Changed :
      (max_tokens : ℕ) (db : Database) (fresh : Fresh) (plain : Text)
      → Allowed (hash fresh.plain)
      → Changed Allowed db.refresh_tokens
          (refresh_access_token hash max_tokens db fresh plain).0.refresh_tokens
  unfolding refresh_access_token
  refresh_access_token-Changed max_tokens db fresh plain ok =
      elim (Validation-cases (validate_refresh_token hash db fresh.now plain)) [
        | inr (error, e) ↦ rw (e, refresh_access_token) same
        | inl (token, e) ↦
            let db' = revoke_refresh_token db token.id in
            rw (e, refresh_access_token)
              (Changed-append (revoke_refresh_token-Changed db token.id)
                (rotate-Changed max_tokens db' fresh (get_user_by_id db' token.user_id) ok))
      ]
