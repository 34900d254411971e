-- ===== src/Auth/Tokens/Rotation.antt =====
-- Runs of the operations of ldfd/auth/tokens.go and of `RefreshAccessToken` of ldfd/auth/jwt.go.
use ldf.Prelude.{
  ℕ, Text, text_eq, Bool, true, false, if◌then◌else◌, List, [], ◌∷◌, Option, none, some, All,
  find_row, is_row, update_row, ◌≡◌, ◌⊎◌, refl, arith, inl, inr, Bool-cases, Option-cases,
}
use ldf.Auth.{Database, RefreshToken, refresh_token_invalid, refresh_token_revoked}
use ldf.Auth.Users.{get_user_by_id}
use ldf.Auth.Tokens.{
  Fresh, valid, invalid, token_hash_key, check_token, create_refresh_token, validate_refresh_token,
  update_refresh_token_last_used, revoke_refresh_token, revoke_refresh_token_by_hash,
  revoke_all_user_refresh_tokens, cleanup_excess_tokens, cleanup_expired_tokens, rotate,
  refresh_access_token,
}
use ldf.Auth.Tokens.Changes.{
  Changed, same, mapped, kept, Not, Dead-Changed, Changed-append, create_refresh_token-Changed,
  refresh_access_token-Changed, rotate-Changed,
}
use ldf.Auth.Tokens.Rows.{Dead, HashesUnique, Tame, Dead-revoke, revoke_where-Tame}

-- A request that changes the refresh tokens.
pub data TokenRequest : Type 0 where
  logs_in : Fresh → Text → TokenRequest
  refreshes : Fresh → Text → TokenRequest
  touches : ℕ → Text → TokenRequest
  revokes : Text → TokenRequest
  revokes_plain : Text → TokenRequest
  revokes_all : Text → TokenRequest
  trims : ℕ → Text → ℕ → TokenRequest
  cleans : ℕ → TokenRequest

module _ (hash : Text → Text) (max_tokens : ℕ) where
  unfoldable pub serve : Database → TokenRequest → Database
  unfolding create_refresh_token refresh_access_token update_refresh_token_last_used
      revoke_refresh_token revoke_refresh_token_by_hash revoke_all_user_refresh_tokens
      cleanup_excess_tokens cleanup_expired_tokens
  serve db (logs_in fresh user_id) = (create_refresh_token hash db fresh user_id).0
  serve db (refreshes fresh plain) = (refresh_access_token hash max_tokens db fresh plain).0
  serve db (touches now id) = update_refresh_token_last_used db now id
  serve db (revokes id) = revoke_refresh_token db id
  serve db (revokes_plain plain) = (revoke_refresh_token_by_hash hash db plain).0
  serve db (revokes_all user_id) = revoke_all_user_refresh_tokens db user_id
  serve db (trims now user_id max) = cleanup_excess_tokens db now user_id max
  serve db (cleans now) = cleanup_expired_tokens db now

  unfoldable pub serve_all : Database → List TokenRequest → Database
  unfolding serve
  serve_all db [] = db
  serve_all db (request ∷ rest) = serve_all (serve db request) rest

-- The hash of the token that a request creates.
abbrev pub NewHash : (Text → Text) → (Text → Type 0) → TokenRequest → Type 0
NewHash hash Allowed (logs_in fresh user_id) = Allowed (hash fresh.plain)
NewHash hash Allowed (refreshes fresh plain) = Allowed (hash fresh.plain)
NewHash hash Allowed _ = Unit

touch_where-Tame :
    (now : ℕ) (test : RefreshToken → Bool)
    → Tame (λ t. if test t then record t { last_used_at = some now } else t)
touch_where-Tame now test t = elim (Bool-cases (test t)) [
  | inl e ↦ rw e (refl, λ r. r)
  | inr e ↦ rw e (refl, λ r. r)
]

check_token-valid :
    (now : ℕ) (row : Option RefreshToken) {token : RefreshToken}
    → check_token now row ≡ valid token
    → row ≡ some token
unfolding check_token
check_token-valid now none h = cc
check_token-valid now (some row) {token = token} h = ground arith

found-Dead :
    (h : Text) (rows : List RefreshToken) {row : RefreshToken}
    → Dead h rows
    → find_row token_hash_key h rows ≡ some row
    → row.revoked ≡ true
unfolding find_row
found-Dead h [] d e = cc
found-Dead h (t ∷ rows) {row = row} d e = ground (arith, found-Dead h rows {row = row})

refused-Dead :
    (hash : Text → Text) (db : Database) (now : ℕ) (plain : Text)
    → Dead (hash plain) db.refresh_tokens
    → (validate_refresh_token hash db now plain ≡ invalid refresh_token_invalid)
      ⊎ (validate_refresh_token hash db now plain ≡ invalid refresh_token_revoked)
unfolding validate_refresh_token check_token
refused-Dead hash db now plain d =
    elim (Option-cases (find_row token_hash_key (hash plain) db.refresh_tokens)) [
      | inl e ↦ inl (rw (e, validate_refresh_token) refl)
      | inr (row, e) ↦
          inr (rw (e, found-Dead (hash plain) db.refresh_tokens d e, validate_refresh_token) refl)
    ]

module _ {Allowed : Text → Type 0} (hash : Text → Text) (max_tokens : ℕ) where
  serve-Changed :
      (db : Database) (request : TokenRequest)
      → NewHash hash Allowed request
      → Changed Allowed db.refresh_tokens (serve hash max_tokens db request).refresh_tokens
  unfolding serve update_refresh_token_last_used revoke_refresh_token revoke_refresh_token_by_hash
      revoke_all_user_refresh_tokens cleanup_excess_tokens cleanup_expired_tokens update_row
  serve-Changed db (logs_in fresh user_id) ok =
      create_refresh_token-Changed hash db fresh user_id ok
  serve-Changed db (refreshes fresh plain) ok =
      refresh_access_token-Changed hash max_tokens db fresh plain ok
  serve-Changed db (touches now id) ok = mapped _ (touch_where-Tame now (λ t. text_eq id t.id)) same
  serve-Changed db (revokes id) ok = mapped _ (revoke_where-Tame (λ t. text_eq id t.id)) same
  serve-Changed db (revokes_plain plain) ok =
      elim (Bool-cases (is_row token_hash_key (hash plain) db.refresh_tokens)) [
        | inl e ↦
            rw (e, serve, revoke_refresh_token_by_hash)
              (mapped _ (revoke_where-Tame (λ t. text_eq (hash plain) t.token_hash)) same)
        | inr e ↦ rw (e, serve, revoke_refresh_token_by_hash) same
      ]
  serve-Changed db (revokes_all user_id) ok =
      mapped _ (revoke_where-Tame (λ t. text_eq user_id t.user_id)) same
  serve-Changed db (trims now user_id max) ok = kept _ same
  serve-Changed db (cleans now) ok = kept _ same

  serve_all-Changed :
      (db : Database) (requests : List TokenRequest)
      → All (NewHash hash Allowed) requests
      → Changed Allowed db.refresh_tokens (serve_all hash max_tokens db requests).refresh_tokens
  unfolding serve_all
  serve_all-Changed db [] ok = same
  serve_all-Changed db (request ∷ rest) ok =
      Changed-append (serve-Changed db request ok.0)
        (serve_all-Changed (serve hash max_tokens db request) rest ok.1)

-- A refresh token is used once: after a call of `RefreshAccessToken` that found it valid, however that
-- call ends and whatever requests follow, it is never valid again, if no hash stands twice in the table
-- at the start and if no token that is created from then on has its hash.
pub refresh_access_token-once :
    (hash : Text → Text) (max_tokens : ℕ) (db : Database) (fresh : Fresh) (plain : Text)
    (token : RefreshToken) (requests : List TokenRequest) (later : ℕ)
    → HashesUnique db.refresh_tokens
    → validate_refresh_token hash db fresh.now plain ≡ valid token
    → text_eq (hash plain) (hash fresh.plain) ≡ false
    → All (NewHash hash (λ h. text_eq (hash plain) h ≡ false)) requests
    → let db' =
        serve_all hash max_tokens
          (refresh_access_token hash max_tokens db fresh plain).0
          requests in
      (validate_refresh_token hash db' later plain ≡ invalid refresh_token_invalid)
      ⊎ (validate_refresh_token hash db' later plain ≡ invalid refresh_token_revoked)
unfolding refresh_access_token revoke_refresh_token validate_refresh_token
refresh_access_token-once hash max_tokens db fresh plain token requests later unique v new others =
    let db' = revoke_refresh_token db token.id in
    let dead =
      Dead-revoke (hash plain) db.refresh_tokens {token = token} unique
        (check_token-valid fresh.now (find_row token_hash_key (hash plain) db.refresh_tokens) v) in
    let user = get_user_by_id db' token.user_id in
    let next = (rotate hash max_tokens db' fresh user).0 in
    let turned = rotate-Changed {Allowed = Not (hash plain)} hash max_tokens db' fresh user new in
    let after =
      serve_all-Changed {Allowed = Not (hash plain)} hash max_tokens next requests others in
    rw (v, refresh_access_token)
      (refused-Dead hash (serve_all hash max_tokens next requests) later plain
        (Dead-Changed (hash plain) after (Dead-Changed (hash plain) turned dead)))
