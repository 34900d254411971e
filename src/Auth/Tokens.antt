-- ===== src/Auth/Tokens.antt =====
-- Refresh tokens of ldfd/auth/tokens.go and their rotation in ldfd/auth/jwt.go. SHA-256 is the argument
-- `hash`; random tokens, ids and the time are arguments too. Rows that are created later stand later in
-- the table, and of two that are equally new the later one counts as the newer.
pub mod Rows
pub mod Changes
pub mod Rotation
pub mod Excess
pub mod Newest
pub mod Exact
use ldf.Prelude.{
  ℕ, ◌+◌, ◌*◌, Text, codes, text_eq, ltb, leb, Bool, true, false, not, ◌&&◌, ◌||◌, if◌then◌else◌,
  List, [], ◌∷◌, ◌++◌, Option, none, some, any, map, keep, find_first, find_row, is_row, update_row,
  take, length,
}
use ldf.Auth.{
  User, RoleRecord, RefreshToken, RevokedToken, Database, AuthError, refresh_token_invalid,
  refresh_token_revoked, refresh_token_expired, database_query, user_not_found, role_not_found,
  user_key, role_key,
}
use ldf.Auth.Users.{get_user_by_id}
use ldf.Auth.Roles.{get_role_by_id}

-- `RefreshTokenDuration`, in seconds.
abbrev pub refresh_token_duration : ℕ
refresh_token_duration = 604800

-- `DefaultMaxRefreshTokens`
abbrev pub default_max_refresh_tokens : ℕ
default_max_refresh_tokens = 5

abbrev pub token_key : RefreshToken → Text
token_key token = token.id

abbrev pub token_hash_key : RefreshToken → Text
token_hash_key token = token.token_hash

unfoldable pub revoke : RefreshToken → RefreshToken
revoke token = record token { revoked = true }

-- What the random source and the clock give to a new token: the plain token, its id and the time.
pub record Fresh : Type 0 where
  pub plain : Text
  pub id : Text
  pub now : ℕ

unfoldable pub new_refresh_token : (Text → Text) → Fresh → Text → RefreshToken
new_refresh_token hash fresh user_id = record {
  id = fresh.id;
  user_id = user_id;
  token_hash = hash fresh.plain;
  expires_at = fresh.now + refresh_token_duration;
  created_at = fresh.now;
  last_used_at = none;
  revoked = false;
}

-- What the columns of the table refuse: an id or a hash that stands in it, and a user who does not exist.
unfoldable pub breaks_constraint : Database → RefreshToken → Bool
unfolding is_row
breaks_constraint db token =
    is_row token_key token.id db.refresh_tokens
    || (is_row token_hash_key token.token_hash db.refresh_tokens
        || not (is_row user_key token.user_id db.users))

-- `CreateRefreshToken`
unfoldable pub create_refresh_token :
    (Text → Text) → Database → Fresh → Text → Database × Option AuthError
unfolding breaks_constraint new_refresh_token
create_refresh_token hash db fresh user_id =
    if breaks_constraint db (new_refresh_token hash fresh user_id)
    then (db, some database_query)
    else (
      record db { refresh_tokens = db.refresh_tokens ++ new_refresh_token hash fresh user_id ∷ [] },
      none,
    )

pub data Validation : Type 0 where
  valid : RefreshToken → Validation
  invalid : AuthError → Validation

unfoldable pub check_token : ℕ → Option RefreshToken → Validation
check_token now none = invalid refresh_token_invalid
check_token now (some token) =
    if token.revoked
    then invalid refresh_token_revoked
    else if ltb token.expires_at now
    then invalid refresh_token_expired
    else valid token

-- `ValidateRefreshToken`
unfoldable pub validate_refresh_token : (Text → Text) → Database → ℕ → Text → Validation
unfolding find_row check_token
validate_refresh_token hash db now plain =
    check_token now (find_row token_hash_key (hash plain) db.refresh_tokens)

-- `UpdateRefreshTokenLastUsed`
unfoldable pub update_refresh_token_last_used : Database → ℕ → Text → Database
unfolding update_row
update_refresh_token_last_used db now id = record db {
  refresh_tokens =
      update_row token_key id (λ t. record t { last_used_at = some now }) db.refresh_tokens;
}

-- `RevokeRefreshToken`
unfoldable pub revoke_refresh_token : Database → Text → Database
unfolding update_row revoke
revoke_refresh_token db id = record db {
  refresh_tokens = update_row token_key id revoke db.refresh_tokens;
}

-- `RevokeRefreshTokenByHash`
unfoldable pub revoke_refresh_token_by_hash :
    (Text → Text) → Database → Text → Database × Option AuthError
unfolding is_row update_row revoke
revoke_refresh_token_by_hash hash db plain =
    if is_row token_hash_key (hash plain) db.refresh_tokens
    then (
      record db {
        refresh_tokens = update_row token_hash_key (hash plain) revoke db.refresh_tokens;
      },
      none,
    )
    else (db, some refresh_token_invalid)

-- `RevokeAllUserRefreshTokens`
unfoldable pub revoke_all_user_refresh_tokens : Database → Text → Database
unfolding text_eq revoke
revoke_all_user_refresh_tokens db user_id = record db {
  refresh_tokens = map (λ t. if text_eq user_id t.user_id then revoke t else t) db.refresh_tokens;
}

-- The rows that are counted as active.
unfoldable pub is_active : ℕ → Text → RefreshToken → Bool
unfolding text_eq
is_active now user_id t = text_eq user_id t.user_id && (not t.revoked && ltb now t.expires_at)

-- `GetUserRefreshTokenCount`
unfoldable pub get_user_refresh_token_count : Database → ℕ → Text → ℕ
unfolding is_active
get_user_refresh_token_count db now user_id =
    length (keep (is_active now user_id) db.refresh_tokens)

insert_newest : RefreshToken → List RefreshToken → List RefreshToken
insert_newest t [] = t ∷ []
insert_newest t (u ∷ tokens) =
    let rest = insert_newest t tokens in
    if ltb u.created_at t.created_at then t ∷ u ∷ tokens else u ∷ rest

-- `ORDER BY created_at DESC`
unfoldable pub newest_first : List RefreshToken → List RefreshToken
unfolding insert_newest
newest_first [] = []
newest_first (t ∷ tokens) = insert_newest t (newest_first tokens)

-- `CleanupExcessTokens`
unfoldable pub cleanup_excess_tokens : Database → ℕ → Text → ℕ → Database
unfolding is_active newest_first text_eq
cleanup_excess_tokens db now user_id max_tokens =
    let newest = take max_tokens (newest_first (keep (is_active now user_id) db.refresh_tokens)) in
    record db {
      refresh_tokens =
          keep (λ t. not (is_active now user_id t) || any (λ u. text_eq t.id u.id) newest)
            db.refresh_tokens;
    }

-- `CleanupExpiredTokens`
unfoldable pub cleanup_expired_tokens : Database → ℕ → Database
cleanup_expired_tokens db now = record db {
  refresh_tokens = keep (λ t. not (ltb t.expires_at now || t.revoked)) db.refresh_tokens;
  revoked_tokens = keep (λ t. not (ltb t.expires_at now)) db.revoked_tokens;
}

-- `RevokeToken`: an access token by its id.
unfoldable pub revoke_token : Database → ℕ → Text → Text → ℕ → Database
unfolding text_eq
revoke_token db now token_id user_id expires_at = record db {
  revoked_tokens =
      keep (λ t. not (text_eq token_id t.token_id)) db.revoked_tokens
      ++ record {
        token_id = token_id;
        user_id = user_id;
        revoked_at = now;
        expires_at = expires_at;
      }
        ∷ [];
}

-- `IsTokenRevoked`
unfoldable pub is_token_revoked : Database → Text → Bool
unfolding text_eq
is_token_revoked db token_id = any (λ t. text_eq token_id t.token_id) db.revoked_tokens

-- What `RefreshAccessToken` returns: the new plain token and the user, or the error.
pub data Refreshed : Type 0 where
  rotated : Text → User → Refreshed
  refused : AuthError → Refreshed

-- The method behind the revocation of the old token. Signing the access token is taken to succeed once
-- the user's role is found.
unfoldable pub rotate : (Text → Text) → ℕ → Database → Fresh → Option User → Database × Refreshed
unfolding get_role_by_id create_refresh_token cleanup_excess_tokens
rotate hash max_tokens db fresh none = (db, refused user_not_found)
rotate hash max_tokens db fresh (some user) =
    let (db', error) = create_refresh_token hash db fresh user.id in
    elim (get_role_by_id db user.role_id) [
      | none ↦ (db, refused role_not_found)
      | some role ↦ elim error [
        | some e ↦ (db', refused e)
        | none ↦ (cleanup_excess_tokens db' fresh.now user.id max_tokens, rotated fresh.plain user)
      ]
    ]

-- `RefreshAccessToken`, with the service's limit, which is at least 1.
unfoldable pub refresh_access_token :
    (Text → Text) → ℕ → Database → Fresh → Text → Database × Refreshed
unfolding validate_refresh_token revoke_refresh_token get_user_by_id rotate
refresh_access_token hash max_tokens db fresh plain =
    elim (validate_refresh_token hash db fresh.now plain) [
      | invalid error ↦ (db, refused error)
      | valid token ↦
          let db' = revoke_refresh_token db token.id in
          rotate hash max_tokens db' fresh (get_user_by_id db' token.user_id)
    ]
