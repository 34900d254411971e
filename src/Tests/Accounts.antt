-- ===== src/Tests/Accounts.antt =====
-- Users, roles and refresh tokens of ldfd/auth; the hash of a token is the token itself.
use Prim.Native.Nat.{min}
use ldf.Prelude.{
  ℕ, Text, codes, text_eq, true, false, [], ◌∷◌, ◌++◌, none, some, ◌≡◌, ◌⊎◌, refl, find_row, is_row,
  ◌≤◌, keep, not, inl, inr, ap, arith,
}
use ldf.Auth.{
  User, RoleRecord, RolePermissions, RefreshToken, Database, role_id_root, root_user_exists,
  refresh_token_invalid, refresh_token_revoked,
}
use ldf.Auth.Users.{create_user}
use ldf.Auth.Users.Unique.{AllApart, create_users, create_users-AllApart}
use ldf.Auth.Roles.System
use ldf.Auth.Roles.System.{IsSystemRole, updates, deletes, serve_all-IsSystemRole}
use ldf.Auth.Tokens.{
  Fresh, validate_refresh_token, refresh_access_token, invalid, rotated, is_active,
  cleanup_excess_tokens, get_user_refresh_token_count,
}
use ldf.Auth.Tokens.Rows.{HashesUnique}
use ldf.Auth.Tokens.Exact.{cleanup_excess_tokens-count}
use ldf.Auth.Tokens.Newest.{In, cleanup_excess_tokens-newest}
use ldf.Auth.Tokens.Rotation
use ldf.Auth.Tokens.Rotation.{logs_in, refreshes, refresh_access_token-once}

abbrev all_rights : RolePermissions
all_rights = record { can_read = true; can_write = true; can_delete = true; can_admin = true }

abbrev root_role : RoleRecord
root_role = record {
  id = role_id_root;
  name = codes "root";
  description = [];
  permissions = all_rights;
  is_system = true;
  parent_role_id = [];
  updated_at = 0;
}

abbrev user_of : Text → User
user_of name = record {
  id = name;
  name = name;
  email = name ++ codes "@h";
  password_hash = [];
  role_id = role_id_root;
  created_at = 1;
}

abbrev old_token : RefreshToken
old_token = record {
  id = codes "t1";
  user_id = codes "ann";
  token_hash = codes "p1";
  expires_at = 100;
  created_at = 1;
  last_used_at = none;
  revoked = false;
}

abbrev one_user : Database
one_user = record {
  users = user_of (codes "ann") ∷ [];
  roles = root_role ∷ [];
  refresh_tokens = old_token ∷ [];
  revoked_tokens = [];
}

abbrev plain_hash : Text → Text
plain_hash plain = plain

abbrev fresh_of : Text → ℕ → Fresh
fresh_of plain now = record { plain = plain; id = plain; now = now }

second_root_refused : (create_user one_user (user_of (codes "bob"))).1 ≡ some root_user_exists
unfolding create_user
second_root_refused = refl

create_users-AllApart_example : AllApart (create_users one_user (user_of (codes "bob") ∷ [])).users
unfolding AllApart
create_users-AllApart_example =
    create_users-AllApart one_user (user_of (codes "bob") ∷ []) (refl, tt)

serve_all-IsSystemRole_example :
    IsSystemRole
      (System.serve_all one_user (updates 5 root_role ∷ deletes role_id_root ∷ [])).roles
      role_id_root
      (codes "root")
      all_rights
unfolding find_row
serve_all-IsSystemRole_example =
    serve_all-IsSystemRole one_user (updates 5 root_role ∷ deletes role_id_root ∷ []) role_id_root
      (codes "root") all_rights (root_role, refl, (refl, refl, refl))

-- A second active token of the user, and a revoked one.
abbrev crowded : Database
crowded = record one_user {
  refresh_tokens =
      old_token
      ∷ record old_token { id = codes "t2"; token_hash = codes "p2"; created_at = 2 }
      ∷ record old_token { id = codes "t3"; token_hash = codes "p3"; revoked = true }
      ∷ [];
}

cleanup_excess_tokens-count_example :
    (get_user_refresh_token_count (cleanup_excess_tokens crowded 5 (codes "ann") 1) 5 (codes "ann")
      ≡ min 1 (get_user_refresh_token_count crowded 5 (codes "ann")))
    × (keep
          (λ t. not (is_active 5 (codes "ann") t))
          (cleanup_excess_tokens crowded 5 (codes "ann") 1).refresh_tokens
        ≡ keep (λ t. not (is_active 5 (codes "ann") t)) crowded.refresh_tokens)
unfolding is_row
cleanup_excess_tokens-count_example =
    cleanup_excess_tokens-count crowded 5 (codes "ann") 1 (refl, (refl, (refl, tt)))

abbrev newer_token : RefreshToken
newer_token = record old_token { id = codes "t2"; token_hash = codes "p2"; created_at = 2 }

newer_kept :
    (cleanup_excess_tokens crowded 5 (codes "ann") 1).refresh_tokens
    ≡ newer_token
      ∷ record old_token { id = codes "t3"; token_hash = codes "p3"; revoked = true }
      ∷ []
unfolding cleanup_excess_tokens
newer_kept = refl

old_deleted : ¬ (In old_token (cleanup_excess_tokens crowded 5 (codes "ann") 1).refresh_tokens)
unfolding cleanup_excess_tokens
old_deleted (inl e) = let q = ap (λ (r : RefreshToken). r.created_at) e in omega (arith, q)
old_deleted (inr (inl e)) = let q = ap (λ (r : RefreshToken). r.revoked) e in cc
old_deleted (inr (inr i)) = absurd i

cleanup_excess_tokens-newest_example : old_token.created_at ≤ newer_token.created_at
unfolding is_row cleanup_excess_tokens is_active
cleanup_excess_tokens-newest_example =
    cleanup_excess_tokens-newest crowded 5 (codes "ann") 1 old_token newer_token
      (refl, (refl, (refl, tt))) refl refl (inl refl) old_deleted (inl refl)

rotates :
    (refresh_access_token plain_hash 5 one_user (fresh_of (codes "p2") 7) (codes "p1")).1
    ≡ rotated (codes "p2") (user_of (codes "ann"))
unfolding refresh_access_token
rotates = refl

refresh_access_token-once_example :
    (validate_refresh_token plain_hash
        (Rotation.serve_all plain_hash 5
          (refresh_access_token plain_hash 5 one_user (fresh_of (codes "p2") 7) (codes "p1")).0
          (refreshes (fresh_of (codes "p3") 8) (codes "p2") ∷ []))
        9
        (codes "p1")
      ≡ invalid refresh_token_invalid)
    ⊎ (validate_refresh_token plain_hash
          (Rotation.serve_all plain_hash 5
            (refresh_access_token plain_hash 5 one_user (fresh_of (codes "p2") 7) (codes "p1")).0
            (refreshes (fresh_of (codes "p3") 8) (codes "p2") ∷ []))
          9
          (codes "p1")
        ≡ invalid refresh_token_revoked)
unfolding HashesUnique validate_refresh_token text_eq
refresh_access_token-once_example =
    refresh_access_token-once plain_hash 5 one_user (fresh_of (codes "p2") 7) (codes "p1") old_token
      (refreshes (fresh_of (codes "p3") 8) (codes "p2") ∷ []) 9 (refl, tt) refl refl (refl, tt)
