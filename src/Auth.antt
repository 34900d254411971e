-- ===== src/Auth.antt =====
-- Users, roles and tokens of ldfd/auth: the rows of its four tables and the errors of its methods. A
-- statement fails where a key, a parent row or a unique column forbids it; that the driver itself fails
-- is not modelled. Passwords, the signing of access tokens and the requests are not modelled.
pub mod Users
pub mod Roles
pub mod Tokens
use ldf.Prelude.{ℕ, Text, codes, text_eq, Bool, List, Option, none, some, find_first}

pub record User : Type 0 where
  pub id : Text
  pub name : Text
  pub email : Text
  pub password_hash : Text
  pub role_id : Text
  pub created_at : ℕ

pub record RolePermissions : Type 0 where
  pub can_read : Bool
  pub can_write : Bool
  pub can_delete : Bool
  pub can_admin : Bool

pub record RoleRecord : Type 0 where
  pub id : Text
  pub name : Text
  pub description : Text
  pub permissions : RolePermissions
  pub is_system : Bool
  pub parent_role_id : Text
  pub updated_at : ℕ

pub record RefreshToken : Type 0 where
  pub id : Text
  pub user_id : Text
  pub token_hash : Text
  pub expires_at : ℕ
  pub created_at : ℕ
  pub last_used_at : Option ℕ
  pub revoked : Bool

pub record RevokedToken : Type 0 where
  pub token_id : Text
  pub user_id : Text
  pub revoked_at : ℕ
  pub expires_at : ℕ

pub record Database : Type 0 where
  pub users : List User
  pub roles : List RoleRecord
  pub refresh_tokens : List RefreshToken
  pub revoked_tokens : List RevokedToken

pub data AuthError : Type 0 where
  email_already_exists user_already_exists root_user_exists user_not_found role_not_found
        role_already_exists system_role_modification system_role_deletion refresh_token_invalid
        refresh_token_revoked refresh_token_expired database_query :
      AuthError

-- `RoleIDRoot`
abbrev pub role_id_root : Text
role_id_root = codes "908b291e-61fb-4d95-98db-0b76c0afd6b4"

abbrev pub role_key : RoleRecord → Text
role_key role = role.id

abbrev pub user_key : User → Text
user_key user = user.id
