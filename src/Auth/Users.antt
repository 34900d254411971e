-- ===== src/Auth/Users.antt =====
-- Users of ldfd/auth/users.go.
pub mod Unique
use ldf.Prelude.{
  ℕ, Text, codes, text_eq, Bool, true, false, not, ◌&&◌, ◌||◌, if◌then◌else◌, List, [], ◌∷◌, ◌++◌,
  Option, none, some, any, find_first, find_row, is_row, length,
}
use ldf.Auth.{
  User, RoleRecord, Database, AuthError, email_already_exists, user_already_exists,
  root_user_exists, user_not_found, role_not_found, database_query, role_id_root, role_key,
  user_key,
}

-- The inner join with the roles: the user, if its role has a row.
with_role : Database → Option User → Option User
unfolding is_row
with_role db none = none
with_role db (some user) = if is_row role_key user.role_id db.roles then some user else none

-- `GetUserByName`; none is `ErrUserNotFound`, here and below. A name is unique, so that the join drops
-- at most the one row.
unfoldable pub get_user_by_name : Database → Text → Option User
unfolding with_role text_eq
get_user_by_name db name = with_role db (find_first (λ u. text_eq name u.name) db.users)

unfoldable pub get_user_by_id : Database → Text → Option User
unfolding with_role find_row
get_user_by_id db id = with_role db (find_row user_key id db.users)

unfoldable pub get_user_by_email : Database → Text → Option User
unfolding with_role text_eq
get_user_by_email db email = with_role db (find_first (λ u. text_eq email u.email) db.users)

unfoldable pub has_root_user : Database → Bool
unfolding text_eq
has_root_user db = any (λ u. text_eq role_id_root u.role_id) db.users

unfoldable pub count_users : Database → ℕ
count_users db = length db.users

-- `CreateUser`: the transaction's checks and its insert.
unfoldable pub create_user : Database → User → Database × Option AuthError
unfolding text_eq has_root_user is_row
create_user db user =
    if any (λ u. text_eq user.email u.email) db.users
    then (db, some email_already_exists)
    else if any (λ u. text_eq user.name u.name) db.users
    then (db, some user_already_exists)
    else if text_eq user.role_id role_id_root && has_root_user db
    then (db, some root_user_exists)
    else if is_row user_key user.id db.users || not (is_row role_key user.role_id db.roles)
    then (db, some database_query)
    else (record db { users = db.users ++ user ∷ [] }, none)
