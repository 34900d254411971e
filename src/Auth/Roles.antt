-- ===== src/Auth/Roles.antt =====
-- Roles of ldfd/auth/roles.go. A role's name and id are unique columns.
pub mod System
use ldf.Prelude.{
  ℕ, Text, codes, text_eq, Bool, true, false, not, ◌&&◌, ◌||◌, if◌then◌else◌, List, [], ◌∷◌, ◌++◌,
  Option, none, some, any, map, is_nil, keep, find_first, find_row, is_row, update_row,
}
use ldf.Auth.{
  User, RoleRecord, RolePermissions, Database, AuthError, role_not_found, role_already_exists,
  system_role_modification, system_role_deletion, database_query, role_key,
}

unfoldable pub is_system_role_name : Text → Bool
unfolding text_eq
is_system_role_name name =
    text_eq name (codes "root")
    || (text_eq name (codes "developer") || text_eq name (codes "anonymous"))

-- `NewRole`
unfoldable pub new_role : Text → ℕ → Text → Text → RolePermissions → Text → RoleRecord
new_role fresh_id now name description permissions parent_role_id = record {
  id = fresh_id;
  name = name;
  description = description;
  permissions = permissions;
  is_system = false;
  parent_role_id = parent_role_id;
  updated_at = now;
}

unfoldable pub get_role_by_id : Database → Text → Option RoleRecord
unfolding find_row
get_role_by_id db id = find_row role_key id db.roles

unfoldable pub get_role_by_name : Database → Text → Option RoleRecord
unfolding text_eq
get_role_by_name db name = find_first (λ role. text_eq name role.name) db.roles

-- The parent that a role names is missing.
unfoldable pub lacks_parent : Database → RoleRecord → Bool
unfolding is_row
lacks_parent db role =
    not (is_nil role.parent_role_id || is_row role_key role.parent_role_id db.roles)

-- `CreateRole`
unfoldable pub create_role : Database → RoleRecord → Database × Option AuthError
unfolding get_role_by_name is_row lacks_parent
create_role db role = elim (get_role_by_name db role.name) [
  | some existing ↦ (db, some role_already_exists)
  | none ↦
      if is_row role_key role.id db.roles || lacks_parent db role
      then (db, some database_query)
      else (record db { roles = db.roles ++ role ∷ [] }, none)
]

-- Another role has the name.
unfoldable pub name_taken : Database → RoleRecord → Bool
unfolding text_eq
name_taken db role = any (λ r. text_eq role.name r.name && not (text_eq role.id r.id)) db.roles

-- `UPDATE roles SET … WHERE id = ? AND is_system = 0`
unfoldable pub write_role : RoleRecord → ℕ → RoleRecord → RoleRecord
write_role role now row = if row.is_system then row else record row {
  name = role.name;
  description = role.description;
  permissions = role.permissions;
  parent_role_id = role.parent_role_id;
  updated_at = now;
}

-- `UpdateRole`
unfoldable pub update_role : Database → ℕ → RoleRecord → Database × Option AuthError
unfolding get_role_by_id update_row name_taken write_role lacks_parent
update_role db now role = elim (get_role_by_id db role.id) [
  | none ↦ (db, some role_not_found)
  | some existing ↦
      if existing.is_system
      then (db, some system_role_modification)
      else if name_taken db role || lacks_parent db role
      then (db, some database_query)
      else (record db { roles = update_row role_key role.id (write_role role now) db.roles }, none)
]

-- A user has the role.
unfoldable pub is_assigned : Database → Text → Bool
unfolding text_eq
is_assigned db id = any (λ u. text_eq id u.role_id) db.users

-- `ON DELETE SET NULL`
unfoldable pub clear_parent : Text → RoleRecord → RoleRecord
unfolding text_eq
clear_parent id role =
    if text_eq id role.parent_role_id then record role { parent_role_id = [] } else role

-- `DeleteRole`
unfoldable pub delete_role : Database → Text → Database × Option AuthError
unfolding get_role_by_id text_eq is_assigned clear_parent
delete_role db id = elim (get_role_by_id db id) [
  | none ↦ (db, some role_not_found)
  | some existing ↦
      if existing.is_system
      then (db, some system_role_deletion)
      else if is_assigned db id
      then (db, some database_query)
      else (
        record db {
          roles =
              map (clear_parent id)
                (keep (λ role. not (text_eq id role.id) || role.is_system) db.roles);
        },
        none,
      )
]
