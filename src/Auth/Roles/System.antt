-- ===== src/Auth/Roles/System.antt =====
-- What the operations of ldfd/auth/roles.go leave of a system role.
use ldf.Prelude.{
  ℕ, Text, text_eq, text_eq_iff, Bool, true, not, ◌||◌, List, [], ◌∷◌, ◌++◌, some, map, keep,
  find_row, update_row, KeepsKey, find_row-map, find_row-keep, find_row-update_row, ◌≡◌, sym, ◌∙◌,
  ◌⊎◌, find_row-update_other, refl, arith, inl, inr, Bool-cases,
}
use ldf.Auth.{RoleRecord, RolePermissions, Database, role_key}
use ldf.Auth.Roles.{create_role, update_role, delete_role, write_role, clear_parent}

-- A request for a change of the roles.
pub data RoleRequest : Type 0 where
  creates : RoleRecord → RoleRequest
  updates : ℕ → RoleRecord → RoleRequest
  deletes : Text → RoleRequest

unfoldable pub serve : Database → RoleRequest → Database
unfolding create_role update_role delete_role
serve db (creates role) = (create_role db role).0
serve db (updates now role) = (update_role db now role).0
serve db (deletes id) = (delete_role db id).0

unfoldable pub serve_all : Database → List RoleRequest → Database
unfolding serve
serve_all db [] = db
serve_all db (request ∷ rest) = serve_all (serve db request) rest

-- The role of an id, among roles, is a system role with a name and permissions.
abbrev pub IsSystemRole : List RoleRecord → Text → Text → RolePermissions → Type 0
IsSystemRole roles id name permissions =
    (row : RoleRecord) × (find_row role_key id roles ≡ some row)
    × ((row.is_system ≡ true) × (row.name ≡ name) × (row.permissions ≡ permissions))

write_role-system :
    (role : RoleRecord) (now : ℕ) (row : RoleRecord)
    → row.is_system ≡ true
    → write_role role now row ≡ row
unfolding write_role
write_role-system role now row h = rw (h, write_role) refl

write_role-KeepsKey : (role : RoleRecord) (now : ℕ) → KeepsKey role_key (write_role role now)
unfolding write_role
write_role-KeepsKey role now row = elim (Bool-cases row.is_system) [
  | inl h ↦ rw (h, write_role) refl
  | inr h ↦ rw (h, write_role) refl
]

clear_parent-KeepsKey : (id : Text) → KeepsKey role_key (clear_parent id)
unfolding clear_parent
clear_parent-KeepsKey id row = elim (Bool-cases (text_eq id row.parent_role_id)) [
  | inl h ↦ rw (h, clear_parent) refl
  | inr h ↦ rw (h, clear_parent) refl
]

create_role-roles :
    (db : Database) (role : RoleRecord)
    → ((create_role db role).0.roles ≡ db.roles)
      ⊎ ((create_role db role).0.roles ≡ db.roles ++ role ∷ [])
unfolding create_role
create_role-roles db role = ground arith

update_role-roles :
    (db : Database) (now : ℕ) (role : RoleRecord)
    → ((update_role db now role).0.roles ≡ db.roles)
      ⊎ ((update_role db now role).0.roles
          ≡ update_row role_key role.id (write_role role now) db.roles)
unfolding update_role
update_role-roles db now role = ground arith

delete_role-roles :
    (db : Database) (gone : Text)
    → ((delete_role db gone).0.roles ≡ db.roles)
      ⊎ ((delete_role db gone).0.roles
          ≡ map
              (clear_parent gone)
              (keep (λ role. not (text_eq gone role.id) || role.is_system) db.roles))
unfolding delete_role
delete_role-roles db gone = ground arith

append-kept :
    (rows : List RoleRecord) (new : RoleRecord) (id : Text) {row : RoleRecord}
    → find_row role_key id rows ≡ some row
    → find_row role_key id (rows ++ new ∷ []) ≡ some row
unfolding find_row
append-kept [] new id h = cc
append-kept (other ∷ rows) new id {row = row} h =
    ground (arith, append-kept rows new id {row = row})

create_role-kept :
    (db : Database) (role : RoleRecord) (id name : Text) (permissions : RolePermissions)
    → IsSystemRole db.roles id name permissions
    → IsSystemRole (create_role db role).0.roles id name permissions
create_role-kept db role id name permissions (row, found, same) = elim (create_role-roles db role) [
  | inl e ↦ rw e (row, found, same)
  | inr e ↦ rw e (row, append-kept db.roles role id found, same)
]

write_role-update :
    (rows : List RoleRecord) (now : ℕ) (role : RoleRecord) (id : Text) {row : RoleRecord}
    → find_row role_key id rows ≡ some row
    → row.is_system ≡ true
    → find_row role_key id (update_row role_key role.id (write_role role now) rows) ≡ some row
write_role-update rows now role id {row = row} found system =
    elim (Bool-cases (text_eq role.id id)) [
      | inr apart ↦
          find_row-update_other role_key role.id id (write_role role now) rows
            (write_role-KeepsKey role now) apart
          ∙ found
      | inl same ↦
          let q : id ≡ role.id = sym ((text_eq_iff role.id id).0 same) in
          rw
            (
              q,
              find_row-update_row role_key role.id (write_role role now) rows
                  (write_role-KeepsKey role now),
              rw q at found,
              write_role-system role now row system,
            )
            refl
    ]

update_role-kept :
    (db : Database) (now : ℕ) (role : RoleRecord) (id name : Text) (permissions : RolePermissions)
    → IsSystemRole db.roles id name permissions
    → IsSystemRole (update_role db now role).0.roles id name permissions
update_role-kept db now role id name permissions (row, found, (system, named, permits)) =
    elim (update_role-roles db now role) [
      | inl e ↦ rw e (row, found, (system, named, permits))
      | inr e ↦
          rw e (row, write_role-update db.roles now role id found system, (system, named, permits))
    ]

keeps_system :
    (gone : Text) (role : RoleRecord)
    → role.is_system ≡ true
    → (not (text_eq gone role.id) || role.is_system) ≡ true
keeps_system gone role h = ground arith

clear_parent-same :
    (gone : Text) (row : RoleRecord)
    → ((clear_parent gone row).is_system ≡ row.is_system)
      × ((clear_parent gone row).name ≡ row.name)
      × ((clear_parent gone row).permissions ≡ row.permissions)
unfolding clear_parent
clear_parent-same gone row = elim (Bool-cases (text_eq gone row.parent_role_id)) [
  | inl h ↦ rw (h, clear_parent) (refl, refl, refl)
  | inr h ↦ rw (h, clear_parent) (refl, refl, refl)
]

delete_role-kept :
    (db : Database) (gone id name : Text) (permissions : RolePermissions)
    → IsSystemRole db.roles id name permissions
    → IsSystemRole (delete_role db gone).0.roles id name permissions
delete_role-kept db gone id name permissions (row, found, (system, named, permits)) =
    let test : RoleRecord → Bool = λ role. not (text_eq gone role.id) || role.is_system in
    let kept = find_row-keep role_key id test db.roles found (keeps_system gone row system) in
    let moved =
      find_row-map role_key id (clear_parent gone) (keep test db.roles)
        (clear_parent-KeepsKey gone) in
    let (s, n, p) = clear_parent-same gone row in
    elim (delete_role-roles db gone) [
      | inl e ↦ rw e (row, found, (system, named, permits))
      | inr e ↦
          rw e (clear_parent gone row, rw (moved, kept) refl, (s ∙ system, n ∙ named, p ∙ permits))
    ]

-- Whatever roles are created, updated and deleted, in whatever order, a system role stays a system role
-- with its id, its name and its permissions.
pub serve_all-IsSystemRole :
    (db : Database) (requests : List RoleRequest) (id name : Text) (permissions : RolePermissions)
    → IsSystemRole db.roles id name permissions
    → IsSystemRole (serve_all db requests).roles id name permissions
unfolding serve_all serve
serve_all-IsSystemRole db [] id name permissions s = s
serve_all-IsSystemRole db (creates role ∷ rest) id name permissions s =
    serve_all-IsSystemRole (create_role db role).0 rest id name permissions
      (create_role-kept db role id name permissions s)
serve_all-IsSystemRole db (updates now role ∷ rest) id name permissions s =
    serve_all-IsSystemRole (update_role db now role).0 rest id name permissions
      (update_role-kept db now role id name permissions s)
serve_all-IsSystemRole db (deletes gone ∷ rest) id name permissions s =
    serve_all-IsSystemRole (delete_role db gone).0 rest id name permissions
      (delete_role-kept db gone id name permissions s)
