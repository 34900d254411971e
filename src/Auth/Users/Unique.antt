-- ===== src/Auth/Users/Unique.antt =====
-- What `CreateUser` of ldfd/auth/users.go keeps of the table of users.
use ldf.Prelude.{
  or_false, or_false_of, and_or_false, text_eq, Bool, false, not, ◌&&◌, ◌||◌, List, [], ◌∷◌, ◌++◌,
  any, ◌≡◌, inl, inr, refl, arith, Bool-cases, is_row,
}
use ldf.Auth.{User, Database, role_id_root, user_key, role_key}
use ldf.Auth.Users.{create_user, has_root_user}

-- Two users that the table may not hold together.
clashes : User → User → Bool
unfolding text_eq
clashes u v =
    text_eq u.email v.email
    || (text_eq u.name v.name || (text_eq u.role_id role_id_root && text_eq role_id_root v.role_id))

-- The names and the emails of the users are distinct, and at most one of them is root: a user clashes
-- with none of those before it.
unfoldable pub AllApart : List User → Type 0
unfolding clashes
AllApart [] = Unit
AllApart (u ∷ users) = (any (λ v. clashes v u) users ≡ false) × AllApart users

any-append_false :
    (test : User → Bool) (users : List User) (u : User)
    → any test users ≡ false
    → test u ≡ false
    → any test (users ++ u ∷ []) ≡ false
any-append_false test [] u none_before new = ground arith
any-append_false test (v ∷ users) u none_before new = ground (arith, any-append_false test users u)

AllApart-append :
    (users : List User) (u : User)
    → AllApart users
    → any (λ v. clashes u v) users ≡ false
    → AllApart (users ++ u ∷ [])
unfolding AllApart clashes
AllApart-append [] u apart new = (refl, tt)
AllApart-append (v ∷ users) u apart new =
    let (head, rest) = or_false _ _ new in
    (any-append_false (λ w. clashes w v) users u apart.0 head, AllApart-append users u apart.1 rest)

none_clashes :
    (users : List User) (u : User)
    → any (λ v. text_eq u.email v.email) users ≡ false
    → any (λ v. text_eq u.name v.name) users ≡ false
    → (text_eq u.role_id role_id_root && any (λ v. text_eq role_id_root v.role_id) users) ≡ false
    → any (λ v. clashes u v) users ≡ false
unfolding clashes
none_clashes [] u email name root = refl
none_clashes (v ∷ users) u email name root =
    let (e, es) = or_false _ _ email in
    let (n, ns) = or_false _ _ name in
    let (r, rs) = and_or_false (text_eq u.role_id role_id_root) _ _ root in
    or_false_of _ _ (or_false_of _ _ e (or_false_of _ _ n r)) (none_clashes users u es ns rs)

-- The users that a list of requests for new users leaves.
unfoldable pub create_users : Database → List User → Database
unfolding create_user
create_users db [] = db
create_users db (user ∷ rest) = create_users (create_user db user).0 rest

create_user-AllApart :
    (db : Database) (user : User) → AllApart db.users → AllApart (create_user db user).0.users
unfolding create_user has_root_user
create_user-AllApart db user apart =
    elim (Bool-cases (any (λ u. text_eq user.email u.email) db.users)) [
      | inl email ↦ rw (email, create_user) apart
      | inr email ↦ elim (Bool-cases (any (λ u. text_eq user.name u.name) db.users)) [
        | inl name ↦ rw (email, name, create_user) apart
        | inr name ↦ elim (Bool-cases (text_eq user.role_id role_id_root && has_root_user db)) [
          | inl root ↦ rw (email, name, root, create_user) apart
          | inr root ↦
              elim (Bool-cases
                (is_row user_key user.id db.users || not (is_row role_key user.role_id db.roles))) [
                  | inl row ↦ rw (email, name, root, row, create_user) apart
                  | inr row ↦
                      rw (email, name, root, row, create_user)
                        (AllApart-append db.users user apart
                          (none_clashes db.users user email name root))
                ]
        ]
      ]
    ]

-- However many users are created, and in whatever order, no two of them have the same name or the same
-- email, and at most one of them is root, if that is so at the start.
pub create_users-AllApart :
    (db : Database) (requests : List User)
    → AllApart db.users
    → AllApart (create_users db requests).users
unfolding create_users
create_users-AllApart db [] apart = apart
create_users-AllApart db (user ∷ rest) apart =
    create_users-AllApart (create_user db user).0 rest (create_user-AllApart db user apart)
