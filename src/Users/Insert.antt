-- ===== src/Users/Insert.antt =====
-- The two outcomes of the INSERT of a user with a membership.
use logalot.Domain.Roles.{role_of_membership}
use logalot.Users.{
  insert_user_with_membership, to_user, membership_role, find_credentials_by_id, NewUser,
  to_auth_record, MembershipRow, Users, UserRow, violates_unique, inserted, active_status, visible,
  find_credentials_by_email,
}
use logalot.Base.{
  [], refl, some, true, false, Text, List, ℕ, ◌++◌, ◌≡◌, ◌∷◌, ◌===◌, ◌&&◌, find_where-append_new,
  count_where, arith, text_eq_refl, count_where_mono, ◌||◌,
}
use logalot.Domain.Errors.{ok, err, conflict, naming}

abbrev pub new_membership : Text → NewUser → Text → MembershipRow
new_membership t input new_id = record { tenant_id = t; user_id = new_id; role = input.role }

abbrev pub grown : Text → NewUser → Text → ℕ → Users → Users
grown t input new_id now db = record {
  users = db.users ++ inserted t input new_id now ∷ [];
  memberships = db.memberships ++ new_membership t input new_id ∷ [];
}

pub insert_user_new :
    (t : Text) (input : NewUser) (new_id : Text) (now : ℕ) (db : Users)
    → violates_unique t input new_id db ≡ false
    → insert_user_with_membership t input new_id now db ≡ (
      ok (
          to_user
            (db.memberships ++ new_membership t input new_id ∷ [])
            (inserted t input new_id now)),
      grown t input new_id now db,
    )
unfolding insert_user_with_membership
insert_user_new t input new_id now db h = rw h

pub insert_user_taken :
    (t : Text) (input : NewUser) (new_id : Text) (now : ℕ) (db : Users)
    → violates_unique t input new_id db ≡ true
    → insert_user_with_membership t input new_id now db
      ≡ (err (conflict (naming "a user with email '" input.email "' already exists")), db)
unfolding insert_user_with_membership
insert_user_taken t input new_id now db h = rw h

pub to_user-id : (ms : List MembershipRow) (u : UserRow) → (to_user ms u).id ≡ u.id
unfolding to_user
to_user-id ms u = refl

role-inserted :
    (t : Text) (input : NewUser) (new_id : Text) (now : ℕ) (db : Users)
    → violates_unique t input new_id db ≡ false
    → membership_role
        (inserted t input new_id now)
        (db.memberships ++ new_membership t input new_id ∷ [])
      ≡ some input.role
unfolding membership_role
role-inserted t input new_id now db h =
    let test = λ (m : MembershipRow). (m.tenant_id === t) && (m.user_id === new_id) in
    rw (
      membership_role,
      find_where-append_new test db.memberships (new_membership t input new_id) (ground arith)
          (ground (arith, text_eq_refl t, text_eq_refl new_id)),
    )

-- The account of a user just inserted: active, with the role and the password hash that were given.
pub find_credentials_by_id-inserted :
    (t : Text) (input : NewUser) (new_id : Text) (now : ℕ) (db : Users)
    → violates_unique t input new_id db ≡ false
    → find_credentials_by_id t new_id (grown t input new_id now db)
      ≡ some (record {
        id = new_id;
        password_hash = input.password_hash;
        status = active_status;
        role = some (role_of_membership input.role);
      })
unfolding find_credentials_by_id to_auth_record
find_credentials_by_id-inserted t input new_id now db h =
    let row = inserted t input new_id now in
    let test = λ (u : UserRow). visible t u && (u.id === new_id) in
    let none_yet : count_where test db.users ≡ 0 = ground (
      arith,
      count_where_mono test (λ u. (visible t u && (u.email === input.email)) || (u.id === new_id))
          db.users (λ u k. ground arith),
    ) in
    rw (
      find_where-append_new test db.users row none_yet
          (ground (arith, text_eq_refl t, text_eq_refl new_id)),
      role-inserted t input new_id now db h,
    )

-- The account of a user just inserted, by its email.
pub find_credentials_by_email-inserted :
    (t : Text) (input : NewUser) (new_id : Text) (now : ℕ) (db : Users)
    → violates_unique t input new_id db ≡ false
    → find_credentials_by_email t input.email (grown t input new_id now db)
      ≡ some (record {
        id = new_id;
        password_hash = input.password_hash;
        status = active_status;
        role = some (role_of_membership input.role);
      })
unfolding find_credentials_by_email to_auth_record
find_credentials_by_email-inserted t input new_id now db h =
    let row = inserted t input new_id now in
    let test = λ (u : UserRow). visible t u && (u.email === input.email) in
    let none_yet : count_where test db.users ≡ 0 = ground (
      arith,
      count_where_mono test (λ u. (visible t u && (u.email === input.email)) || (u.id === new_id))
          db.users (λ u k. ground arith),
    ) in
    rw (
      find_where-append_new test db.users row none_yet
          (ground (arith, text_eq_refl t, text_eq_refl input.email)),
      role-inserted t input new_id now db h,
    )
