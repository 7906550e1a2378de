-- ===== src/Users.antt =====
-- services/control-plane/src/adapters/postgres/user-repository.ts: users and their memberships, each
-- statement under the row-level security of the armed tenant.
pub mod Lookup
pub mod Insert
use logalot.Base.{
  ℕ, Bool, true, false, ◌&&◌, ◌||◌, Option, none, some, List, [], ◌∷◌, ◌++◌, Text, codes, ◌===◌,
  ltb, order_desc, or_else, if◌then◌else◌, find_where, count_where, update_where, delete_where,
  select_where, map,
}
use logalot.Domain.Roles.{Role, MembershipRole, role_of_membership}
use logalot.Domain.Errors.{Result, ok, err, conflict, naming}

pub record UserRow : Type 0 where
  pub id : Text
  pub tenant_id : Text
  pub email : Text
  pub password_hash : Text
  pub display_name : Option Text
  pub status : Text
  pub is_platform_operator : Bool
  pub created_at : ℕ

pub record MembershipRow : Type 0 where
  pub tenant_id : Text
  pub user_id : Text
  pub role : MembershipRole

pub record Users : Type 0 where
  pub users : List UserRow
  pub memberships : List MembershipRow

-- The public projection, which has no password hash.
pub record User : Type 0 where
  pub id : Text
  pub tenant_id : Text
  pub email : Text
  pub display_name : Option Text
  pub status : Text
  pub is_platform_operator : Bool
  pub role : Option MembershipRole

pub record AuthRecord : Type 0 where
  pub id : Text
  pub password_hash : Text
  pub status : Text
  pub role : Option Role

pub record NewUser : Type 0 where
  pub email : Text
  pub password_hash : Text
  pub display_name : Option Text
  pub role : MembershipRole

pub record UserPatch : Type 0 where
  pub display_name : Option Text
  pub status : Option Text
  pub role : Option MembershipRole
  pub password_hash : Option Text

-- `m.role` of the LEFT JOIN, `none` for NULL
unfoldable pub membership_role : UserRow → List MembershipRow → Option MembershipRole
membership_role u ms =
    elim (find_where (λ m. (m.tenant_id === u.tenant_id) && (m.user_id === u.id)) ms) [
      | none ↦ none
      | some m ↦ some m.role
    ]

-- SELECT_USER and toUser
unfoldable pub to_user : List MembershipRow → UserRow → User
unfolding membership_role
to_user ms u = record {
  id = u.id;
  tenant_id = u.tenant_id;
  email = u.email;
  display_name = u.display_name;
  status = u.status;
  is_platform_operator = u.is_platform_operator;
  role = membership_role u ms;
}

abbrev pub effective_role : Bool → Option MembershipRole → Option Role
effective_role true _ = some Role.platform_operator
effective_role false none = none
effective_role false (some r) = some (role_of_membership r)

-- SELECT_AUTH and toAuthRecord
unfoldable pub to_auth_record : List MembershipRow → UserRow → AuthRecord
unfolding membership_role
to_auth_record ms u = record {
  id = u.id;
  password_hash = u.password_hash;
  status = u.status;
  role = effective_role u.is_platform_operator (membership_role u ms);
}

abbrev pub visible : Text → UserRow → Bool
visible tenant_id u = u.tenant_id === tenant_id

abbrev pub as_auth : List MembershipRow → Option UserRow → Option AuthRecord
as_auth ms none = none
as_auth ms (some u) = some (to_auth_record ms u)

abbrev pub as_user : List MembershipRow → Option UserRow → Option User
as_user ms none = none
as_user ms (some u) = some (to_user ms u)

unfoldable pub find_credentials_by_email : Text → Text → Users → Option AuthRecord
find_credentials_by_email tenant_id email db =
    as_auth db.memberships (find_where (λ u. visible tenant_id u && (u.email === email)) db.users)

unfoldable pub find_credentials_by_id : Text → Text → Users → Option AuthRecord
find_credentials_by_id tenant_id id db =
    as_auth db.memberships (find_where (λ u. visible tenant_id u && (u.id === id)) db.users)

unfoldable pub find_by_id : Text → Text → Users → Option User
find_by_id tenant_id id db =
    as_user db.memberships (find_where (λ u. visible tenant_id u && (u.id === id)) db.users)

-- UNIQUE (tenant_id, email), the primary key of users, and that of memberships.
abbrev pub violates_unique : Text → NewUser → Text → Users → Bool
violates_unique tenant_id input new_id db =
    ltb 0 (
      count_where (λ u. (visible tenant_id u && (u.email === input.email)) || (u.id === new_id))
        db.users)
    || ltb 0
        (count_where (λ m. (m.tenant_id === tenant_id) && (m.user_id === new_id)) db.memberships)

-- The DEFAULT of `users.status`.
abbrev pub active_status : Text
active_status = codes "active"

abbrev pub inserted : Text → NewUser → Text → ℕ → UserRow
inserted tenant_id input new_id now = record {
  id = new_id;
  tenant_id = tenant_id;
  email = input.email;
  password_hash = input.password_hash;
  display_name = input.display_name;
  status = active_status;
  is_platform_operator = false;
  created_at = now;
}

-- insertUserWithMembership: both rows, or none. `new_id` and `now` are what the database fills in.
unfoldable pub insert_user_with_membership : Text → NewUser → Text → ℕ → Users → Result User × Users
unfolding to_user
insert_user_with_membership tenant_id input new_id now db =
    if violates_unique tenant_id input new_id db
    then (err (conflict (naming "a user with email '" input.email "' already exists")), db)
    else let row = inserted tenant_id input new_id now in
      let ms =
        db.memberships
        ++ (record { tenant_id = tenant_id; user_id = new_id; role = input.role }) ∷ [] in
      (ok (to_user ms row), record { users = db.users ++ row ∷ []; memberships = ms })

unfoldable pub create : Text → NewUser → Text → ℕ → Users → Result User × Users
unfolding insert_user_with_membership
create = insert_user_with_membership

unfoldable pub list : Text → Users → List User
list tenant_id db =
    map (to_user db.memberships)
      (order_desc (λ u. u.created_at) (select_where (visible tenant_id) db.users))

abbrev pub patched : UserPatch → UserRow → UserRow
patched patch u = record u {
  display_name = elim patch.display_name [ none ↦ u.display_name | some d ↦ some d ];
  status = or_else patch.status u.status;
  password_hash = or_else patch.password_hash u.password_hash;
}

abbrev pub set_role : Option MembershipRole → MembershipRow → MembershipRow
set_role none m = m
set_role (some role) m = record m { role = role }

-- The UPDATE of users, that of memberships where a role is given, and the row read back.
unfoldable pub update : Text → Text → UserPatch → Users → Option User × Users
unfolding find_by_id
update tenant_id id patch db =
    let test = λ (u : UserRow). visible tenant_id u && (u.id === id) in
    if ltb 0 (count_where test db.users)
    then (let db' : Users = record {
      users = update_where test (patched patch) db.users;
      memberships =
          update_where (λ m. (m.tenant_id === tenant_id) && (m.user_id === id))
            (set_role patch.role) db.memberships;
    } in
        (find_by_id tenant_id id db', db'))
    else (none, db)

-- DELETE FROM users, and what its foreign keys do to the memberships: ON DELETE CASCADE. What they do
-- to the tables outside of this one is Http.Cascade, which the transaction of the route ends with.
unfoldable pub delete : Text → Text → Users → Bool × Users
delete tenant_id id db =
    let test = λ (u : UserRow). visible tenant_id u && (u.id === id) in
    if ltb 0 (count_where test db.users)
    then (
      true,
      record {
        users = delete_where test db.users;
        memberships =
            delete_where (λ m. (m.tenant_id === tenant_id) && (m.user_id === id)) db.memberships;
      },
    )
    else (false, db)
