-- ===== src/Users/Lookup.antt =====
-- The projections that the authentication reads agree on one account.
use logalot.Base.{
  refl, none, some, true, Text, Bool, Option, ◌≡◌, find_where, count_where, ◌===◌, ◌≤◌, arith, ◌&&◌,
  find_where_unique, count_where_mono, find_where_sound, text_eq_iff,
}
use logalot.Users.{
  find_credentials_by_email, find_credentials_by_id, as_auth, to_auth_record, UserRow, Users,
  AuthRecord, visible,
}

auth_by_id :
    (t : Text) (p : UserRow → Bool) (db : Users) (r : AuthRecord) (o : Option UserRow)
    → find_where p db.users ≡ o
    → as_auth db.memberships o ≡ some r
    → ((u : UserRow) → p u ≡ true → visible t u ≡ true)
    → count_where (λ u. u.id === r.id) db.users ≤ 1
    → find_credentials_by_id t r.id db ≡ some r
unfolding find_credentials_by_id
auth_by_id t p db r none e f v one = absurd (cc)
auth_by_id t p db r (some u) e f v one = ground (arith, by_id, f)
  where
    same : u.id ≡ r.id
    same = unfold to_auth_record in ground (arith, f)

    by_id : find_where (λ x. visible t x && (x.id === r.id)) db.users ≡ some u
    by_id =
        find_where_unique p (λ x. visible t x && (x.id === r.id)) db.users u
          (omega (
            arith,
            one,
            count_where_mono (λ x. visible t x && (x.id === r.id)) (λ x. x.id === r.id) db.users
                (λ x g. ground arith),
          ))
          e (ground (arith, v u (find_where_sound p db.users u e), text_eq_iff u.id r.id, same))

-- The account that an email finds is found by its id too, where ids are unique.
pub find_credentials_by_id_of_email :
    (t email : Text) (db : Users) (r : AuthRecord)
    → find_credentials_by_email t email db ≡ some r
    → count_where (λ u. u.id === r.id) db.users ≤ 1
    → find_credentials_by_id t r.id db ≡ some r
unfolding find_credentials_by_email
find_credentials_by_id_of_email t email db r e one =
    auth_by_id t (λ u. visible t u && (u.email === email)) db r _ refl e (λ u h. ground arith) one

auth_id :
    (t id : Text) (db : Users) (r : AuthRecord) (o : Option UserRow)
    → find_where (λ u. visible t u && (u.id === id)) db.users ≡ o
    → as_auth db.memberships o ≡ some r
    → r.id ≡ id
unfolding to_auth_record
auth_id t id db r none e f = absurd (cc)
auth_id t id db r (some u) e f = ground (
  arith,
  f,
  text_eq_iff u.id id,
  find_where_sound (λ x. visible t x && (x.id === id)) db.users u e,
)

-- The account found by an id has that id.
pub find_credentials_by_id-id :
    (t id : Text) (db : Users) (r : AuthRecord)
    → find_credentials_by_id t id db ≡ some r
    → r.id ≡ id
unfolding find_credentials_by_id
find_credentials_by_id-id t id db r e = auth_id t id db r _ refl e
