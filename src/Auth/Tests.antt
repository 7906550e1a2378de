-- ===== src/Auth/Tests.antt =====
-- A tenant with one user and one live refresh token, and the theorems of the sessions at it.
use logalot.Auth.Logout.{logout_ends_session}
use logalot.Auth.Rotation.{refresh_ok_iff}
use logalot.Auth.Race.{race_one_winner}
use logalot.Auth.Replay.{replay_revokes_family}
use logalot.Auth.Rejection.{IsRejection, refresh_reuse_revokes, refresh_fails_uniformly}
use logalot.Domain.Errors.{ok, err, is_ok, Result, pg_error, malformed_id}
use logalot.Auth.Login.{IsAuthentic, login_ok_iff, login_fails_uniformly}
use logalot.Domain.Email.{normalize_email, trim, trim_start, trim_end, is_space}
use logalot.Domain.Split.{split_n, split_loop, index_of, starts_with}
use logalot.Auth.Histories.{SessionOp, AllDrawNew, login_op, refresh_op, logout_op, run-OneLive}
use logalot.Domain.Roles.{Role, MembershipRole}
use logalot.RefreshTokens.Family.{OneLive, live_in}
use logalot.Auth.Continuity.{IsKeyed, login_then_refresh}
use logalot.Domain.Credentials.Laws.{IsField}
use logalot.Auth.Refresh.{IsAcceptable, IsEntitled, Presents}
use logalot.Domain.Credentials.{ParsedRefreshToken, parse_refresh_token, check_refresh_token}
use logalot.RefreshTokens.{
  create, find_by_id, RefreshTokenRow, Rows, NewRefreshToken, rotate, has_id, look_up,
}
use logalot.Auth.{
  Principal, LoginCommand, Fresh, Pending, refresh_finish, successor, refresh,
  invalid_refresh_token, login, invalid_credentials, login_check, logout, login_record,
  decide_login, refresh_prepare, safe_parse,
}
use logalot.Users.{
  UserRow, MembershipRow, AuthRecord, find_credentials_by_id, find_credentials_by_email,
  active_status, to_auth_record, membership_role,
}
use logalot.Tenants.{Tenant, TenantStatus}
use logalot.Ports.{Ports, Directory, SessionTokens}
use logalot.Base.{
  refl, none, some, true, false, [], Text, List, count_where, ◌===◌, codes, ◌∷◌, find_where, arith,
  ◌≤◌, ◌≡◌, update_where, ◌≢◌, ◌↔◌, ◌⊎◌, text_eq_iff,
}
use logalot.Tenants
use logalot.RefreshTokens.History
use logalot.Auth.Histories
use logalot.RefreshTokens.History.{
  StoreOp, create_op, rotate_op, revoke_op, rotations, rotations_at_most_one,
}

-- Functions in the place of the ports: the digest and the hash of a text are the text itself.
abbrev ports : Ports
ports = record {
  sha256 = λ s. s;
  hash = λ s. s;
  verify = λ s h. s === h;
  issue_access = λ claims. record { token = claims.principal_id; expires_in_seconds = 900 };
  nfc = λ s. s;
  lower = λ s. s;
  is_uuid = λ s. true;
}

abbrev tenant : Tenant
tenant = record {
  id = codes "t1";
  public_id = codes "acme";
  name = codes "Acme";
  status = TenantStatus.active;
  created_at = 0;
}

abbrev user : UserRow
user = record {
  id = codes "u1";
  tenant_id = codes "t1";
  email = codes "a@b.c";
  password_hash = codes "pw";
  display_name = none;
  status = active_status;
  is_platform_operator = false;
  created_at = 0;
}

abbrev membership : MembershipRow
membership = record { tenant_id = codes "t1"; user_id = codes "u1"; role = MembershipRole.member }

abbrev directory : Directory
directory = record {
  tenants = tenant ∷ [];
  users = record { users = user ∷ []; memberships = membership ∷ [] };
}

abbrev account : AuthRecord
account = record {
  id = codes "u1";
  password_hash = codes "pw";
  status = active_status;
  role = some Role.member;
}

abbrev who : Principal
who = record { tenant_id = codes "t1"; user_id = codes "u1"; role = Role.member }

abbrev command : LoginCommand
command = record { tenant_slug = codes "acme"; email = codes " a@b.c "; password = codes "pw" }

abbrev row : RefreshTokenRow
row = record {
  id = codes "k1";
  tenant_id = codes "t1";
  user_id = codes "u1";
  family_id = codes "f1";
  token_hash = codes "s1";
  expires_at = 5000;
  rotated_at = none;
  revoked_at = none;
}

abbrev used_row : RefreshTokenRow
used_row = record row { rotated_at = some 50 }

abbrev rows : Rows
rows = row ∷ []

abbrev used_rows : Rows
used_rows = used_row ∷ []

abbrev raw : Text
raw = codes "lgr_t1_k1_s1"

abbrev parsed : ParsedRefreshToken
parsed = record { tenant_id = codes "t1"; token_id = codes "k1"; secret = codes "s1" }

abbrev fresh : Fresh
fresh = record { family_id = codes "f2"; secret = codes "s2"; new_id = codes "k2"; now = 100 }

abbrev next : Fresh
next = record { family_id = codes "f3"; secret = codes "s3"; new_id = codes "k3"; now = 200 }

abbrev pending : Pending
pending = record { row = row; who = who }

abbrev new_token : NewRefreshToken
new_token = successor ports 3600 pending fresh

abbrev store_ops : List StoreOp
store_ops =
    create_op (codes "t1") new_token (codes "k4")
    ∷ rotate_op (codes "t1") (codes "k1") 100 new_token (codes "k2")
    ∷ rotate_op (codes "t1") (codes "k1") 101 new_token (codes "k3")
    ∷ revoke_op (codes "t1") (codes "f1") 102
    ∷ []

abbrev session_ops : List SessionOp
session_ops =
    login_op command directory fresh ∷ refresh_op directory raw next ∷ logout_op raw 300 ∷ []

presents : Presents ports raw rows parsed row
unfolding parse_refresh_token check_refresh_token split_n split_loop index_of starts_with ◌===◌
    find_by_id find_where
presents = record { parses = refl; found = refl; digest = refl }

Presents-used : Presents ports raw used_rows parsed used_row
unfolding parse_refresh_token check_refresh_token split_n split_loop index_of starts_with ◌===◌
    find_by_id find_where
Presents-used = record { parses = refl; found = refl; digest = refl }

is_entitled : IsEntitled directory row who
unfolding Tenants.find_by_id find_credentials_by_id find_where ◌===◌ to_auth_record membership_role
is_entitled = record {
  tenant = refl;
  account = account;
  credentials = refl;
  active = refl;
  role = refl;
  user = refl;
}

is_acceptable : IsAcceptable ports directory raw 100 rows pending
is_acceptable = record {
  parsed = parsed;
  presents = presents;
  tenant = refl;
  live = refl;
  unexpired = omega arith;
  entitled = is_entitled;
}

is_authentic : IsAuthentic ports command directory who
unfolding Tenants.find_by_public_id find_credentials_by_email find_where ◌===◌ to_auth_record
    membership_role normalize_email trim trim_start trim_end is_space
is_authentic = record {
  tenant = tenant;
  by_slug = refl;
  tenant_is_active = refl;
  account = account;
  by_email = refl;
  verified = refl;
  active = refl;
  role = refl;
  same_tenant = refl;
  same_user = refl;
}

is_keyed : IsKeyed directory
unfolding count_where
is_keyed = record { tenants = λ id. ground arith; users = λ id. ground arith }

one_k1 : count_where (has_id (codes "k1")) rows ≤ 1
unfolding count_where ◌===◌
one_k1 = omega arith

no_k2 : count_where (has_id (codes "k2")) rows ≡ 0
unfolding count_where ◌===◌
no_k2 = refl

no_k3 : count_where (has_id (codes "k3")) rows ≡ 0
unfolding count_where ◌===◌
no_k3 = refl

one_live : OneLive rows
unfolding count_where
one_live = record { at = λ t family. ground arith }

draws_new : AllDrawNew ports 3600 session_ops rows
unfolding count_where ◌===◌
draws_new = (λ t. ground arith, (tt, (tt, tt)))

won : is_ok (refresh_finish ports 3600 fresh pending rows).0 ≡ true
unfolding refresh_finish rotate create count_where update_where ◌===◌
won = refl

k2-IsField : IsField (codes "k2")
k2-IsField = (λ e. cc e, (λ e. omega (arith, e), (λ e. omega (arith, e), tt)))

t1-IsField : IsField (codes "t1")
t1-IsField = (λ e. cc e, (λ e. omega (arith, e), (λ e. omega (arith, e), tt)))

k2_ne_k3 : codes "k2" ≢ codes "k3"
unfolding ◌===◌
k2_ne_k3 = λ e. let h : false ≡ true = (text_eq_iff (codes "k2") (codes "k3")).1 e in cc h

s2_nonempty : codes "s2" ≢ []
s2_nonempty = λ e. cc e

refresh_ok_iff_example : (is_ok (refresh ports 3600 directory raw fresh rows).0 ≡ true) ↔ (
    ((x : Pending) × IsAcceptable ports directory raw 100 rows x)
    × (count_where (has_id (codes "k2")) rows ≡ 0))
refresh_ok_iff_example = refresh_ok_iff ports 3600 directory raw fresh rows

rotations_at_most_one_example : rotations (codes "k1") store_ops rows ≤ 1
rotations_at_most_one_example = rotations_at_most_one (codes "k1") store_ops rows one_k1

abbrev exchanged : Rows
exchanged = (refresh ports 3600 directory raw fresh rows).1

abbrev replayed : Result SessionTokens × Rows
replayed = refresh ports 3600 directory raw next exchanged

replay_revokes_family_example :
    (replayed.0 ≡ err invalid_refresh_token) × (live_in (codes "t1") (codes "f1") replayed.1 ≡ 0)
replay_revokes_family_example =
    replay_revokes_family ports 3600 directory directory raw fresh next rows pending is_acceptable
      no_k2

race_one_winner_example :
    is_ok
      (refresh_finish ports 3600 next pending
        (History.run store_ops (refresh_finish ports 3600 fresh pending rows).1)).0
    ≡ false
race_one_winner_example = race_one_winner ports 3600 fresh next pending rows store_ops one_k1 won

run-OneLive_example : OneLive (Histories.run ports 3600 session_ops rows)
run-OneLive_example = run-OneLive ports 3600 session_ops rows draws_new one_live

login_ok_iff_example : (is_ok (login ports 3600 command directory fresh rows).0 ≡ true) ↔ (
    ((x : Principal) × IsAuthentic ports command directory x)
    × (count_where (has_id (codes "k2")) rows ≡ 0))
login_ok_iff_example = login_ok_iff ports 3600 command directory fresh rows

abbrev wrong : LoginCommand
wrong = record { tenant_slug = codes "acme"; email = codes "a@b.c"; password = codes "no" }

wrong_fails : (login ports 3600 wrong directory fresh rows).0 ≡ err invalid_credentials
unfolding login login_check login_record decide_login Tenants.find_by_public_id
    find_credentials_by_email find_where ◌===◌ to_auth_record membership_role normalize_email trim
    trim_start trim_end is_space
wrong_fails = refl

login_fails_uniformly_example :
    ((invalid_credentials ≡ invalid_credentials) ⊎ (invalid_credentials ≡ pg_error 23505))
    × ((login ports 3600 wrong directory fresh rows).1 ≡ rows)
login_fails_uniformly_example =
    login_fails_uniformly ports 3600 wrong directory fresh rows invalid_credentials wrong_fails

login_then_refresh_example :
    (tokens : SessionTokens) × ((login ports 3600 command directory fresh rows).0 ≡ ok tokens)
    × (is_ok
          (refresh ports 3600 directory tokens.refresh_token next
            (login ports 3600 command directory fresh rows).1).0
        ≡ true)
login_then_refresh_example =
    login_then_refresh ports 3600 command directory fresh next rows who is_keyed is_authentic
      t1-IsField k2-IsField s2_nonempty (omega arith) no_k2 no_k3 k2_ne_k3

used_fails : (refresh ports 3600 directory raw fresh used_rows).0 ≡ err invalid_refresh_token
used_fails =
    (refresh_reuse_revokes ports 3600 directory raw fresh used_rows parsed used_row Presents-used
      refl).0

-- Where the database does not read the ids of a token as uuids, and so has no row for them.
abbrev strict : Ports
strict = record ports { is_uuid = λ s. false }

malformed_fails : (refresh strict 3600 directory raw fresh []).0 ≡ err malformed_id
unfolding refresh refresh_prepare safe_parse look_up find_by_id find_where parse_refresh_token
    split_n ◌===◌
malformed_fails = refl

refresh_fails_uniformly_example : IsRejection ports raw invalid_refresh_token
refresh_fails_uniformly_example =
    refresh_fails_uniformly ports 3600 directory raw fresh used_rows invalid_refresh_token
      used_fails

logout_ends_session_example :
    ((logout ports raw 400 rows).0 ≡ ok tt)
    × (live_in (codes "t1") (codes "f1") (logout ports raw 400 rows).1 ≡ 0)
    × (rotations (codes "k1") store_ops (logout ports raw 400 rows).1 ≡ 0)
logout_ends_session_example =
    logout_ends_session ports raw 400 rows parsed row store_ops presents one_k1
