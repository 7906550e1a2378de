-- ===== src/Invites.antt =====
-- services/control-plane/src/adapters/postgres/invite-repository.ts: the table of invites and its
-- statements, each in a transaction of the armed tenant. The constraints are those of
-- migrations/000018_invites.up.sql. `updated_at` is left out, and so is the reference to the tenant, which
-- the service has just read.
pub mod History
pub mod Pending
use logalot.Domain.Errors.{ok, err, Result, pg_error}
use logalot.Users.{UserRow}
use logalot.Base.{
  none, some, true, false, [], if◌then◌else◌, Bool, Text, Bytes, List, Option, ℕ, codes, not, ◌===◌,
  find_where, count_where, map, ltb, ◌||◌, ◌&&◌, update_where, order_desc, length, ◌++◌,
  select_where, ◌==◌, ◌∷◌,
}

-- The CHECK on `status` admits these texts only, so `toInvite` never throws.
pub data InviteStatus : Type 0 where
  pending consumed revoked : InviteStatus

abbrev pub is_pending : InviteStatus → Bool
is_pending InviteStatus.pending = true
is_pending InviteStatus.consumed = false
is_pending InviteStatus.revoked = false

pub record InviteRow : Type 0 where
  pub id : Text
  pub tenant_id : Text
  pub email : Text
  pub role : Text
  pub token_hash : Bytes
  pub status : InviteStatus
  pub created_by : Option Text
  pub expires_at : ℕ
  pub consumed_at : Option ℕ
  pub created_at : ℕ

-- The public projection, which has no token hash.
pub record Invite : Type 0 where
  pub id : Text
  pub tenant_id : Text
  pub email : Text
  pub role : Text
  pub status : InviteStatus
  pub created_by : Option Text
  pub expires_at : ℕ
  pub consumed_at : Option ℕ
  pub created_at : ℕ

pub record InviteRef : Type 0 where
  pub id : Text
  pub tenant_id : Text
  pub email : Text

pub record ConsumedInvite : Type 0 where
  pub invite_id : Text
  pub role : Text
  pub email : Text
  pub consumed_at : ℕ

pub record NewInvite : Type 0 where
  pub role : Text
  pub email : Text
  pub secret_hash : Bytes
  pub invited_by : Option Text
  pub expires_at : ℕ

-- The argument of `consume`.
pub record Redemption : Type 0 where
  pub token_hash : Bytes
  pub email : Text
  pub now : ℕ

abbrev pub Invites : Type 0
Invites = List InviteRow

unfoldable pub to_invite : InviteRow → Invite
to_invite r = record {
  id = r.id;
  tenant_id = r.tenant_id;
  email = r.email;
  role = r.role;
  status = r.status;
  created_by = r.created_by;
  expires_at = r.expires_at;
  consumed_at = r.consumed_at;
  created_at = r.created_at;
}

abbrev pub admin_role : Text
admin_role = codes "admin"

abbrev pub member_role : Text
member_role = codes "member"

-- CHECK (role IN ('member', 'admin')) and CHECK (octet_length(token_hash) = 32)
abbrev pub violates_check : NewInvite → Bool
violates_check input =
    not ((input.role === member_role) || (input.role === admin_role))
    || not (length input.secret_hash == 32)

-- The unique index on (tenant_id, email) WHERE status = 'pending'
abbrev pub pending_for : Text → Text → InviteRow → Bool
pending_for tenant_id email r =
    (r.tenant_id === tenant_id) && ((r.email === email) && is_pending r.status)

-- UNIQUE (token_hash), over all tenants, the primary key, and that index.
abbrev pub takes_unique : Text → NewInvite → Text → InviteRow → Bool
takes_unique tenant_id input new_id r =
    (r.token_hash === input.secret_hash) || (r.id === new_id) || pending_for tenant_id input.email r

abbrev pub new_invite : Text → NewInvite → Text → ℕ → InviteRow
new_invite tenant_id input new_id created_at = record {
  id = new_id;
  tenant_id = tenant_id;
  email = input.email;
  role = input.role;
  token_hash = input.secret_hash;
  status = InviteStatus.pending;
  created_by = input.invited_by;
  expires_at = input.expires_at;
  consumed_at = none;
  created_at = created_at;
}

-- Whether `created_by` refers to no row of users; NULL refers to none, and is admitted.
abbrev pub author_missing : Option Text → List UserRow → Bool
author_missing none users = false
author_missing (some author) users = count_where (λ u. u.id === author) users == 0

-- INSERT … RETURNING, where `new_id` and `created_at` are what the database fills in: the CHECKs, the
-- unique indexes, and at the end of the statement the reference to users. A violated constraint is the
-- driver's error.
unfoldable pub create :
    Text → NewInvite → Text → ℕ → List UserRow → Invites → Result Invite × Invites
unfolding to_invite
create tenant_id input new_id created_at users rows =
    if violates_check input
    then (err (pg_error 23514), rows)
    else if ltb 0 (count_where (takes_unique tenant_id input new_id) rows)
    then (err (pg_error 23505), rows)
    else if author_missing input.invited_by users
    then (err (pg_error 23503), rows)
    else let row = new_invite tenant_id input new_id created_at in
      (ok (to_invite row), rows ++ row ∷ [])

-- The WHERE clause of `findValidByTokenHash`.
abbrev pub valid_at : Text → Bytes → ℕ → InviteRow → Bool
valid_at tenant_id token_hash now r =
    (r.tenant_id === tenant_id)
    && ((r.token_hash === token_hash) && (is_pending r.status && ltb now r.expires_at))

abbrev pub to_ref : Option InviteRow → Option InviteRef
to_ref none = none
to_ref (some r) = some (record { id = r.id; tenant_id = r.tenant_id; email = r.email })

unfoldable pub find_valid_by_token_hash : Text → Bytes → ℕ → Invites → Option InviteRef
find_valid_by_token_hash tenant_id token_hash now rows =
    to_ref (find_where (valid_at tenant_id token_hash now) rows)

-- The WHERE clause of `consumeWithClient`.
abbrev pub redeemable : Text → Redemption → InviteRow → Bool
redeemable tenant_id input r =
    (r.email === input.email) && valid_at tenant_id input.token_hash input.now r

abbrev pub set_consumed : ℕ → InviteRow → InviteRow
set_consumed now r = record r { status = InviteStatus.consumed; consumed_at = some now }

abbrev pub consumed_row : ℕ → InviteRow → ConsumedInvite
consumed_row now r = record { invite_id = r.id; role = r.role; email = r.email; consumed_at = now }

-- `consumeWithClient`, and `consume`, which is the same in a transaction of its own.
unfoldable pub consume : Text → Redemption → Invites → Option ConsumedInvite × Invites
consume tenant_id input rows = elim (find_where (redeemable tenant_id input) rows) [
  | none ↦ (none, rows)
  | some r ↦ (
    some (consumed_row input.now r),
    update_where (redeemable tenant_id input) (set_consumed input.now) rows,
  )
]

abbrev pub pending_of : Text → InviteRow → Bool
pending_of tenant_id r = (r.tenant_id === tenant_id) && is_pending r.status

unfoldable pub count_pending : Text → Invites → ℕ
count_pending tenant_id rows = count_where (pending_of tenant_id) rows

unfoldable pub list_by_tenant : Text → Invites → List Invite
list_by_tenant tenant_id rows =
    map to_invite
      (order_desc (λ r. r.created_at) (select_where (λ r. r.tenant_id === tenant_id) rows))

abbrev pub revocable : Text → Text → InviteRow → Bool
revocable tenant_id id r = (r.id === id) && pending_of tenant_id r

abbrev pub set_revoked : InviteRow → InviteRow
set_revoked r = record r { status = InviteStatus.revoked }

unfoldable pub revoke : Text → Text → Invites → Bool × Invites
revoke tenant_id id rows = (
  ltb 0 (count_where (revocable tenant_id id) rows),
  update_where (revocable tenant_id id) set_revoked rows,
)
