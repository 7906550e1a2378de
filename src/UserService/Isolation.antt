-- ===== src/UserService/Isolation.antt =====
-- What a tenant's commands leave alone: the users and memberships of every other tenant.
use logalot.Domain.Roles.{MembershipRole}
use logalot.Users.Insert.{new_membership}
use logalot.Users.{
  Users, insert_user_with_membership, UserRow, MembershipRow, visible, inserted, set_role,
}
use logalot.Authorize.{assert_can}
use logalot.Ports.{Ports, TenantContext}
use logalot.Users
use logalot.Base.{
  [], refl, Text, select_where, ℕ, List, ◌≡◌, ◌≢◌, ◌∷◌, text_eq_iff, ◌===◌, arith, none, some,
  Option, ◌&&◌, All, ◌∙◌, select-append_other, select-update_other, select-delete_other,
}
use logalot.UserService.{
  create, update, remove, CreateUserCommand, UpdateUserCommand, created_user, patch_of,
}

pub data UserOp : Type 0 where
  create_op : CreateUserCommand → Text → ℕ → UserOp
  update_op : Text → UpdateUserCommand → UserOp
  remove_op : Text → UserOp

unfoldable pub apply : Ports → TenantContext → UserOp → Users → Users
apply p ctx (create_op cmd new_id now) db = (create p ctx cmd new_id now db).1
apply p ctx (update_op id cmd) db = (update p ctx id cmd db).1
apply p ctx (remove_op id) db = (remove ctx id db).1

-- What row-level security shows to a tenant.
abbrev pub users_of : Text → Users → List UserRow
users_of t db = select_where (visible t) db.users

abbrev pub memberships_of : Text → Users → List MembershipRow
memberships_of t db = select_where (λ m. m.tenant_id === t) db.memberships

-- Both tables show the tenant what they showed before.
abbrev pub Same : Text → Users → Users → Type 0
Same u after before =
    (users_of u after ≡ users_of u before) × (memberships_of u after ≡ memberships_of u before)

pub create-Same :
    (p : Ports) (ctx : TenantContext) (cmd : CreateUserCommand) (new_id : Text) (now : ℕ)
    (db : Users) (u : Text)
    → ctx.tenant_id ≢ u
    → Same u (create p ctx cmd new_id now db).1 db
unfolding create assert_can Users.create insert_user_with_membership
create-Same p ctx cmd new_id now db u h =
    let other = text_eq_iff ctx.tenant_id u in
    (
      ground (
        arith,
        other,
        select-append_other (visible u) db.users
            (inserted ctx.tenant_id (created_user p cmd) new_id now),
      ),
      ground (
        arith,
        other,
        select-append_other (λ (m : MembershipRow). m.tenant_id === u) db.memberships
            (new_membership ctx.tenant_id (created_user p cmd) new_id),
      ),
    )

set_role-tenant :
    (o : Option MembershipRole) (m : MembershipRow) → (set_role o m).tenant_id ≡ m.tenant_id
set_role-tenant none m = refl
set_role-tenant (some role) m = refl

pub update-Same :
    (p : Ports) (ctx : TenantContext) (id : Text) (cmd : UpdateUserCommand) (db : Users) (u : Text)
    → ctx.tenant_id ≢ u
    → Same u (update p ctx id cmd db).1 db
unfolding update assert_can Users.update
update-Same p ctx id cmd db u h =
    let t = ctx.tenant_id in
    let patch = patch_of p cmd in
    let users =
      select-update_other (visible u) (λ (r : UserRow). visible t r && (r.id === id))
        (Users.patched patch) db.users
        (λ r e. ground (arith, text_eq_iff r.tenant_id t, text_eq_iff r.tenant_id u)) in
    let memberships =
      select-update_other (λ (m : MembershipRow). m.tenant_id === u)
        (λ m. (m.tenant_id === t) && (m.user_id === id)) (set_role patch.role) db.memberships
        (λ m e. (
          ground (arith, text_eq_iff m.tenant_id t, text_eq_iff m.tenant_id u),
          rw (set_role-tenant patch.role m)
              (ground (arith, text_eq_iff m.tenant_id t, text_eq_iff m.tenant_id u)),
        )) in
    (ground (arith, users), ground (arith, memberships))

pub remove-Same :
    (ctx : TenantContext) (id : Text) (db : Users) (u : Text)
    → ctx.tenant_id ≢ u
    → Same u (remove ctx id db).1 db
unfolding remove assert_can Users.delete
remove-Same ctx id db u h =
    let t = ctx.tenant_id in
    let users =
      select-delete_other (visible u) (λ (r : UserRow). visible t r && (r.id === id)) db.users
        (λ r e. ground (arith, text_eq_iff r.tenant_id t, text_eq_iff r.tenant_id u)) in
    let memberships =
      select-delete_other (λ (m : MembershipRow). m.tenant_id === u)
        (λ m. (m.tenant_id === t) && (m.user_id === id)) db.memberships
        (λ m e. ground (arith, text_eq_iff m.tenant_id t, text_eq_iff m.tenant_id u)) in
    (ground (arith, users), ground (arith, memberships))

step-Same :
    (p : Ports) (ctx : TenantContext) (op : UserOp) (db : Users) (u : Text)
    → ctx.tenant_id ≢ u
    → Same u (apply p ctx op db) db
unfolding apply
step-Same p ctx (create_op cmd new_id now) db u h = create-Same p ctx cmd new_id now db u h
step-Same p ctx (update_op id cmd) db u h = update-Same p ctx id cmd db u h
step-Same p ctx (remove_op id) db u h = remove-Same ctx id db u h

unfoldable pub run : Ports → List (TenantContext × UserOp) → Users → Users
unfolding apply
run p [] db = db
run p ((ctx, op) ∷ ops) db = run p ops (apply p ctx op db)

-- Commands on users, given by whatever roles of other tenants and with whatever arguments, leave the
-- users and the memberships of a tenant as they are.
pub run-Same :
    (p : Ports) (ops : List (TenantContext × UserOp)) (db : Users) (u : Text)
    → All (λ op. op.0.tenant_id ≢ u) ops
    → Same u (run p ops db) db
unfolding run
run-Same p [] db u h = (refl, refl)
run-Same p ((ctx, op) ∷ ops) db u h =
    let (users, memberships) = run-Same p ops (apply p ctx op db) u h.1 in
    let (users', memberships') = step-Same p ctx op db u h.0 in
    (users ∙ users', memberships ∙ memberships')
