-- ===== src/InviteService/Creation.antt =====
-- When the creation of an invite succeeds, and what it writes.
use logalot.Users.{UserRow}
use logalot.Domain.Credentials.{assemble_invite_token}
use logalot.Authorize.{assert_can}
use logalot.Invites.{
  NewInvite, InviteRow, count_pending, new_invite, violates_check, to_invite, takes_unique,
  pending_of,
}
use logalot.Tenants.{Tenants, Tenant}
use logalot.Ports.{Ports, TenantContext}
use logalot.Tenants
use logalot.Invites
use logalot.Base.{
  [], some, true, false, ◌≡◌, Text, ◌++◌, ◌<◌, length, ◌∷◌, ◌↔◌, count_where, arith, none, inl, inr,
  ◌≤◌, Option-cases, count_where-append, List, ◌===◌,
}
use logalot.Domain.Errors.{ok, err, is_ok, Error, Result-cases}
use logalot.Domain.Rbac.{Operation, can}
use logalot.InviteService.{
  create, InviteConfig, CreateInviteCommand, FreshInvite, InviteState, check_cap, check_secret,
  insert_invite, require_tenant, new_invite_of, announce, invite_url_of, secret_hex_length,
  event_of, InviteOutcome, message_of,
}

module _ (p : Ports) (config : InviteConfig) (ctx : TenantContext) (cmd : CreateInviteCommand)
    (tenants : Tenants) (accounts : List UserRow) (fresh : FreshInvite) (st : InviteState) where
  abbrev pub input : NewInvite
  input = new_invite_of p config ctx cmd fresh

  -- What the creation wants: the right, the tenant, room under the cap, a secret of the right length,
  -- and an input that the constraints of the table admit.
  pub record IsIssuable : Type 0 where
    pub right : can ctx.role Operation.invite_create ≡ true
    pub tenant : Tenant
    pub found : Tenants.find_by_id ctx.tenant_id tenants ≡ some tenant
    pub room : count_pending ctx.tenant_id st.invites < config.max_outstanding_per_tenant
    pub secret : length fresh.secret ≡ secret_hex_length
    pub valid : violates_check input ≡ false
    pub new : count_where (takes_unique ctx.tenant_id input fresh.new_id) st.invites ≡ 0
    pub author : 1 ≤ count_where (λ (u : UserRow). u.id === ctx.principal_id) accounts

  abbrev pub row : InviteRow
  row = new_invite ctx.tenant_id input fresh.new_id fresh.created_at

  abbrev pub url : Tenant → Text
  url tenant = invite_url_of config (assemble_invite_token tenant.public_id fresh.secret)

  abbrev pub after : Tenant → InviteState
  after tenant = record {
    invites = st.invites ++ row ∷ [];
    audit =
        st.audit
        ++ event_of ctx InviteOutcome.invite_created fresh.new_id input.email input.role fresh.now
          ∷ [];
    sent = st.sent ++ message_of (to_invite row) (url tenant) ∷ [];
  }

  abbrev RoomFor : Type 0
  RoomFor = count_pending ctx.tenant_id st.invites < config.max_outstanding_per_tenant

  right_iff :
      (assert_can ctx Operation.invite_create ≡ ok tt)
      ↔ (can ctx.role Operation.invite_create ≡ true)
  unfolding assert_can
  right_iff = ground arith

  cap_iff : (check_cap config ctx.tenant_id st ≡ (ok tt, st)) ↔ RoomFor
  unfolding check_cap
  cap_iff = ground arith

  secret_iff : (check_secret fresh.secret ≡ ok tt) ↔ (length fresh.secret ≡ secret_hex_length)
  unfolding check_secret
  secret_iff = ground arith

  insert_new :
      violates_check input ≡ false
      → count_where (takes_unique ctx.tenant_id input fresh.new_id) st.invites ≡ 0
      → 1 ≤ count_where (λ (u : UserRow). u.id === ctx.principal_id) accounts
      → insert_invite ctx.tenant_id input fresh accounts st
        ≡ (ok (to_invite row), record st { invites = st.invites ++ row ∷ [] })
  unfolding insert_invite Invites.create
  insert_new v n a = ground arith

  -- An issuable invite is issued: its row is appended, pending, with the normalized email and the
  -- digest of the secret; an audit record and a message with the link are appended; and the answer
  -- is the row's projection with the link, whose token carries the tenant's slug and the secret.
  pub create_accepts :
      (h : IsIssuable)
      → create p config ctx cmd tenants accounts fresh st
        ≡ (ok (record { invite = to_invite row; invite_url = url h.tenant }), after h.tenant)
  unfolding create require_tenant announce to_invite
  create_accepts h = ground (
    arith,
    right_iff.1 h.right,
    h.found,
    cap_iff.1 h.room,
    secret_iff.1 h.secret,
    insert_new h.valid h.new h.author,
  )

  create_inverts :
      (tenant : Tenant)
      → Tenants.find_by_id ctx.tenant_id tenants ≡ some tenant
      → is_ok (create p config ctx cmd tenants accounts fresh st).0 ≡ true
      → IsIssuable
  unfolding create assert_can require_tenant check_cap check_secret insert_invite Invites.create
      announce
  create_inverts tenant found h = record {
    right = ground (arith, found);
    tenant = tenant;
    found = found;
    room = ground (arith, found);
    secret = ground (arith, found);
    valid = ground (arith, found);
    new = ground (arith, found);
    author = ground (arith, found);
  }

  create_homeless :
      Tenants.find_by_id ctx.tenant_id tenants ≡ none
      → is_ok (create p config ctx cmd tenants accounts fresh st).0 ≡ false
  unfolding create assert_can require_tenant
  create_homeless e = ground (arith, e)

  -- The creation succeeds exactly when the invite is issuable: the role may create invites, the
  -- tenant exists, it has fewer pending invites than the cap, the secret has 64 digits, and no
  -- constraint of the table is violated (the role is member or admin, the digest has 32 bytes, the
  -- digest and the id are new, no invite for the email is pending in the tenant, and the caller, who
  -- is recorded as the author, is still a user).
  pub create_ok_iff :
      (is_ok (create p config ctx cmd tenants accounts fresh st).0 ≡ true) ↔ IsIssuable
  create_ok_iff = (
    λ h. elim (Option-cases (Tenants.find_by_id ctx.tenant_id tenants)) [
      | inl e ↦ absurd (ground (arith, create_homeless e))
      | inr (tenant, e) ↦ create_inverts tenant e h
    ],
    λ h. ground (arith, create_accepts h),
  )

  -- A creation that fails writes nothing: no invite, no audit record, no message.
  pub create_fails_clean :
      (e : Error)
      → (create p config ctx cmd tenants accounts fresh st).0 ≡ err e
      → (create p config ctx cmd tenants accounts fresh st).1 ≡ st
  unfolding create assert_can require_tenant check_cap check_secret insert_invite Invites.create
      announce
  create_fails_clean e h = elim (Option-cases (Tenants.find_by_id ctx.tenant_id tenants)) [
    | inl n ↦ ground (arith, n)
    | inr (tenant, n) ↦ ground (arith, n)
  ]

  issued_room :
      (h : IsIssuable)
      → count_pending ctx.tenant_id (st.invites ++ row ∷ []) ≤ config.max_outstanding_per_tenant
  unfolding count_pending count_where
  issued_room h =
      ground (arith, h.room, count_where-append (pending_of ctx.tenant_id) st.invites (row ∷ []))

  -- The creation keeps the cap: a tenant with no more pending invites than the cap has no more
  -- afterwards, whether the creation succeeds or fails.
  pub create_keeps_cap :
      count_pending ctx.tenant_id st.invites ≤ config.max_outstanding_per_tenant
      → count_pending ctx.tenant_id (create p config ctx cmd tenants accounts fresh st).1.invites
        ≤ config.max_outstanding_per_tenant
  create_keeps_cap le = elim (Result-cases (create p config ctx cmd tenants accounts fresh st).0) [
    | inl (issued, e) ↦
        let h = create_ok_iff.0 (ground arith) in rw (create_accepts h) (issued_room h)
    | inr (e, f) ↦ rw (create_fails_clean e f) le
  ]
