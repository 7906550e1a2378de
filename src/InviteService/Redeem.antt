-- ===== src/InviteService/Redeem.antt =====
-- An invite that was issued can be accepted with the token of its link.
use logalot.Provisioner.Accepts.{provision_accepts}
use logalot.Domain.Credentials.{parse_invite_token, assemble_invite_token}
use logalot.OAuthIdentities
use logalot.Domain.Email.{normalize_email}
use logalot.Domain.Credentials.Laws.{IsField, parse_invite_token_iff}
use logalot.OAuthIdentities.{Identities}
use logalot.Users.{Users, violates_unique, UserRow}
use logalot.Provisioner.{NewRows, new_user, provision_from_invite, InviteProvisionInput, redemption}
use logalot.InviteService.Creation.{IsIssuable, row, input, create_accepts}
use logalot.Tenants.{Tenants}
use logalot.Ports.{Ports, TenantContext}
use logalot.Base.{
  [], refl, some, true, false, ℕ, Text, Bool, ◌≡◌, ◌===◌, find_where, ◌<◌, ◌++◌, ◌+◌, ◌∷◌, ◌*◌,
  find_where-append_new, arith, count_where_mono, count_where, text_eq_refl, ap, length, List,
}
use logalot.Domain.Errors.{ok}
use logalot.InviteService.{create, InviteConfig, CreateInviteCommand, FreshInvite, InviteState}
use logalot.Invites.{
  takes_unique, find_valid_by_token_hash, InviteRow, consumed_row, valid_at, redeemable,
}

issued_redeemable :
    (p : Ports) (config : InviteConfig) (ctx : TenantContext) (cmd : CreateInviteCommand)
    (tenants : Tenants) (accounts : List UserRow) (fresh : FreshInvite) (st : InviteState)
    (later : ℕ) (q : InviteRow → Bool)
    → IsIssuable p config ctx cmd tenants accounts fresh st
    → ((r : InviteRow) → q r ≡ true → (r.token_hash === p.sha256 fresh.secret) ≡ true)
    → q (row p config ctx cmd tenants accounts fresh st) ≡ true
    → find_where q (st.invites ++ row p config ctx cmd tenants accounts fresh st ∷ [])
      ≡ some (row p config ctx cmd tenants accounts fresh st)
issued_redeemable p config ctx cmd tenants accounts fresh st later q h weak self =
    find_where-append_new q st.invites (row p config ctx cmd tenants accounts fresh st)
      (omega (
        arith,
        h.new,
        count_where_mono q
            (takes_unique ctx.tenant_id (input p config ctx cmd tenants accounts fresh st)
              fresh.new_id)
            st.invites (λ r e. ground (arith, weak r)),
      ))
      self

-- The token of an issued link parses to the tenant's slug and the secret. Until the invite expires,
-- the digest of that secret finds the invite, and provisioning with it and the invited email gives
-- the new user, where the email, the new ids and the Google account are free. The slug is not empty
-- and holds no '_'.
pub create_then_provision :
    (p : Ports) (config : InviteConfig) (ctx : TenantContext) (cmd : CreateInviteCommand)
    (tenants : Tenants) (accounts : List UserRow) (fresh : FreshInvite) (st : InviteState)
    (h : IsIssuable p config ctx cmd tenants accounts fresh st) (sub : Text) (later : ℕ)
    (made : NewRows) (users : Users) (identities : Identities)
    → IsField h.tenant.public_id
    → later < fresh.now + config.ttl_seconds * 1000
    → let invited = normalize_email p.nfc p.lower cmd.email in
      let digest = p.sha256 fresh.secret in
      let taken =
        new_user
          (record { email = invited; invite_token_hash = digest; provider_sub = sub; now = later })
          (consumed_row later (row p config ctx cmd tenants accounts fresh st)) in
      violates_unique ctx.tenant_id taken made.user_id users ≡ false
      → count_where
          (OAuthIdentities.takes_unique ctx.tenant_id
            (record { user_id = made.user_id; provider_sub = sub; email = invited })
            made.identity_id)
          identities
        ≡ 0
      → let invites = (create p config ctx cmd tenants accounts fresh st).1.invites in
        (parse_invite_token (assemble_invite_token h.tenant.public_id fresh.secret)
          ≡ ok (record { public_id = h.tenant.public_id; secret = fresh.secret }))
        × (find_valid_by_token_hash ctx.tenant_id digest later invites
            ≡ some (record { id = fresh.new_id; tenant_id = ctx.tenant_id; email = invited }))
        × ((provision_from_invite ctx.tenant_id
              (record {
                email = invited;
                invite_token_hash = digest;
                provider_sub = sub;
                now = later;
              })
              made
              (record { invites = invites; users = users; identities = identities })).0
            ≡ ok (some made.user_id))
unfolding find_valid_by_token_hash
create_then_provision p config ctx cmd tenants accounts fresh st h sub later made users identities
      slug time new free =
    let invited = normalize_email p.nfc p.lower cmd.email in
    let digest = p.sha256 fresh.secret in
    let asked : InviteProvisionInput = record {
      email = invited;
      invite_token_hash = digest;
      provider_sub = sub;
      now = later;
    } in
    let issued = row p config ctx cmd tenants accounts fresh st in
    let self = text_eq_refl ctx.tenant_id in
    let same = text_eq_refl digest in
    rw (create_accepts p config ctx cmd tenants accounts fresh st h) (
      (parse_invite_token_iff (assemble_invite_token h.tenant.public_id fresh.secret)
            (record { public_id = h.tenant.public_id; secret = fresh.secret })).1
          (refl, slug, λ e. omega (arith, h.secret, ap length e)),
      rw (
          issued_redeemable p config ctx cmd tenants accounts fresh st later
            (valid_at ctx.tenant_id digest later) h (λ r e. ground arith)
            (ground (arith, self, same))),
      provision_accepts ctx.tenant_id asked made
          (record { invites = st.invites ++ issued ∷ []; users = users; identities = identities })
          issued
          (issued_redeemable p config ctx cmd tenants accounts fresh st later
            (redeemable ctx.tenant_id (redemption asked)) h (λ r e. ground arith)
            (ground (arith, self, same, text_eq_refl invited)))
          new free,
    )
