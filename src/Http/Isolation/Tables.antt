-- ===== src/Http/Isolation/Tables.antt =====
-- What a command of one tenant leaves to another in the tables of API keys, retention policies and
-- invites.
use logalot.Users.{UserRow}
use logalot.Base.{
  Text, List, ◌≢◌, select_where, ℕ, ◌≡◌, ◌===◌, arith, select-update_other, text_eq_iff,
  select-append_other, inl, inr, Option-cases,
}
use logalot.Ports.{Ports, TenantContext}
use logalot.Authorize.{assert_can}
use logalot.ApiKeys
use logalot.ApiKeys.{ApiKeys, ApiKeyRow, NewApiKey, new_key}
use logalot.ApiKeyService
use logalot.ApiKeyService.{IssueApiKeyCommand, known_tenant, new_api_key}
use logalot.Domain.Credentials.{KeyMaterial, mint_api_key}
use logalot.Tenants
use logalot.Tenants.{Tenants}
use logalot.Retention
use logalot.Retention.{
  Policies, RetentionInput, UpsertRetentionCommand, RetentionPolicy, owned, upsert_row, input_of,
  new_policy, set_days, max_integer, within_checks, RetentionRow,
}
use logalot.Invites
use logalot.Invites.{Invites, InviteRow, NewInvite, new_invite, revocable}
use logalot.InviteService
use logalot.InviteService.{
  InviteState, InviteConfig, CreateInviteCommand, FreshInvite, insert_invite, announce, check_cap,
  after_revoke, check_secret, require_tenant, new_invite_of,
}

abbrev pub keys_of : Text → ApiKeys → List ApiKeyRow
keys_of u rows = select_where (λ r. r.tenant_id === u) rows

abbrev pub policies_of : Text → Policies → List RetentionRow
policies_of u rows = select_where (owned u) rows

abbrev pub invites_of : Text → InviteState → List InviteRow
invites_of u st = select_where (λ r. r.tenant_id === u) st.invites

module _ (t u : Text) (other : t ≢ u) where
  create_key-same :
      (input : NewApiKey) (now : ℕ) (rows : ApiKeys)
      → keys_of u (ApiKeys.create t input now rows).1 ≡ keys_of u rows
  unfolding ApiKeys.create
  create_key-same input now rows = ground (
    arith,
    other,
    text_eq_iff t u,
    select-append_other (λ (r : ApiKeyRow). r.tenant_id === u) rows (new_key t input now),
  )

  revoke_key-same :
      (id : Text) (now : ℕ) (rows : ApiKeys)
      → keys_of u (ApiKeys.revoke t id now rows).1 ≡ keys_of u rows
  unfolding ApiKeys.revoke
  revoke_key-same id now rows =
      select-update_other (λ (r : ApiKeyRow). r.tenant_id === u) (ApiKeys.is_unrevoked t id)
        (ApiKeys.set_revoked now) rows
        (λ r e. ground (arith, other, text_eq_iff r.tenant_id t, text_eq_iff r.tenant_id u))

  upsert_row-same :
      (input : RetentionInput) (now : ℕ) (rows : Policies)
      → policies_of u (upsert_row t input now rows).1 ≡ policies_of u rows
  unfolding upsert_row
  upsert_row-same input now rows = ground (
    arith,
    other,
    text_eq_iff t u,
    select-append_other (owned u) rows (new_policy t input now),
    select-update_other (owned u) (owned t) (set_days input now) rows
        (λ r e. ground (arith, other, text_eq_iff r.tenant_id t, text_eq_iff r.tenant_id u)),
  )

  insert_invite-same :
      (input : NewInvite) (fresh : FreshInvite) (users : List UserRow) (st : InviteState)
      → invites_of u (insert_invite t input fresh users st).1 ≡ invites_of u st
  unfolding insert_invite Invites.create
  insert_invite-same input fresh users st = ground (
    arith,
    other,
    text_eq_iff t u,
    select-append_other (λ (r : InviteRow). r.tenant_id === u) st.invites
        (new_invite t input fresh.new_id fresh.created_at),
  )

  revoke_invite-same :
      (id : Text) (rows : Invites)
      → select_where (λ (r : InviteRow). r.tenant_id === u) (Invites.revoke t id rows).1
        ≡ select_where (λ r. r.tenant_id === u) rows
  unfolding Invites.revoke
  revoke_invite-same id rows =
      select-update_other (λ (r : InviteRow). r.tenant_id === u) (revocable t id)
        Invites.set_revoked rows
        (λ r e. ground (arith, other, text_eq_iff r.tenant_id t, text_eq_iff r.tenant_id u))

module _ (p : Ports) (ctx : TenantContext) (u : Text) (other : ctx.tenant_id ≢ u) where
  pub issue-same :
      (cmd : IssueApiKeyCommand) (tenants : Tenants) (material : KeyMaterial) (now : ℕ)
      (rows : ApiKeys)
      → keys_of u (ApiKeyService.issue p ctx cmd tenants material now rows).1 ≡ keys_of u rows
  unfolding ApiKeyService.issue assert_can known_tenant
  issue-same cmd tenants material now rows =
      elim (Option-cases (Tenants.find_by_id ctx.tenant_id tenants)) [
        | inl none_found ↦ ground (arith, none_found)
        | inr (tenant, found) ↦
            let input = new_api_key ctx cmd (mint_api_key p.sha256 tenant.public_id material) in
            ground (arith, found, create_key-same ctx.tenant_id u other input now rows)
      ]

  pub revoke-same :
      (id : Text) (now : ℕ) (rows : ApiKeys)
      → keys_of u (ApiKeyService.revoke ctx id now rows).1 ≡ keys_of u rows
  unfolding ApiKeyService.revoke
  revoke-same id now rows = ground (arith, revoke_key-same ctx.tenant_id u other id now rows)

  pub upsert-same :
      (cmd : UpsertRetentionCommand) (now : ℕ) (rows : Policies)
      → policies_of u (Retention.upsert ctx cmd now rows).1 ≡ policies_of u rows
  unfolding Retention.upsert
  upsert-same cmd now rows =
      ground (arith, upsert_row-same ctx.tenant_id u other (input_of ctx cmd) now rows)

  pub invite-same :
      (config : InviteConfig) (cmd : CreateInviteCommand) (tenants : Tenants) (users : List UserRow)
      (fresh : FreshInvite) (st : InviteState)
      → invites_of u (InviteService.create p config ctx cmd tenants users fresh st).1
        ≡ invites_of u st
  unfolding InviteService.create assert_can require_tenant check_cap check_secret announce
  invite-same config cmd tenants users fresh st =
      let input = new_invite_of p config ctx cmd fresh in
      ground (arith, insert_invite-same ctx.tenant_id u other input fresh users st)

  pub withdraw-same :
      (id : Text) (now : ℕ) (st : InviteState)
      → invites_of u (InviteService.revoke ctx id now st).1 ≡ invites_of u st
  unfolding InviteService.revoke after_revoke
  withdraw-same id now st = ground (arith, revoke_invite-same ctx.tenant_id u other id st.invites)
