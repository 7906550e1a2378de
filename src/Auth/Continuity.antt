-- ===== src/Auth/Continuity.antt =====
-- The refresh token that a login hands out serves for the next refresh.
use logalot.Auth.Rotation.{refresh_ok_iff}
use logalot.Domain.Credentials.{assemble_refresh_token}
use logalot.Domain.Email.{normalize_email}
use logalot.Users.Lookup.{find_credentials_by_id_of_email}
use logalot.Domain.Credentials.Laws.{IsField, parse-assemble_refresh_token}
use logalot.Auth.Refresh.{IsEntitled, IsAcceptable}
use logalot.Auth.Login.{IsAuthentic, login_token, login_accepts}
use logalot.Auth.{Fresh, LoginCommand, Principal, login, refresh, session}
use logalot.Tenants.{Tenant}
use logalot.Ports.{Directory, Ports, SessionTokens}
use logalot.Domain.Errors.{ok, is_ok}
use logalot.Base.{
  refl, some, true, [], Text, count_where, ◌===◌, ℕ, ◌≤◌, ◌≡◌, find_where_unique, text_eq_refl,
  ◌++◌, ◌≢◌, ◌∷◌, find_where-append_new, arith, ◌<◌, ◌&&◌, count_where-append, ◌+◌,
  count_where_mono, text_eq_iff, ◌*◌,
}
use logalot.Tenants
use logalot.RefreshTokens.{find_by_id, NewRefreshToken, Rows, has_id, RefreshTokenRow, new_row}

-- The primary keys of the registry and of the users.
pub record IsKeyed (dir : Directory) : Type 0 where
  pub tenants : (id : Text) → count_where (λ t. t.id === id) dir.tenants ≤ 1
  pub users : (id : Text) → count_where (λ u. u.id === id) dir.users.users ≤ 1

tenant_by_id :
    (dir : Directory) (slug : Text) (t : Tenant)
    → IsKeyed dir
    → Tenants.find_by_public_id slug dir.tenants ≡ some t
    → Tenants.find_by_id t.id dir.tenants ≡ some t
unfolding Tenants.find_by_public_id Tenants.find_by_id
tenant_by_id dir slug t keyed e =
    find_where_unique (λ r. r.public_id === slug) (λ r. r.id === t.id) dir.tenants t
      (keyed.tenants t.id) e (text_eq_refl t.id)

find_by_id-new :
    (t : Text) (input : NewRefreshToken) (new_id : Text) (rows : Rows)
    → count_where (has_id new_id) rows ≡ 0
    → find_by_id t new_id (rows ++ new_row t input new_id ∷ []) ≡ some (new_row t input new_id)
unfolding find_by_id
find_by_id-new t input new_id rows new =
    find_where-append_new (λ r. (r.tenant_id === t) && has_id new_id r) rows
      (new_row t input new_id)
      (omega (
        arith,
        new,
        count_where_mono (λ r. (r.tenant_id === t) && has_id new_id r) (has_id new_id) rows
            (λ r h. ground arith),
      ))
      (ground (arith, text_eq_refl t, text_eq_refl new_id))

still_new :
    (fresh next : Fresh) (rows : Rows) (row : RefreshTokenRow)
    → count_where (has_id next.new_id) rows ≡ 0
    → fresh.new_id ≢ next.new_id
    → row.id ≡ fresh.new_id
    → count_where (has_id next.new_id) (rows ++ row ∷ []) ≡ 0
unfolding count_where
still_new fresh next rows row new differ e =
    ground (
      arith,
      count_where-append (has_id next.new_id) rows (row ∷ []),
      text_eq_iff row.id next.new_id,
    )

-- The principal of an authentic login is entitled to refresh the token that it is given.
login-IsEntitled :
    (p : Ports) (ttl : ℕ) (cmd : LoginCommand) (dir : Directory) (fresh : Fresh) (who : Principal)
    → IsKeyed dir
    → IsAuthentic p cmd dir who
    → IsEntitled dir (new_row who.tenant_id (login_token p ttl who fresh) fresh.new_id) who
login-IsEntitled p ttl cmd dir fresh who keyed h = record {
  tenant =
      rw h.same_tenant
        (rw (tenant_by_id dir cmd.tenant_slug h.tenant keyed h.by_slug) h.tenant_is_active);
  account = h.account;
  credentials =
      rw (h.same_tenant, h.same_user)
        (find_credentials_by_id_of_email h.tenant.id (normalize_email p.nfc p.lower cmd.email)
          dir.users h.account h.by_email (keyed.users h.account.id));
  active = h.active;
  role = h.role;
  user = h.same_user;
}

-- The token of an authentic login is accepted by the next refresh, while it has not expired and the
-- registry and the users are as they were, with unique ids; the tenant id and the token id are not
-- empty and hold no '_', and the secret is not empty.
pub login_then_refresh :
    (p : Ports) (ttl : ℕ) (cmd : LoginCommand) (dir : Directory) (fresh next : Fresh) (rows : Rows)
    (who : Principal)
    → IsKeyed dir
    → IsAuthentic p cmd dir who
    → IsField who.tenant_id
    → IsField fresh.new_id
    → fresh.secret ≢ []
    → next.now < fresh.now + ttl * 1000
    → count_where (has_id fresh.new_id) rows ≡ 0
    → count_where (has_id next.new_id) rows ≡ 0
    → fresh.new_id ≢ next.new_id
    → (tokens : SessionTokens) × ((login p ttl cmd dir fresh rows).0 ≡ ok tokens)
      × (is_ok (refresh p ttl dir tokens.refresh_token next (login p ttl cmd dir fresh rows).1).0
          ≡ true)
login_then_refresh p ttl cmd dir fresh next rows who keyed h ft fi fs time new new' differ =
    let row = new_row who.tenant_id (login_token p ttl who fresh) fresh.new_id in
    let raw = assemble_refresh_token who.tenant_id fresh.new_id fresh.secret in
    let e = login_accepts p ttl cmd dir fresh rows who h new in
    let acceptable : IsAcceptable p dir raw next.now (rows ++ row ∷ [])
        (record { row = row; who = who }) =
      record {
        parsed = record {
          tenant_id = who.tenant_id;
          token_id = fresh.new_id;
          secret = fresh.secret;
        };
        presents = record {
          parses = parse-assemble_refresh_token who.tenant_id fresh.new_id fresh.secret ft fi fs;
          found = find_by_id-new who.tenant_id (login_token p ttl who fresh) fresh.new_id rows new;
          digest = refl;
        };
        tenant = refl;
        live = refl;
        unexpired = time;
        entitled = login-IsEntitled p ttl cmd dir fresh who keyed h;
      } in
    (
      session p who raw,
      cc e,
      rw e (
          (refresh_ok_iff p ttl dir raw next (rows ++ row ∷ [])).1 (
            (record { row = row; who = who }, acceptable),
            still_new fresh next rows row new' differ refl,
          )),
    )
