-- ===== src/OAuthIdentities/Pinned.antt =====
-- What a link stands for: one Google account is one user of the tenant, and the other way round.
use logalot.OAuthIdentities.{
  Identities, link_first, touch_last_login, NewOAuthIdentity, find_by_provider_sub, has_sub,
  has_user, OAuthIdentityRef, takes_unique, set_last_login, new_identity,
}
use logalot.Base.{
  [], refl, some, inl, inr, Text, count_where, ℕ, ◌≤◌, arith, count-update_same, ◌≡◌, text_eq_iff,
  ◌===◌, text_eq_refl, Option-cases, count_where_mono, ◌&&◌, find_where, count_where-found,
  count_where-append, find_where-append_new, find_where_sound, ◌∷◌, true,
}
use logalot.Domain.Errors.{ok, err, Error, is_conflict}

pub record IsPinned (rows : Identities) : Type 0 where
  pub one_user : (t sub : Text) → count_where (has_sub t sub) rows ≤ 1
  pub one_sub : (t user : Text) → count_where (has_user t user) rows ≤ 1

link_first-one_user :
    (t : Text) (input : NewOAuthIdentity) (new_id : Text) (rows : Identities) (u sub : Text)
    → count_where (has_sub u sub) rows ≤ 1
    → count_where (has_sub u sub) (link_first t input new_id rows).1 ≤ 1
unfolding link_first count_where
link_first-one_user t input new_id rows u sub h = ground (
  arith,
  text_eq_iff t u,
  text_eq_iff input.provider_sub sub,
  count_where_mono (has_sub t input.provider_sub) (takes_unique t input new_id) rows
      (λ r e. ground arith),
  count_where-append (has_sub u sub) rows (new_identity t input new_id ∷ []),
)

link_first-one_sub :
    (t : Text) (input : NewOAuthIdentity) (new_id : Text) (rows : Identities) (u user : Text)
    → count_where (has_user u user) rows ≤ 1
    → count_where (has_user u user) (link_first t input new_id rows).1 ≤ 1
unfolding link_first count_where
link_first-one_sub t input new_id rows u user h = ground (
  arith,
  text_eq_iff t u,
  text_eq_iff input.user_id user,
  count_where_mono (has_user t input.user_id) (takes_unique t input new_id) rows
      (λ r e. ground arith),
  count_where-append (has_user u user) rows (new_identity t input new_id ∷ []),
)

-- A link, and the note of a login, keep the links one to one: no Google account is linked to two
-- users of a tenant, and no user to two accounts.
pub link_first-IsPinned :
    (t : Text) (input : NewOAuthIdentity) (new_id id : Text) (now : ℕ) (rows : Identities)
    → IsPinned rows
    → IsPinned (link_first t input new_id rows).1 × IsPinned (touch_last_login t id now rows)
unfolding touch_last_login
link_first-IsPinned t input new_id id now rows h = (
  record {
    one_user = λ u sub. link_first-one_user t input new_id rows u sub (h.one_user u sub);
    one_sub = λ u user. link_first-one_sub t input new_id rows u user (h.one_sub u user);
  },
  record {
    one_user = λ u sub.
        rw
          (count-update_same (has_sub u sub) (λ r. (r.tenant_id === t) && (r.id === id))
            (set_last_login now) rows (λ r e. refl))
          (h.one_user u sub);
    one_sub = λ u user.
        rw
          (count-update_same (has_user u user) (λ r. (r.tenant_id === t) && (r.id === id))
            (set_last_login now) rows (λ r e. refl))
          (h.one_sub u user);
  },
)

-- The account that a link answers with is the one that the sub resolves to afterwards.
pub link_first-resolves :
    (t : Text) (input : NewOAuthIdentity) (new_id : Text) (rows : Identities)
    (ref : OAuthIdentityRef)
    → (link_first t input new_id rows).0 ≡ ok ref
    → find_by_provider_sub t input.provider_sub (link_first t input new_id rows).1 ≡ some ref
unfolding link_first find_by_provider_sub
link_first-resolves t input new_id rows ref e = ground (
  arith,
  text_eq_refl t,
  text_eq_refl input.provider_sub,
  count_where_mono (has_sub t input.provider_sub) (takes_unique t input new_id) rows
      (λ r h. ground arith),
  find_where-append_new (has_sub t input.provider_sub) rows (new_identity t input new_id),
)

linked :
    (t : Text) (input : NewOAuthIdentity) (new_id : Text) (rows : Identities)
    (ref : OAuthIdentityRef)
    → find_by_provider_sub t input.provider_sub rows ≡ some ref
    → link_first t input new_id rows ≡ (ok ref, rows)
unfolding link_first find_by_provider_sub
linked t input new_id rows ref e =
    elim (Option-cases (find_where (has_sub t input.provider_sub) rows)) [
      | inl n ↦ ground (arith, n)
      | inr (r, f) ↦ ground (
        arith,
        f,
        count_where-found (has_sub t input.provider_sub) (takes_unique t input new_id) rows r f,
        find_where_sound (has_sub t input.provider_sub) rows r f,
      )
    ]

-- Concurrent first links of one Google account converge: once one has succeeded, each later link of
-- that account in the tenant, for whatever user, answers with the same link and writes nothing.
pub link_first_converges :
    (t : Text) (input later : NewOAuthIdentity) (new_id next_id : Text) (rows : Identities)
    (ref : OAuthIdentityRef)
    → (link_first t input new_id rows).0 ≡ ok ref
    → later.provider_sub ≡ input.provider_sub
    → link_first t later next_id (link_first t input new_id rows).1
      ≡ (ok ref, (link_first t input new_id rows).1)
link_first_converges t input later new_id next_id rows ref e same =
    linked t later next_id (link_first t input new_id rows).1 ref
      (rw same (link_first-resolves t input new_id rows ref e))

-- A link fails with a conflict only.
pub link_first_conflict :
    (t : Text) (input : NewOAuthIdentity) (new_id : Text) (rows : Identities) (e : Error)
    → (link_first t input new_id rows).0 ≡ err e
    → is_conflict e ≡ true
unfolding link_first
link_first_conflict t input new_id rows e h = ground arith
