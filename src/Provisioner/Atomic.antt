-- ===== src/Provisioner/Atomic.antt =====
-- All of the provisioning, or none of it.
use logalot.OAuthIdentities.Pinned.{link_first-resolves, link_first_conflict}
use logalot.Domain.Roles.{role_of_membership}
use logalot.Users.Insert.{
  grown, insert_user_taken, insert_user_new, new_membership, find_credentials_by_id-inserted,
}
use logalot.Users.{
  User, Users, find_credentials_by_id, violates_unique, active_status, to_user, inserted,
}
use logalot.OAuthIdentities.{Identities, OAuthIdentityRef, find_by_provider_sub, link_first}
use logalot.Provisioner.{
  InviteProvisionInput, NewRows, Tables, redemption, provision_consumed, link_user, new_user,
  disabled_password, translate_role, new_link, settle, provision_from_invite, provision_body,
}
use logalot.Invites.{
  consume, Redemption, Invites, InviteRow, redeemable, ConsumedInvite, consumed_row, set_consumed,
}
use logalot.Base.{
  [], none, some, false, inl, inr, Text, find_where, ◌≡◌, update_where, ◌⊎◌, Bool-cases, ◌===◌,
  text_eq_iff, refl, true, arith, Option, ◌++◌, Bool, ◌∷◌, Option-cases,
}
use logalot.Domain.Errors.{ok, err, Result-cases, Result, is_conflict}

-- The invite is consumed, the user exists with the invite's role and a password that is no hash, and
-- the Google account is linked to the user.
pub record IsProvisioned (t : Text) (input : InviteProvisionInput) (made : NewRows)
    (before after : Tables) : Type 0 where
  pub invite : InviteRow
  pub redeemed : find_where (redeemable t (redemption input)) before.invites ≡ some invite
  pub invites :
      after.invites
      ≡ update_where (redeemable t (redemption input)) (set_consumed input.now) before.invites
  pub account :
      find_credentials_by_id t made.user_id after.users
      ≡ some (record {
        id = made.user_id;
        password_hash = disabled_password;
        status = active_status;
        role = some (role_of_membership (translate_role invite.role));
      })
  pub link : OAuthIdentityRef
  pub linked : find_by_provider_sub t input.provider_sub after.identities ≡ some link
  pub same_user : link.user_id ≡ made.user_id

pub consume_found :
    (t : Text) (input : Redemption) (rows : Invites) (row : InviteRow)
    → find_where (redeemable t input) rows ≡ some row
    → consume t input rows ≡ (
      some (consumed_row input.now row),
      update_where (redeemable t input) (set_consumed input.now) rows,
    )
unfolding consume
consume_found t input rows row e = rw (consume, e)

consume_missing :
    (t : Text) (input : Redemption) (rows : Invites)
    → find_where (redeemable t input) rows ≡ none
    → consume t input rows ≡ (none, rows)
unfolding consume
consume_missing t input rows e = rw (consume, e)

abbrev conflicts : Result (Option Text) → Bool
conflicts (ok _) = false
conflicts (err e) = is_conflict e

-- Linking the user that was just created: it works out, or the transaction fails with a conflict.
link_user-cases :
    (t : Text) (input : InviteProvisionInput) (made : NewRows) (invites : Invites)
    (identities : Identities) (user : User) (users : Users)
    → let end = link_user t input made invites identities (ok user, users) in
      ((link : OAuthIdentityRef) × (end.0 ≡ ok (some user.id))
        × (find_by_provider_sub t input.provider_sub end.1.identities ≡ some link)
        × (link.user_id ≡ user.id))
      ⊎ (conflicts end.0 ≡ true)
link_user-cases t input made invites identities user users =
    elim (Result-cases (link_first t (new_link input user) made.identity_id identities).0) [
      | inl (link, e) ↦ elim (Bool-cases (link.user_id === user.id)) [
        | inl same ↦ inl (
          link,
          ground arith,
          link_first-resolves t (new_link input user) made.identity_id identities link e,
          (text_eq_iff link.user_id user.id).0 same,
        )
        | inr other ↦ inr (ground arith)
      ]
      | inr (x, e) ↦ inr (
          ground
            (arith, link_first_conflict t (new_link input user) made.identity_id identities x e))
    ]

-- The rest of the transaction, once the invite is consumed.
consumed-cases :
    (t : Text) (input : InviteProvisionInput) (made : NewRows) (db : Tables) (invites : Invites)
    (consumed : ConsumedInvite)
    → let end = provision_consumed t input made db (some consumed, invites) in
      ((link : OAuthIdentityRef) × (end.0 ≡ ok (some made.user_id))
        × (end.1.invites ≡ invites)
        × (end.1.users ≡ grown t (new_user input consumed) made.user_id made.created_at db.users)
        × (violates_unique t (new_user input consumed) made.user_id db.users ≡ false)
        × (find_by_provider_sub t input.provider_sub end.1.identities ≡ some link)
        × (link.user_id ≡ made.user_id))
      ⊎ (conflicts end.0 ≡ true)
unfolding to_user
consumed-cases t input made db invites consumed =
    let given = new_user input consumed in
    elim (Bool-cases (violates_unique t given made.user_id db.users)) [
      | inl taken ↦
          inr
            (ground (arith, insert_user_taken t given made.user_id made.created_at db.users taken))
      | inr new ↦
          let ms = db.users.memberships ++ new_membership t given made.user_id ∷ [] in
          let user = to_user ms (inserted t given made.user_id made.created_at) in
          let users = grown t given made.user_id made.created_at db.users in
          let outcome = link_user-cases t input made invites db.identities user users in
          rw (insert_user_new t given made.user_id made.created_at db.users new) (elim outcome [
            | inl (link, answer, linked, same) ↦ inl (link, answer, refl, refl, new, linked, same)
            | inr failed ↦ inr failed
          ])
    ]

settle_ok :
    (before : Tables) (end : Result (Option Text) × Tables) (o : Option Text)
    → end.0 ≡ ok o
    → (settle before end).0 ≡ ok o
settle_ok before end o e = ground arith

settle_keeps :
    (before : Tables) (end : Result (Option Text) × Tables) (o : Option Text)
    → end.0 ≡ ok o
    → (settle before end).1 ≡ end.1
settle_keeps before end o e = ground arith

settle_conflict :
    (before : Tables) (end : Result (Option Text) × Tables)
    → conflicts end.0 ≡ true
    → ((settle before end).0 ≡ ok none) × ((settle before end).1 ≡ before)
settle_conflict before end e = ground arith

provision_consumed-settles :
    (t : Text) (input : InviteProvisionInput) (made : NewRows) (db : Tables) (invite : InviteRow)
    → find_where (redeemable t (redemption input)) db.invites ≡ some invite
    → let end = settle db (
        provision_consumed t input made db (
          some (consumed_row input.now invite),
          update_where (redeemable t (redemption input)) (set_consumed input.now) db.invites,
        )) in
      ((end.0 ≡ ok (some made.user_id)) × IsProvisioned t input made db end.1)
      ⊎ ((end.0 ≡ ok none) × (end.1 ≡ db))
provision_consumed-settles t input made db invite e =
    let consumed = consumed_row input.now invite in
    let invites =
      update_where (redeemable t (redemption input)) (set_consumed input.now) db.invites in
    let given = new_user input consumed in
    let end = provision_consumed t input made db (some consumed, invites) in
    elim (consumed-cases t input made db invites consumed) [
      | inl (link, answer, same_invites, same_users, new, linked, same) ↦ inl (
        settle_ok db end (some made.user_id) answer,
        rw (settle_keeps db end (some made.user_id) answer) (record {
          invite = invite;
          redeemed = e;
          invites = same_invites;
          account =
              rw same_users
                (find_credentials_by_id-inserted t given made.user_id made.created_at db.users new);
          link = link;
          linked = linked;
          same_user = same;
        }),
      )
      | inr failed ↦ inr (settle_conflict db end failed)
    ]

-- Provisioning from an invite is all or nothing, and never throws. Either it answers with the new
-- user, and then the invite was pending, unexpired and for this email and token, and is consumed,
-- the user has an active account with the role of the invite and a password that is no hash, and
-- the Google account resolves to that user; or it answers null, and no table has changed.
pub provision_all_or_nothing :
    (t : Text) (input : InviteProvisionInput) (made : NewRows) (db : Tables)
    → let end = provision_from_invite t input made db in
      ((end.0 ≡ ok (some made.user_id)) × IsProvisioned t input made db end.1)
      ⊎ ((end.0 ≡ ok none) × (end.1 ≡ db))
unfolding provision_from_invite provision_body
provision_all_or_nothing t input made db =
    elim (Option-cases (find_where (redeemable t (redemption input)) db.invites)) [
      | inl e ↦ rw (consume_missing t (redemption input) db.invites e) (inr (refl, refl))
      | inr (invite, e) ↦
          rw (consume_found t (redemption input) db.invites invite e)
            (provision_consumed-settles t input made db invite e)
    ]
