-- ===== src/Provisioner/Accepts.antt =====
-- When the provisioning from an invite succeeds.
use logalot.Users.Insert.{insert_user_new}
use logalot.Provisioner.Atomic.{consume_found}
use logalot.Invites.{InviteRow, redeemable, consumed_row}
use logalot.Users.{to_user, violates_unique}
use logalot.Provisioner.{
  provision_from_invite, provision_body, InviteProvisionInput, NewRows, Tables, redemption,
  new_user,
}
use logalot.OAuthIdentities.{
  takes_unique, link_first, NewOAuthIdentity, Identities, to_ref, new_identity,
}
use logalot.Base.{some, false, Text, count_where, ◌≡◌, find_where, arith, text_eq_refl}
use logalot.Domain.Errors.{ok}

link_first_new :
    (t : Text) (input : NewOAuthIdentity) (new_id : Text) (rows : Identities)
    → count_where (takes_unique t input new_id) rows ≡ 0
    → (link_first t input new_id rows).0 ≡ ok (to_ref (new_identity t input new_id))
unfolding link_first
link_first_new t input new_id rows h = ground arith

-- A redeemable invite whose email and new user id are free, and whose Google account, new user and
-- identity id have no link, provisions the user.
pub provision_accepts :
    (t : Text) (input : InviteProvisionInput) (made : NewRows) (db : Tables) (invite : InviteRow)
    → find_where (redeemable t (redemption input)) db.invites ≡ some invite
    → violates_unique t (new_user input (consumed_row input.now invite)) made.user_id db.users
      ≡ false
    → count_where
        (takes_unique t
          (record {
            user_id = made.user_id;
            provider_sub = input.provider_sub;
            email = input.email;
          })
          made.identity_id)
        db.identities
      ≡ 0
    → (provision_from_invite t input made db).0 ≡ ok (some made.user_id)
unfolding provision_from_invite provision_body to_user
provision_accepts t input made db invite e new free =
    let link : NewOAuthIdentity = record {
      user_id = made.user_id;
      provider_sub = input.provider_sub;
      email = input.email;
    } in
    let given = new_user input (consumed_row input.now invite) in
    rw
      (
        consume_found t (redemption input) db.invites invite e,
        insert_user_new t given made.user_id made.created_at db.users new,
        link_first_new t link made.identity_id db.identities free,
      )
      (ground (arith, text_eq_refl made.user_id))
