-- ===== src/SavedQueries/Steps.antt =====
-- What a command on saved queries comes to: one statement, if it gets that far.
use logalot.Domain.Errors.{Result}
use logalot.Base.{Text, ℕ, if_both, Option}
use logalot.SavedQueries.{
  SavedQueries, SavedQuery, SavedQueryPatch, CreateSavedQueryCommand, saved_queries, insert,
  update_query, create, update, remove, new_query, input_of, patched, create_query, patch_query,
  remove_query, found_query, sets_nothing,
}
use logalot.Named.{insert_row, update_row, delete_row}
use logalot.Domain.Action.Laws.{bind-invariant, check-invariant}
use logalot.Domain.Action.{lift, ◌>>=◌}
use logalot.Ports.{TenantContext}
use logalot.Authorize.{assert_can}
use logalot.Domain.Rbac.{Operation}

module _ (P : SavedQueries → Type 0) (ctx : TenantContext) (rows : SavedQueries)
    (kept : P rows) where
  pub create_step :
      (cmd : CreateSavedQueryCommand) (new_id : Text) (now : ℕ)
      → P (insert_row saved_queries (new_query ctx.tenant_id (input_of ctx cmd) new_id now) rows).1
      → P (create ctx cmd new_id now rows).1
  unfolding create insert
  create_step cmd new_id now done =
      check-invariant P (assert_can ctx Operation.savedquery_create)
        (create_query ctx cmd new_id now) rows kept done

  patch_step :
      (id : Text) (patch : SavedQueryPatch) (now : ℕ)
      → P (update_row saved_queries ctx.tenant_id id (patched patch now) rows).1
      → P (update_query ctx.tenant_id id patch now rows).1
  unfolding update_query
  patch_step id patch now done =
      if_both (λ (o : Result (Option SavedQuery) × SavedQueries). P o.1) (sets_nothing patch) _ _
        kept done

  pub update_step :
      (id : Text) (patch : SavedQueryPatch) (now : ℕ)
      → P (update_row saved_queries ctx.tenant_id id (patched patch now) rows).1
      → P (update ctx id patch now rows).1
  unfolding update
  update_step id patch now done =
      check-invariant P (assert_can ctx Operation.savedquery_update)
        (patch_query ctx id patch now >>= λ updated. lift (found_query updated)) rows kept
        (bind-invariant P (patch_query ctx id patch now) (λ updated. lift (found_query updated))
          rows (patch_step id patch now done) (λ a s v. v))

  pub remove_step :
      (id : Text) → P (delete_row saved_queries ctx.tenant_id id rows).1 → P (remove ctx id rows).1
  unfolding remove
  remove_step id done =
      check-invariant P (assert_can ctx Operation.savedquery_delete) (remove_query ctx id) rows kept
        done
