-- ===== src/SavedQueries/Names.antt =====
-- The names of saved queries through a history of commands.
use logalot.Base.{◌∷◌}
use logalot.Base.{refl, [], Text, List, ℕ}
use logalot.SavedQueries.{
  SavedQueries, SavedQueryPatch, CreateSavedQueryCommand, saved_queries, create, update, remove,
  new_query, input_of, patched,
}
use logalot.SavedQueries.Steps.{create_step, update_step, remove_step}
use logalot.Named.Unique.{IsUnique, insert-IsUnique, update-IsUnique, delete-IsUnique}
use logalot.Ports.{TenantContext}

-- A command, with the id and the time that the database takes.
pub data SavedQueryOp : Type 0 where
  create_op : CreateSavedQueryCommand → Text → ℕ → SavedQueryOp
  update_op : Text → SavedQueryPatch → ℕ → SavedQueryOp
  remove_op : Text → SavedQueryOp

unfoldable pub apply : TenantContext → SavedQueryOp → SavedQueries → SavedQueries
apply ctx (create_op cmd new_id now) rows = (create ctx cmd new_id now rows).1
apply ctx (update_op id patch now) rows = (update ctx id patch now rows).1
apply ctx (remove_op id) rows = (remove ctx id rows).1

unfoldable pub run : List (TenantContext × SavedQueryOp) → SavedQueries → SavedQueries
run [] rows = rows
run ((ctx, op) ∷ ops) rows = run ops (apply ctx op rows)

apply-IsUnique :
    (ctx : TenantContext) (op : SavedQueryOp) (rows : SavedQueries)
    → IsUnique saved_queries rows
    → IsUnique saved_queries (apply ctx op rows)
unfolding apply
apply-IsUnique ctx (create_op cmd new_id now) rows h =
    create_step (IsUnique saved_queries) ctx rows h cmd new_id now
      (insert-IsUnique saved_queries (new_query ctx.tenant_id (input_of ctx cmd) new_id now) rows h)
apply-IsUnique ctx (update_op id patch now) rows h =
    update_step (IsUnique saved_queries) ctx rows h id patch now
      (update-IsUnique saved_queries (patched patch now) (λ r. refl) ctx.tenant_id id rows h)
apply-IsUnique ctx (remove_op id) rows h =
    remove_step (IsUnique saved_queries) ctx rows h id
      (delete-IsUnique saved_queries ctx.tenant_id id rows h)

-- Through any history of commands of any tenants, no tenant has two saved queries of one name, and no
-- two saved queries have one id.
pub run_queries-IsUnique :
    (ops : List (TenantContext × SavedQueryOp)) (rows : SavedQueries)
    → IsUnique saved_queries rows
    → IsUnique saved_queries (run ops rows)
unfolding run
run_queries-IsUnique [] rows h = h
run_queries-IsUnique ((ctx, op) ∷ ops) rows h =
    run_queries-IsUnique ops (apply ctx op rows) (apply-IsUnique ctx op rows h)
