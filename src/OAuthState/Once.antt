-- ===== src/OAuthState/Once.antt =====
-- A state is good for one callback.
use logalot.OAuthState.{put, consume, OAuthStateRecord, StateStore, is_for}
use logalot.Base.{
  [], refl, inl, inr, if◌then◌else◌, Text, count_where, ℕ, List, delete_where, ◌===◌, ◌∷◌, ◌+◌, ◌≤◌,
  ◌&&◌, ◌≡◌, arith, Option-cases, not, count_where-append, find_where, is_none, ◌*◌, text_eq_iff,
  count_where-found, find_where_sound,
}

pub data StateOp : Type 0 where
  put_op : OAuthStateRecord → ℕ → ℕ → StateOp
  consume_op : Text → ℕ → StateOp

unfoldable pub apply : StateOp → StateStore → StateStore
apply (put_op value ttl_seconds now) store = put value ttl_seconds now store
apply (consume_op state now) store = (consume state now store).1

-- How often a history yields the record of the state.
abbrev pub yields : Text → StateOp → StateStore → ℕ
yields state (put_op _ _ _) store = 0
yields state (consume_op asked now) store =
    if (asked === state) && not (is_none (consume asked now store).0) then 1 else 0

abbrev pub total_yields : Text → List StateOp → StateStore → ℕ
total_yields state [] store = 0
total_yields state (op ∷ ops) store =
    yields state op store + total_yields state ops (apply op store)

-- How often a history puts the state.
abbrev pub puts : Text → List StateOp → ℕ
puts state [] = 0
puts state (put_op value _ _ ∷ ops) = (if value.state === state then 1 else 0) + puts state ops
puts state (consume_op _ _ ∷ ops) = puts state ops

-- No entry with the state is left by the deletion of it.
pub deleted :
    (state : Text) (store : StateStore)
    → count_where (is_for state) (delete_where (is_for state) store) ≡ 0
unfolding count_where delete_where
deleted state [] = refl
deleted state (e ∷ store) = ground (arith, deleted state store)

deleted_le :
    (state other : Text) (store : StateStore)
    → count_where (is_for state) (delete_where (is_for other) store)
      ≤ count_where (is_for state) store
unfolding count_where delete_where
deleted_le state other [] = omega arith
deleted_le state other (e ∷ store) = ground (arith, deleted_le state other store)

put_le :
    (state : Text) (value : OAuthStateRecord) (ttl now : ℕ) (store : StateStore)
    → count_where (is_for state) (put value ttl now store)
      ≤ count_where (is_for state) store + (if value.state === state then 1 else 0)
unfolding put count_where
put_le state value ttl now store = ground (
  arith,
  deleted_le state value.state store,
  count_where-append (is_for state) (delete_where (is_for value.state) store)
      (record { value = value; expires_at = now + ttl * 1000 } ∷ []),
)

consume_le :
    (state asked : Text) (now : ℕ) (store : StateStore)
    → yields state (consume_op asked now) store
        + count_where (is_for state) (consume asked now store).1
      ≤ count_where (is_for state) store
unfolding consume
consume_le state asked now store = elim (Option-cases (find_where (is_for asked) store)) [
  | inl e ↦ ground (arith, e, deleted_le state asked store)
  | inr (entry, e) ↦ ground (
    arith,
    text_eq_iff asked state,
    deleted_le state asked store,
    deleted asked store,
    count_where-found (is_for asked) (is_for asked) store entry e
        (find_where_sound (is_for asked) store entry e),
  )
]

-- In every history of the store, a state is consumed with success no more often than it is put, plus
-- once for each entry of it that is there at the beginning.
pub total_yields-le-puts :
    (state : Text) (ops : List StateOp) (store : StateStore)
    → total_yields state ops store ≤ puts state ops + count_where (is_for state) store
unfolding apply
total_yields-le-puts state [] store = omega arith
total_yields-le-puts state (put_op value ttl now ∷ ops) store = omega (
  arith,
  put_le state value ttl now store,
  total_yields-le-puts state ops (put value ttl now store),
)
total_yields-le-puts state (consume_op asked now ∷ ops) store = omega (
  arith,
  consume_le state asked now store,
  total_yields-le-puts state ops (consume asked now store).1,
)
