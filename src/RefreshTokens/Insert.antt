-- ===== src/RefreshTokens/Insert.antt =====
-- The two outcomes of the INSERT of a refresh token.
use logalot.Domain.Errors.{ok, err, pg_error}
use logalot.Base.{[], Text, count_where, ◌≡◌, ◌≢◌, ◌++◌, arith, ◌∷◌}
use logalot.RefreshTokens.{create, NewRefreshToken, Rows, has_id, new_row}

pub create_new :
    (t : Text) (input : NewRefreshToken) (new_id : Text) (rows : Rows)
    → count_where (has_id new_id) rows ≡ 0
    → create t input new_id rows ≡ (ok new_id, rows ++ new_row t input new_id ∷ [])
unfolding create
create_new t input new_id rows h = ground arith

pub create_taken :
    (t : Text) (input : NewRefreshToken) (new_id : Text) (rows : Rows)
    → count_where (has_id new_id) rows ≢ 0
    → create t input new_id rows ≡ (err (pg_error 23505), rows)
unfolding create
create_taken t input new_id rows h = ground arith
