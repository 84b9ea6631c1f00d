-- ===== src/Node/Grow/Filled.antt =====
-- The loops that fill the unused places of an array with `nullptr`.
use unodb.Base.{zero, suc, ℕ, ◌+◌, ◌≡◌, ltb, if◌then◌else◌, update, arith}
use unodb.Node.Grow.{fill_null}

pub fill_null-get :
    (a : ℕ → ℕ) (from d j : ℕ)
    → fill_null a from d j ≡ (if ltb j from then a j else if ltb j (from + d) then 0 else a j)
unfolding fill_null
fill_null-get a from zero j = ground arith
fill_null-get a from (suc d) j = ground (arith, fill_null-get (update a from 0) (suc from) d j)
