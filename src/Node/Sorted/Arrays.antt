-- ===== src/Node/Sorted/Arrays.antt =====
-- The loops over an array, an element at a time.
use unodb.Base.{ℕ, zero, suc, ◌+◌, ◌-◌, ◌≤◌, ◌<◌, ◌≡◌, update, if◌then◌else◌, ltb, leb, arith}
use unodb.Node.Sorted.{shift_up, shift_down, copy, insert_at, remove_at}

shift_up-get :
    (a : ℕ → ℕ) (pos d j : ℕ)
    → shift_up a pos d j ≡ (if leb j pos then a j else if leb j (pos + d) then a (j - 1) else a j)
unfolding shift_up
shift_up-get a pos zero j = ground arith
shift_up-get a pos (suc d) j =
    ground (arith, shift_up-get (update a (pos + suc d) (a (pos + d))) pos d j)

-- Making room and storing is an insertion.
pub shift_up-insert_at :
    (a : ℕ → ℕ) (pos d v j : ℕ)
    → j ≤ pos + d
    → update (shift_up a pos d) pos v j ≡ insert_at a pos v j
shift_up-insert_at a pos d v j h = ground (arith, shift_up-get a pos d j)

shift_down-get :
    (a : ℕ → ℕ) (pos d j : ℕ)
    → shift_down a pos d j ≡ (if ltb j pos then a j else if ltb j (pos + d) then a (suc j) else a j)
unfolding shift_down
shift_down-get a pos zero j = ground arith
shift_down-get a pos (suc d) j =
    ground (arith, shift_down-get (update a pos (a (suc pos))) (suc pos) d j)

-- Moving the later elements down is a removal.
pub shift_down-remove_at :
    (a : ℕ → ℕ) (pos d j : ℕ) → j < pos + d → shift_down a pos d j ≡ remove_at a pos j
shift_down-remove_at a pos d j h = ground (arith, shift_down-get a pos d j)

pub copy-get :
    (dst src : ℕ → ℕ) (to from d j : ℕ)
    → copy dst src to from d j
      ≡ (if ltb j to then dst j else if ltb j (to + d) then src (j - to + from) else dst j)
unfolding copy
copy-get dst src to from zero j = ground arith
copy-get dst src to from (suc d) j =
    ground (arith, copy-get (update dst to (src from)) src (suc to) (suc from) d j)

-- Copying what stands before a place, an element, and what stands from the place on.
pub copy-insert_at :
    (dst src : ℕ → ℕ) (pos d v j : ℕ)
    → j < suc (pos + d)
    → copy (update (copy dst src 0 0 pos) pos v) src (suc pos) pos d j ≡ insert_at src pos v j
copy-insert_at dst src pos d v j h = ground (
  arith,
  copy-get (update (copy dst src 0 0 pos) pos v) src (suc pos) pos d j,
  copy-get dst src 0 0 pos j,
)

-- Copying what stands before a place and behind it.
pub copy-remove_at :
    (dst src : ℕ → ℕ) (pos d j : ℕ)
    → j < pos + d
    → copy (copy dst src 0 0 pos) src pos (suc pos) d j ≡ remove_at src pos j
copy-remove_at dst src pos d j h =
    ground
      (arith, copy-get (copy dst src 0 0 pos) src pos (suc pos) d j, copy-get dst src 0 0 pos j)
