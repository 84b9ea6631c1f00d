-- ===== src/Node/Sorted.antt =====
-- The sorted key bytes and the children of the two small nodes, basic_inode_4 and basic_inode_16
-- (art_internal_impl.hpp): loops over the arrays, and what a node maps.
pub mod Arrays
pub mod Entries
pub mod Scans
pub mod Changed
use unodb.Base.{
  ℕ, Option, none, some, zero, suc, ◌+◌, ◌-◌, ◌*◌, ◌≤◌, ◌<◌, ◌≡◌, ◌≢◌, update, if◌then◌else◌, ltb,
  leb, ◌==◌,
}

-- `for (i = pos + d; i > pos; --i) a[i] = a[i - 1]`
unfoldable pub shift_up : (ℕ → ℕ) → ℕ → ℕ → ℕ → ℕ
shift_up a pos zero = a
shift_up a pos (suc d) = shift_up (update a (pos + suc d) (a (pos + d))) pos d

-- `for (i = pos; i < pos + d; ++i) a[i] = a[i + 1]`
unfoldable pub shift_down : (ℕ → ℕ) → ℕ → ℕ → ℕ → ℕ
shift_down a pos zero = a
shift_down a pos (suc d) = shift_down (update a pos (a (suc pos))) (suc pos) d

-- `for (i = 0; i < d; ++i) dst[to + i] = src[from + i]`
unfoldable pub copy : (ℕ → ℕ) → (ℕ → ℕ) → ℕ → ℕ → ℕ → ℕ → ℕ
copy dst src to from zero = dst
copy dst src to from (suc d) = copy (update dst to (src from)) src (suc to) (suc from) d

-- An array with a new element at a place, or without the element of a place.
abbrev pub insert_at : (ℕ → ℕ) → ℕ → ℕ → ℕ → ℕ
insert_at a pos v j = if ltb j pos then a j else if j == pos then v else a (j - 1)

abbrev pub remove_at : (ℕ → ℕ) → ℕ → ℕ → ℕ
remove_at a pos j = if ltb j pos then a j else a (suc j)

-- Byte `b` leads to child `c`.
abbrev pub Entry : ℕ → (ℕ → ℕ) → (ℕ → ℕ) → ℕ → ℕ → Type 0
Entry n keys children b c = (i : ℕ) × (i < n) × (keys i ≡ b) × (children i ≡ c)

-- The first `n` key bytes ascend, and lead to children.
pub record IsKeyed (n : ℕ) (keys children : ℕ → ℕ) : Type 0 where
  pub sorted : (i j : ℕ) → i < j → j < n → keys i < keys j
  pub bytes : (i : ℕ) → i < n → keys i < 256
  pub present : (i : ℕ) → i < n → 0 < children i

-- The first index from `i` on, of the next `d`, whose key byte is at least `key_byte`.
unfoldable pub scan_up : (ℕ → ℕ) → ℕ → ℕ → ℕ → Option ℕ
scan_up keys key_byte zero i = none
scan_up keys key_byte (suc d) i =
    let rest = scan_up keys key_byte d (suc i) in if leb key_byte (keys i) then some i else rest

-- The last index below `n` whose key byte is at most `key_byte`.
unfoldable pub scan_down : (ℕ → ℕ) → ℕ → ℕ → Option ℕ
scan_down keys key_byte zero = none
scan_down keys key_byte (suc i) =
    let rest = scan_down keys key_byte i in if leb (keys i) key_byte then some i else rest
