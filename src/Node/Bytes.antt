-- ===== src/Node/Bytes.antt =====
-- The loops over the 256 byte values of the two large nodes, basic_inode_48 and basic_inode_256
-- (art_internal_impl.hpp).
pub mod Laws
use unodb.Base.{ℕ, zero, suc, ◌+◌, Option, none, some, Bool, if◌then◌else◌}

-- The first byte from `i` on, of the next `d`, that is mapped.
unfoldable pub first_mapped : (ℕ → Bool) → ℕ → ℕ → Option ℕ
first_mapped mapped zero i = none
first_mapped mapped (suc d) i =
    let rest = first_mapped mapped d (suc i) in if mapped i then some i else rest

-- The last byte below `n` that is mapped.
unfoldable pub last_mapped : (ℕ → Bool) → ℕ → Option ℕ
last_mapped mapped zero = none
last_mapped mapped (suc i) = let rest = last_mapped mapped i in if mapped i then some i else rest
