-- ===== src/Node.antt =====
-- The internal nodes of the tree (art_internal_impl.hpp). A node pointer is its tagged word, and 0
-- is `nullptr`; `node_type::LEAF` is tag 0, so that a leaf's pointer is its address.
pub mod Simd
pub mod Sorted
pub mod Spec
pub mod KeyPrefix
pub mod Pointer
pub mod Inode4
pub mod Inode16
pub mod Bytes
pub mod Slots
pub mod Inode48
pub mod Inode256
pub mod Grow
pub mod Shrink
pub mod Split
pub mod Inode
use unodb.Base.{ℕ, List, get_or, Option, none, some}

abbrev pub nullptr : ℕ
nullptr = 0

-- A leaf that the caller owns: its address and its key.
pub record Leaf : Type 0 where
  pub address : ℕ
  pub key_view : List ℕ

-- `child->get_key_view()[depth]`
abbrev pub key_byte_at : Leaf → ℕ → ℕ
key_byte_at child depth = get_or child.key_view depth 0

-- A position on a child of a node; the pointer to the node itself is left out.
pub record IterResult : Type 0 where
  pub key_byte : ℕ
  pub child_index : ℕ
  pub prefix : ℕ

-- The result for an index that a loop found, or `end_result`.
abbrev pub found : (ℕ → IterResult) → Option ℕ → Option IterResult
found at none = none
found at (some i) = some (at i)
