-- ===== src/Node/Split.antt =====
-- Splitting the key prefix of a node under a new node of four, and giving it back when one child
-- is left (`init` and `leave_last_child` of basic_inode_4, art_internal_impl.hpp). The word of the
-- key prefix of the other node is an argument and a result.
pub mod Laws
use unodb.Base.{ℕ, suc, List, get_or, ◌+◌, if◌then◌else◌, ◌==◌}
use unodb.Node.{Leaf, key_byte_at}
use unodb.Node.Pointer.{NodeType, leaf, tag_of, type}
use unodb.Node.KeyPrefix
use unodb.Node.KeyPrefix.{byte_at, length, cut, prepend, get_u64, make_u64}
use unodb.Node.Inode4
use unodb.Node.Inode4.{Inode4, add_two_to_empty}

unfoldable pub init_split : Inode4 → ℕ → ℕ → ℕ → ℕ → Leaf → Inode4 × ℕ
init_split raw source_node source_key_prefix shared_prefix_len depth child1 =
    let this = record raw {
      key_prefix = KeyPrefix.take shared_prefix_len source_key_prefix;
      children_count = Inode4.min_size;
    } in
    let diff_key_byte_i = depth + shared_prefix_len in
    let source_node_key_byte = byte_at source_key_prefix shared_prefix_len in
    (
      add_two_to_empty this source_node_key_byte source_node (key_byte_at child1 diff_key_byte_i)
          child1.address,
      cut source_key_prefix (shared_prefix_len + 1),
    )

-- The child that is left, the word of its key prefix, which a leaf does not have, and the address
-- of the leaf that is reclaimed.
unfoldable pub leave_last_child : Inode4 → ℕ → ℕ → ℕ × ℕ × ℕ
leave_last_child x child_to_delete key_prefix =
    let child_to_leave = if child_to_delete == 0 then 1 else 0 in
    let child_to_leave_ptr = x.children child_to_leave in
    (
      child_to_leave_ptr,
      if type child_to_leave_ptr == tag_of leaf
          then key_prefix
          else prepend key_prefix x.key_prefix (x.keys child_to_leave),
      x.children child_to_delete,
    )

-- `init` from two leaves, with the constructor's key prefix: the keys differ behind it. `shifted_k2`
-- is the other key from the depth on.
unfoldable pub init_leaves : Inode4 → List ℕ → List ℕ → ℕ → ℕ → ℕ → Inode4
init_leaves raw k1 shifted_k2 depth child1 child2 =
    let this = record raw {
      key_prefix = make_u64 k1 (get_u64 shifted_k2) depth;
      children_count = Inode4.min_size;
    } in
    let k2_next_byte_depth = length this.key_prefix in
    let k1_next_byte_depth = k2_next_byte_depth + depth in
    add_two_to_empty this (get_or k1 k1_next_byte_depth 0) child1
      (get_or shifted_k2 k2_next_byte_depth 0) child2
