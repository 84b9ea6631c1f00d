-- ===== src/Node/Shrink.antt =====
-- The constructors that make a smaller node of a node of the least size without one of its leaves
-- (`init` of basic_inode_4, basic_inode_16 and basic_inode_48, art_internal_impl.hpp). `raw` is the
-- memory of the new node, and the second result the address of the leaf that is reclaimed. The
-- old node is reclaimed by the caller's policy.
pub mod Five
pub mod Seventeen
pub mod FortyNine
use unodb.Base.{zero, Option, none, some, ◌>>=◌, true, false, update, ◌==◌, ℕ, suc, ◌+◌, ◌-◌}
use unodb.Node.{nullptr}
use unodb.Node.Sorted.{copy}
use unodb.Node.Inode256
use unodb.Node.Inode256.{Inode256}
use unodb.Node.Inode4
use unodb.Node.Inode4.{Inode4}
use unodb.Node.Inode48
use unodb.Node.Inode48.{Inode48}
use unodb.Node.Inode16
use unodb.Node.Inode16.{Inode16}

unfoldable pub init_inode4 : Inode4 → Inode16 → ℕ → Inode4 × ℕ
init_inode4 raw source_node child_to_delete =
    let left = Inode16.min_size - suc child_to_delete in
    (
      record {
        key_prefix = source_node.key_prefix;
        children_count = Inode4.capacity;
        keys =
            copy (copy raw.keys source_node.keys 0 0 child_to_delete) source_node.keys
              child_to_delete (suc child_to_delete) left;
        children =
            copy (copy raw.children source_node.children 0 0 child_to_delete) source_node.children
              child_to_delete (suc child_to_delete) left;
      },
      source_node.children child_to_delete,
    )

-- The loop over the bytes of a node of 48, which ends with the 16th child; it would leave the array
-- without one, here `none`.
unfoldable pub gather :
    (ℕ → ℕ) → (ℕ → ℕ) → ℕ → ℕ → ℕ → (ℕ → ℕ) → (ℕ → ℕ) → Option ((ℕ → ℕ) × (ℕ → ℕ))
gather child_indexes pointer_array zero i next_child keys children = none
gather child_indexes pointer_array (suc d) i next_child keys children =
    elim (child_indexes i == Inode48.empty_child) [
      | true ↦ gather child_indexes pointer_array d (suc i) next_child keys children
      | false ↦
          let keys' = update keys next_child i in
          let children' = update children next_child (pointer_array (child_indexes i)) in
          elim (suc next_child == Inode16.capacity) [
            | true ↦ some (keys', children')
            | false ↦ gather child_indexes pointer_array d (suc i) (suc next_child) keys' children'
          ]
    ]

unfoldable pub init_inode16 : Inode16 → Inode48 → ℕ → Option (Inode16 × ℕ)
init_inode16 raw source_node child_to_delete = do
  let reclaimed = Inode48.remove_child_pointer source_node child_to_delete
  let child_indexes = update source_node.child_indexes child_to_delete Inode48.empty_child
  (keys, children) ← gather child_indexes source_node.pointer_array 256 0 0 raw.keys raw.children
  some (
    record {
      key_prefix = source_node.key_prefix;
      children_count = Inode16.capacity;
      keys = keys;
      children = children;
    },
    reclaimed,
  )

-- The loop over the bytes of a node of 256, which returns after the 48th child.
unfoldable pub collect : (ℕ → ℕ) → ℕ → ℕ → ℕ → (ℕ → ℕ) → (ℕ → ℕ) → (ℕ → ℕ) × (ℕ → ℕ)
collect children zero child_i next_child child_indexes pointer_array =
    (child_indexes, pointer_array)
collect children (suc d) child_i next_child child_indexes pointer_array =
    elim (children child_i == nullptr) [
      | true ↦ collect children d (suc child_i) next_child child_indexes pointer_array
      | false ↦
          let child_indexes' = update child_indexes child_i next_child in
          let pointer_array' = update pointer_array next_child (children child_i) in
          elim (suc next_child == Inode48.capacity) [
            | true ↦ (child_indexes', pointer_array')
            | false ↦
                collect children d (suc child_i) (suc next_child) child_indexes' pointer_array'
          ]
    ]

-- Of the memory of the new node, only the pointers are not initialised.
unfoldable pub init_inode48 : (ℕ → ℕ) → Inode256 → ℕ → Inode48 × ℕ
init_inode48 raw source_node child_to_delete =
    let children = update source_node.children child_to_delete nullptr in
    let filled = collect children 256 0 0 (λ b. Inode48.empty_child) raw in
    (
      record {
        key_prefix = source_node.key_prefix;
        children_count = Inode48.capacity;
        child_indexes = filled.0;
        pointer_array = filled.1;
      },
      source_node.children child_to_delete,
    )
