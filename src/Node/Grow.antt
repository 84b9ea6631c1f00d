-- ===== src/Node/Grow.antt =====
-- The constructors that make a larger node of a full one and a new leaf (`init` of basic_inode_16,
-- basic_inode_48 and basic_inode_256, art_internal_impl.hpp). `raw` is the memory of the new node.
-- The old node is reclaimed by the caller's policy.
pub mod Filled
pub mod Four
pub mod Sixteen
pub mod FortyEight
use unodb.Base.{zero, Option, none, some, ◌>>=◌, true, false, ◌==◌, ℕ, suc, ◌+◌, ◌-◌, update}
use unodb.Node.{nullptr, Leaf, key_byte_at}
use unodb.Node.Sorted.{copy}
use unodb.Node.Inode48
use unodb.Node.Inode48.{Inode48}
use unodb.Node.Inode256
use unodb.Node.Inode256.{Inode256}
use unodb.Node.Inode4
use unodb.Node.Inode4.{Inode4, get_insert_pos}
use unodb.Node.Inode16
use unodb.Node.Inode16.{Inode16}

unfoldable pub init_inode16 : Inode16 → Inode4 → Leaf → ℕ → Inode16
init_inode16 raw source_node child depth =
    let key_byte = key_byte_at child depth in
    let insert_pos_index = get_insert_pos source_node key_byte 4 in
    let i = suc insert_pos_index in
    let left = Inode4.capacity + 1 - i in
    record {
      key_prefix = source_node.key_prefix;
      children_count = Inode16.min_size;
      keys =
          copy
            (update (copy raw.keys source_node.keys 0 0 insert_pos_index) insert_pos_index key_byte)
            source_node.keys i insert_pos_index left;
      children =
          copy
            (update (copy raw.children source_node.children 0 0 insert_pos_index) insert_pos_index
              child.address)
            source_node.children i insert_pos_index left;
    }

-- The loop over the bytes of a full node of 48, which ends with the 48th child; it would leave the
-- array without one, here `none`. The result is the next byte and the children.
unfoldable pub spread : (ℕ → ℕ) → (ℕ → ℕ) → ℕ → ℕ → ℕ → (ℕ → ℕ) → Option (ℕ × (ℕ → ℕ))
spread child_indexes pointer_array zero i children_copied children = none
spread child_indexes pointer_array (suc d) i children_copied children =
    elim (child_indexes i == Inode48.empty_child) [
      | true ↦
          spread child_indexes pointer_array d (suc i) children_copied (update children i nullptr)
      | false ↦
          let children' = update children i (pointer_array (child_indexes i)) in
          elim (suc children_copied == Inode48.capacity) [
            | true ↦ some (suc i, children')
            | false ↦ spread child_indexes pointer_array d (suc i) (suc children_copied) children'
          ]
    ]

-- `for (i = from; i < from + d; ++i) a[i] = nullptr`
unfoldable pub fill_null : (ℕ → ℕ) → ℕ → ℕ → ℕ → ℕ
fill_null a from zero = a
fill_null a from (suc d) = fill_null (update a from nullptr) (suc from) d

unfoldable pub init_inode256 : Inode256 → Inode48 → Leaf → ℕ → Option Inode256
init_inode256 raw source_node child depth = do
  (i, children) ← spread source_node.child_indexes source_node.pointer_array 256 0 0 raw.children
  some (record {
    key_prefix = source_node.key_prefix;
    children_count = Inode256.min_size;
    children = update (fill_null children i (256 - i)) (key_byte_at child depth) child.address;
  })

-- `for (i = from; i < from + d; ++i) child_indexes[keys[i]] = i`
unfoldable pub index_keys : (ℕ → ℕ) → ℕ → ℕ → (ℕ → ℕ) → ℕ → ℕ
index_keys keys zero i child_indexes = child_indexes
index_keys keys (suc d) i child_indexes =
    index_keys keys d (suc i) (update child_indexes (keys i) i)

-- Of the memory of the new node, only the pointers are not initialised.
unfoldable pub init_inode48 : (ℕ → ℕ) → Inode16 → Leaf → ℕ → Inode48
init_inode48 raw source_node child depth =
    let key_byte = key_byte_at child depth in
    let i = Inode16.capacity in
    let left = Inode48.capacity - Inode48.min_size in
    record {
      key_prefix = source_node.key_prefix;
      children_count = Inode48.min_size;
      child_indexes =
          update (index_keys source_node.keys i 0 (λ b. Inode48.empty_child)) key_byte i;
      pointer_array =
          fill_null (update (copy raw source_node.children 0 0 i) i child.address) Inode48.min_size
            left;
    }
