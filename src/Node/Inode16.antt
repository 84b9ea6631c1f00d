-- ===== src/Node/Inode16.antt =====
-- `basic_inode_16` (art_internal_impl.hpp), as compiled for x86-64.
pub mod Changes
pub mod Reads
use unodb.Base.{ℕ, ◌≤◌, ◌+◌, ◌-◌, ◌%◌, Option, none, some, Bool, update, if◌then◌else◌, leb, ◌==◌}
use unodb.Node.{Leaf, key_byte_at, IterResult, found}
use unodb.Node.Simd.{movemask, low_bits, countr_zero, cmpeq}
use unodb.Node.Sorted.{shift_up, shift_down, scan_up, scan_down, Entry, IsKeyed}

pub record Inode16 : Type 0 where
  pub key_prefix : ℕ
  pub children_count : ℕ
  pub keys : ℕ → ℕ
  pub children : ℕ → ℕ

abbrev pub min_size : ℕ
min_size = 5

abbrev pub capacity : ℕ
capacity = 16

-- The child's index and the child, or `child_not_found`. The register holds all key bytes.
unfoldable pub find_child : Inode16 → ℕ → Option (ℕ × ℕ)
find_child x key_byte =
    let matching_key_positions = cmpeq key_byte x.keys in
    let bit_field = low_bits x.children_count (movemask 16 matching_key_positions) in
    let i = countr_zero 32 bit_field in if bit_field == 0 then none else some (i, x.children i)

unfoldable pub get_sorted_key_array_insert_position : Inode16 → ℕ → ℕ
get_sorted_key_array_insert_position x key_byte =
    let lesser_key_positions : ℕ → Bool = λ i. leb key_byte (x.keys i) in
    let bit_field = low_bits x.children_count (movemask 16 lesser_key_positions) in
    if bit_field == 0 then x.children_count else countr_zero 32 bit_field

-- `std::copy_backward` from the place to the end moves these elements up by one.
unfoldable pub add_to_nonfull : Inode16 → Leaf → ℕ → ℕ → Inode16
unfolding get_sorted_key_array_insert_position
add_to_nonfull x child depth children_count_ =
    let key_byte = key_byte_at child depth in
    let insert_pos_index = get_sorted_key_array_insert_position x key_byte in
    let moved = children_count_ - insert_pos_index in
    record x {
      keys = update (shift_up x.keys insert_pos_index moved) insert_pos_index key_byte;
      children = update (shift_up x.children insert_pos_index moved) insert_pos_index child.address;
      children_count = (children_count_ + 1) % 256;
    }

-- The node and the address of the leaf that is reclaimed.
unfoldable pub remove : Inode16 → ℕ → Inode16 × ℕ
remove x child_index =
    let moved = x.children_count - 1 - child_index in
    (
      record x {
        keys = shift_down x.keys child_index moved;
        children = shift_down x.children child_index moved;
        children_count = x.children_count - 1;
      },
      x.children child_index,
    )

unfoldable pub get_child : Inode16 → ℕ → ℕ
get_child x child_index = x.children child_index

abbrev pub result_at : Inode16 → ℕ → IterResult
result_at x i = record { key_byte = x.keys i; child_index = i; prefix = x.key_prefix }

unfoldable pub begin : Inode16 → IterResult
begin x = result_at x 0

unfoldable pub last : Inode16 → IterResult
last x = result_at x (x.children_count - 1)

unfoldable pub next : Inode16 → ℕ → Option IterResult
next x child_index =
    let next_index = (child_index + 1) % 256 in
    if leb x.children_count next_index then none else some (result_at x next_index)

unfoldable pub prior : Inode16 → ℕ → Option IterResult
prior x child_index = if child_index == 0 then none else some (result_at x (child_index - 1))

unfoldable pub gte_key_byte : Inode16 → ℕ → Option IterResult
gte_key_byte x key_byte = found (result_at x) (scan_up x.keys key_byte x.children_count 0)

unfoldable pub lte_key_byte : Inode16 → ℕ → Option IterResult
lte_key_byte x key_byte = found (result_at x) (scan_down x.keys key_byte x.children_count)

-- Five to sixteen sorted key bytes, each with a child.
pub record IsValid (x : Inode16) : Type 0 where
  pub keyed : IsKeyed x.children_count x.keys x.children
  pub least : min_size ≤ x.children_count
  pub most : x.children_count ≤ capacity

abbrev pub Maps : Inode16 → ℕ → ℕ → Type 0
Maps x = Entry x.children_count x.keys x.children
