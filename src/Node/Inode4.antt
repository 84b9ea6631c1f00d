-- ===== src/Node/Inode4.antt =====
-- `basic_inode_4` (art_internal_impl.hpp), as compiled for x86-64. `raw` is the memory of a new
-- node, whose arrays hold whatever was there.
pub mod Changes
pub mod Reads
use unodb.Base.{
  ℕ, ◌≤◌, zero, suc, ◌+◌, ◌-◌, ◌%◌, Option, none, some, Bool, update, if◌then◌else◌, ltb, leb, ◌==◌,
}
use unodb.Node.{Leaf, key_byte_at, IterResult, found}
use unodb.Node.Simd.{movemask, low_bits, countr_zero, popcount, cmpeq}
use unodb.Node.Sorted.{shift_up, shift_down, scan_up, scan_down, Entry, IsKeyed}

pub record Inode4 : Type 0 where
  pub key_prefix : ℕ
  pub children_count : ℕ
  pub keys : ℕ → ℕ
  pub children : ℕ → ℕ

abbrev pub min_size : ℕ
min_size = 2

abbrev pub capacity : ℕ
capacity = 4

-- `_mm_cvtsi32_si128(keys.integer)`: the four key bytes, and zeros in the other lanes.
abbrev pub keys_in_sse_reg : Inode4 → ℕ → ℕ
keys_in_sse_reg x i = if ltb i 4 then x.keys i else 0

-- The child's index and the child, or `child_not_found`.
unfoldable pub find_child : Inode4 → ℕ → Option (ℕ × ℕ)
find_child x key_byte =
    let matching_key_positions = cmpeq key_byte (keys_in_sse_reg x) in
    let bit_field = low_bits x.children_count (movemask 16 matching_key_positions) in
    let i = countr_zero 32 bit_field in if bit_field == 0 then none else some (i, x.children i)

-- `node_key_mask` has the lowest `mask_bits` bits set.
unfoldable pub get_insert_pos : Inode4 → ℕ → ℕ → ℕ
get_insert_pos x insert_key_byte mask_bits =
    let le_node_key_positions : ℕ → Bool = λ i. leb (keys_in_sse_reg x i) insert_key_byte in
    let bit_field = low_bits mask_bits (movemask 16 le_node_key_positions) in popcount 32 bit_field

-- `child` is the leaf's address.
unfoldable pub add_two_to_empty : Inode4 → ℕ → ℕ → ℕ → ℕ → Inode4
add_two_to_empty x key1 child1 key2 child2 =
    let key1_i = if ltb key1 key2 then 0 else 1 in
    let key2_i = 1 - key1_i in
    record x {
      keys = update (update x.keys key1_i key1) key2_i key2;
      children = update (update x.children key1_i child1) key2_i child2;
    }

unfoldable pub add_to_nonfull : Inode4 → Leaf → ℕ → ℕ → Inode4
unfolding get_insert_pos
add_to_nonfull x child depth children_count_ =
    let key_byte = key_byte_at child depth in
    let insert_pos_index = get_insert_pos x key_byte children_count_ in
    let moved = children_count_ - insert_pos_index in
    record x {
      keys = update (shift_up x.keys insert_pos_index moved) insert_pos_index key_byte;
      children = update (shift_up x.children insert_pos_index moved) insert_pos_index child.address;
      children_count = (children_count_ + 1) % 256;
    }

-- The node and the address of the leaf that is reclaimed.
unfoldable pub remove : Inode4 → ℕ → Inode4 × ℕ
remove x child_index =
    let moved = x.children_count - 1 - child_index in
    (
      record x {
        keys = shift_down x.keys child_index moved;
        children = shift_down x.children child_index moved;
        children_count = x.children_count - 1;
      },
      x.children child_index,
    )

unfoldable pub get_child : Inode4 → ℕ → ℕ
get_child x child_index = x.children child_index

abbrev pub result_at : Inode4 → ℕ → IterResult
result_at x i = record { key_byte = x.keys i; child_index = i; prefix = x.key_prefix }

unfoldable pub begin : Inode4 → IterResult
begin x = result_at x 0

unfoldable pub last : Inode4 → IterResult
last x = result_at x (x.children_count - 1)

unfoldable pub next : Inode4 → ℕ → Option IterResult
next x child_index =
    let next_index = (child_index + 1) % 256 in
    if leb x.children_count next_index then none else some (result_at x next_index)

unfoldable pub prior : Inode4 → ℕ → Option IterResult
prior x child_index = if child_index == 0 then none else some (result_at x (child_index - 1))

unfoldable pub gte_key_byte : Inode4 → ℕ → Option IterResult
gte_key_byte x key_byte = found (result_at x) (scan_up x.keys key_byte x.children_count 0)

unfoldable pub lte_key_byte : Inode4 → ℕ → Option IterResult
lte_key_byte x key_byte = found (result_at x) (scan_down x.keys key_byte x.children_count)

-- Two to four sorted key bytes, each with a child.
pub record IsValid (x : Inode4) : Type 0 where
  pub keyed : IsKeyed x.children_count x.keys x.children
  pub least : min_size ≤ x.children_count
  pub most : x.children_count ≤ capacity

abbrev pub Maps : Inode4 → ℕ → ℕ → Type 0
Maps x = Entry x.children_count x.keys x.children
