-- ===== src/Node/Inode48.antt =====
-- `basic_inode_48` (art_internal_impl.hpp), as compiled for a machine without SSE4.2, AVX2 and NEON,
-- where `add_to_nonfull` looks at one pointer at a time.
pub mod Changes
pub mod Packed
pub mod Reads
use unodb.Base.{
  ℕ, ◌+◌, ◌-◌, ◌%◌, ◌≤◌, ◌<◌, ◌≡◌, ◌≢◌, Option, none, some, Bool, not, update, if◌then◌else◌, ◌==◌,
}
use unodb.Node.{nullptr, Leaf, key_byte_at, IterResult, found}
use unodb.Node.Bytes.{first_mapped, last_mapped}
use unodb.Node.Slots.{tally, is_child}

-- `child_indexes` gives the place of a byte's child in `pointer_array`.
pub record Inode48 : Type 0 where
  pub key_prefix : ℕ
  pub children_count : ℕ
  pub child_indexes : ℕ → ℕ
  pub pointer_array : ℕ → ℕ

abbrev pub min_size : ℕ
min_size = 17

abbrev pub capacity : ℕ
capacity = 48

abbrev pub empty_child : ℕ
empty_child = 0xff

-- `child_indexes[i] != empty_child`
abbrev pub is_mapped : Inode48 → ℕ → Bool
is_mapped x i = not (x.child_indexes i == empty_child)

unfoldable pub find_child : Inode48 → ℕ → Option (ℕ × ℕ)
find_child x key_byte =
    if is_mapped x key_byte
    then some (key_byte, x.pointer_array (x.child_indexes key_byte))
    else none

-- The loop that looks for an empty place; without one it would leave the array, here `none`.
unfoldable pub empty_slot : (ℕ → ℕ) → Option ℕ
empty_slot pointer_array = first_mapped (λ i. pointer_array i == nullptr) capacity 0

unfoldable pub add_to_nonfull : Inode48 → Leaf → ℕ → ℕ → Option Inode48
add_to_nonfull x child depth children_count_ = elim (empty_slot x.pointer_array) [
  | none ↦ none
  | some i ↦ some (record x {
    child_indexes = update x.child_indexes (key_byte_at child depth) i;
    pointer_array = update x.pointer_array i child.address;
    children_count = (children_count_ + 1) % 256;
  })
]

-- The address of the leaf that is reclaimed.
unfoldable pub remove_child_pointer : Inode48 → ℕ → ℕ
remove_child_pointer x child_index = x.pointer_array (x.child_indexes child_index)

-- The node and the address of the leaf that is reclaimed.
unfoldable pub remove : Inode48 → ℕ → Inode48 × ℕ
unfolding remove_child_pointer
remove x child_index = (
  record x {
    pointer_array = update x.pointer_array (x.child_indexes child_index) nullptr;
    child_indexes = update x.child_indexes child_index empty_child;
    children_count = x.children_count - 1;
  },
  remove_child_pointer x child_index,
)

unfoldable pub get_child : Inode48 → ℕ → ℕ
get_child x child_index =
    if is_mapped x child_index then x.pointer_array (x.child_indexes child_index) else nullptr

abbrev pub result_at : Inode48 → ℕ → IterResult
result_at x i = record { key_byte = i; child_index = i; prefix = x.key_prefix }

-- A node without a child, which `UNODB_DETAIL_CANNOT_HAPPEN` excludes, has no first one.
unfoldable pub begin : Inode48 → Option IterResult
begin x = found (result_at x) (first_mapped (is_mapped x) 256 0)

unfoldable pub last : Inode48 → Option IterResult
last x = found (result_at x) (last_mapped (is_mapped x) 256)

unfoldable pub next : Inode48 → ℕ → Option IterResult
next x child_index =
    found (result_at x) (first_mapped (is_mapped x) (256 - (child_index + 1)) (child_index + 1))

unfoldable pub prior : Inode48 → ℕ → Option IterResult
prior x child_index = found (result_at x) (last_mapped (is_mapped x) child_index)

unfoldable pub lte_key_byte : Inode48 → ℕ → Option IterResult
lte_key_byte x key_byte = found (result_at x) (last_mapped (is_mapped x) (key_byte + 1))

unfoldable pub gte_key_byte : Inode48 → ℕ → Option IterResult
gte_key_byte x key_byte = found (result_at x) (first_mapped (is_mapped x) (256 - key_byte) key_byte)

abbrev pub Maps : Inode48 → ℕ → ℕ → Type 0
Maps x b c =
    (b < 256) × (x.child_indexes b ≢ empty_child) × (x.pointer_array (x.child_indexes b) ≡ c)

-- Different bytes have different places with children, every child stands at the place of a byte,
-- and the count is the number of children and of mapped bytes, 17 to 48.
pub record IsValid (x : Inode48) : Type 0 where
  pub inside : (b : ℕ) → b < 256 → x.child_indexes b ≢ empty_child → x.child_indexes b < capacity
  pub present :
      (b : ℕ) → b < 256 → x.child_indexes b ≢ empty_child → 0 < x.pointer_array (x.child_indexes b)
  pub distinct :
      (a b : ℕ)
      → a < 256
      → b < 256
      → x.child_indexes a ≢ empty_child
      → x.child_indexes a ≡ x.child_indexes b
      → a ≡ b
  pub owner :
      (i : ℕ) → i < capacity → 0 < x.pointer_array i → (b : ℕ) × (b < 256) × (x.child_indexes b ≡ i)
  pub counted : x.children_count ≡ tally 0 x.pointer_array capacity
  pub mapped : x.children_count ≡ tally empty_child x.child_indexes 256
  pub least : min_size ≤ x.children_count
