-- ===== src/Node/Inode256.antt =====
-- `basic_inode_256` (art_internal_impl.hpp).
pub mod Changes
pub mod Reads
use unodb.Base.{
  ℕ, ◌+◌, ◌-◌, ◌%◌, ◌≤◌, ◌<◌, ◌≡◌, Option, none, some, Bool, not, update, if◌then◌else◌, ◌==◌,
}
use unodb.Node.{nullptr, Leaf, key_byte_at, IterResult, found}
use unodb.Node.Bytes.{first_mapped, last_mapped}
use unodb.Node.Slots.{tally, is_child}

-- The count of 256 children is stored as 0.
pub record Inode256 : Type 0 where
  pub key_prefix : ℕ
  pub children_count : ℕ
  pub children : ℕ → ℕ

abbrev pub min_size : ℕ
min_size = 49

abbrev pub capacity : ℕ
capacity = 256

-- `children[i] != nullptr`
abbrev pub is_mapped : Inode256 → ℕ → Bool
is_mapped x i = is_child (x.children i)

unfoldable pub find_child : Inode256 → ℕ → Option (ℕ × ℕ)
find_child x key_byte = if is_mapped x key_byte then some (key_byte, x.children key_byte) else none

unfoldable pub add_to_nonfull : Inode256 → Leaf → ℕ → ℕ → Inode256
add_to_nonfull x child depth children_count_ = record x {
  children = update x.children (key_byte_at child depth) child.address;
  children_count = (children_count_ + 1) % 256;
}

-- The node and the address of the leaf that is reclaimed.
unfoldable pub remove : Inode256 → ℕ → Inode256 × ℕ
remove x child_index = (
  record x {
    children = update x.children child_index nullptr;
    children_count = (x.children_count + 255) % 256;
  },
  x.children child_index,
)

unfoldable pub get_child : Inode256 → ℕ → ℕ
get_child x child_index = x.children child_index

abbrev pub result_at : Inode256 → ℕ → IterResult
result_at x i = record { key_byte = i; child_index = i; prefix = x.key_prefix }

-- A node without a child, which `UNODB_DETAIL_CANNOT_HAPPEN` excludes, has no first one.
unfoldable pub begin : Inode256 → Option IterResult
begin x = found (result_at x) (first_mapped (is_mapped x) 256 0)

unfoldable pub last : Inode256 → Option IterResult
last x = found (result_at x) (last_mapped (is_mapped x) 256)

unfoldable pub next : Inode256 → ℕ → Option IterResult
next x child_index =
    found (result_at x) (first_mapped (is_mapped x) (256 - (child_index + 1)) (child_index + 1))

unfoldable pub prior : Inode256 → ℕ → Option IterResult
prior x child_index = found (result_at x) (last_mapped (is_mapped x) child_index)

unfoldable pub lte_key_byte : Inode256 → ℕ → Option IterResult
lte_key_byte x key_byte = found (result_at x) (last_mapped (is_mapped x) (key_byte + 1))

unfoldable pub gte_key_byte : Inode256 → ℕ → Option IterResult
gte_key_byte x key_byte = found (result_at x) (first_mapped (is_mapped x) (256 - key_byte) key_byte)

abbrev pub Maps : Inode256 → ℕ → ℕ → Type 0
Maps x b c = (b < 256) × (0 < c) × (x.children b ≡ c)

-- 49 to 256 children, whose number the count holds, 256 as 0.
pub record IsValid (x : Inode256) : Type 0 where
  pub counted : x.children_count ≡ tally 0 x.children 256 % 256
  pub least : min_size ≤ tally 0 x.children 256
