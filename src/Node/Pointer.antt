-- ===== src/Node/Pointer.antt =====
-- `node_type` (node_type.hpp) and `basic_node_ptr` (art_internal.hpp), whose word holds a pointer
-- with the type of its node in the low bits.
pub mod Laws
use unodb.Base.{ℕ, zero, suc, ◌+◌, ◌-◌, ◌/◌, ◌%◌, ◌^◌, if◌then◌else◌, ltb}
use unodb.Base.Bits.{bit_or}

pub data NodeType : Type 0 where
  leaf : NodeType
  i4 : NodeType
  i16 : NodeType
  i48 : NodeType
  i256 : NodeType

-- The underlying value.
unfoldable pub tag_of : NodeType → ℕ
tag_of leaf = 0
tag_of i4 = 1
tag_of i16 = 2
tag_of i48 = 3
tag_of i256 = 4

abbrev pub node_type_count : ℕ
node_type_count = 5

-- A count that is halved `fuel` times is below 2 where it is at most the fuel.
unfoldable pub mask_bits_needed : ℕ → ℕ → ℕ
mask_bits_needed zero count = 1
mask_bits_needed (suc fuel) count =
    let rest = mask_bits_needed fuel (count / 2) in if ltb count 2 then 1 else 1 + rest

unfoldable pub lowest_non_tag_bit : ℕ
lowest_non_tag_bit = 2 ^ mask_bits_needed node_type_count node_type_count

unfoldable pub tag_ptr : ℕ → NodeType → ℕ
tag_ptr ptr_ tag = bit_or 64 ptr_ (tag_of tag)

-- `tagged_ptr & tag_bit_mask`
unfoldable pub type : ℕ → ℕ
type tagged_ptr = tagged_ptr % lowest_non_tag_bit

-- `tagged_ptr & ptr_bit_mask`
unfoldable pub ptr : ℕ → ℕ
ptr tagged_ptr = tagged_ptr - tagged_ptr % lowest_non_tag_bit
