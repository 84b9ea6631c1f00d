-- ===== src/Tests/Prefix.antt =====
-- Key prefixes and node pointers at concrete words.
use unodb.Base.{ℕ, suc, ◌+◌, ◌<◌, ◌≤◌, ◌≢◌, ◌≡◌, refl, [], ◌∷◌, List, arith}
use unodb.Node.{Leaf}
use unodb.Node.Inode4.{Inode4}
use unodb.Node.Split.{init_split, leave_last_child}
use unodb.Node.Split.Laws.{leave_last_child-init_split}
use unodb.Node.KeyPrefix.{IsPrefix, length, byte_at, prepend, get_shared_length}
use unodb.Node.KeyPrefix.Laws.{prepend-IsPrefix}
use unodb.Node.KeyPrefix.Shared.{IsShared, get_shared_length-IsShared}
use unodb.Node.Pointer.{leaf, tag_of, type, lowest_non_tag_bit, mask_bits_needed}

-- The bytes 1, 2 and 3.
abbrev three_bytes : ℕ
three_bytes = 0x0300000000030201

-- The bytes 4 and 5, and a byte behind the prefix.
abbrev two_bytes : ℕ
two_bytes = 0x0200000000990504

three_bytes-IsPrefix : IsPrefix three_bytes
unfolding length
three_bytes-IsPrefix = (omega arith, omega arith)

two_bytes-IsPrefix : IsPrefix two_bytes
unfolding length
two_bytes-IsPrefix = (omega arith, omega arith)

length_three : length three_bytes ≡ 3
unfolding length
length_three = refl

length_two : length two_bytes ≡ 2
unfolding length
length_two = refl

prepend-IsPrefix_example :
    IsPrefix (prepend three_bytes two_bytes 77)
    × (length (prepend three_bytes two_bytes 77) ≡ length three_bytes + length two_bytes + 1)
    × ((i : ℕ)
        → i < length two_bytes
        → byte_at (prepend three_bytes two_bytes 77) i ≡ byte_at two_bytes i)
    × (byte_at (prepend three_bytes two_bytes 77) (length two_bytes) ≡ 77)
    × ((j : ℕ)
        → j < length three_bytes
        → byte_at (prepend three_bytes two_bytes 77) (suc (length two_bytes) + j)
          ≡ byte_at three_bytes j)
prepend-IsPrefix_example =
    prepend-IsPrefix three_bytes two_bytes 77 three_bytes-IsPrefix two_bytes-IsPrefix
      (omega (arith, length_three, length_two)) (omega arith)

get_shared_length-IsShared_example :
    IsShared 0x990201 three_bytes (length three_bytes) (get_shared_length three_bytes 0x990201)
get_shared_length-IsShared_example =
    get_shared_length-IsShared three_bytes 0x990201 three_bytes-IsPrefix

abbrev key : List ℕ
key = 9 ∷ 1 ∷ 2 ∷ []

-- A leaf whose key has the byte 9 behind the first byte of the prefix.
abbrev new_leaf : Leaf
new_leaf = record { address = 4096; key_view = 1 ∷ 9 ∷ [] }

abbrev memory : Inode4
memory = record { key_prefix = 0; children_count = 0; keys = λ i. 0; children = λ i. 0 }

-- The type of the pointer 8195 is that of the nodes of 48.
type_inner : type 8195 ≡ 3
unfolding type lowest_non_tag_bit mask_bits_needed
type_inner = refl

inner : type 8195 ≢ tag_of leaf
unfolding tag_of
inner e = omega (arith, type_inner)

byte_one : byte_at three_bytes 1 ≡ 2
unfolding byte_at
byte_one = refl

leave_last_child-init_split_example :
    (i : ℕ) × (i ≤ 1)
    × ((init_split memory 8195 three_bytes 1 0 new_leaf).0.keys i ≡ 9)
    × ((init_split memory 8195 three_bytes 1 0 new_leaf).0.children i ≡ 4096)
    × (r : ℕ) × (leave_last_child
          (init_split memory 8195 three_bytes 1 0 new_leaf).0
          i
          (init_split memory 8195 three_bytes 1 0 new_leaf).1
        ≡ (8195, r, 4096))
    × IsPrefix r
    × (length r ≡ length three_bytes)
    × ((j : ℕ) → j < length three_bytes → byte_at r j ≡ byte_at three_bytes j)
leave_last_child-init_split_example =
    leave_last_child-init_split memory 8195 three_bytes 1 0 new_leaf three_bytes-IsPrefix
      (omega (arith, length_three)) (λ e. omega (arith, byte_one)) inner
