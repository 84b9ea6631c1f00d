-- ===== src/Node/Inode.antt =====
-- `basic_inode_impl` and `basic_inode` (art_internal_impl.hpp): the operations that the internal
-- nodes of all sizes share, which look at the type of the node, and the making of the next larger
-- and the next smaller node. The result of `begin` and `last` is `none` only for a node of 48 or
-- 256 without children.
pub mod Reads
pub mod Ends
pub mod Search
pub mod Changes
pub mod Resize
use unodb.Base.{ℕ, ◌+◌, ◌<◌, ◌≡◌, Bool, Option, none, some, ◌>>=◌, update, ◌==◌}
use unodb.Node.{Leaf, IterResult}
use unodb.Node.Pointer.{NodeType, i4, i16, i48, i256}
use unodb.Node.Inode4
use unodb.Node.Inode4.{Inode4}
use unodb.Node.Inode16
use unodb.Node.Inode16.{Inode16}
use unodb.Node.Inode48
use unodb.Node.Inode48.{Inode48}
use unodb.Node.Inode256
use unodb.Node.Inode256.{Inode256}
use unodb.Node.Grow
use unodb.Node.Shrink

pub data Inode : Type 0 where
  n4 : Inode4 → Inode
  n16 : Inode16 → Inode
  n48 : Inode48 → Inode
  n256 : Inode256 → Inode

-- The memory of new nodes, whose fields hold whatever was there.
pub record Memory : Type 0 where
  pub for4 : Inode4
  pub for16 : Inode16
  pub for48 : ℕ → ℕ
  pub for256 : Inode256

abbrev pub type_of : Inode → NodeType
type_of (n4 x) = i4
type_of (n16 x) = i16
type_of (n48 x) = i48
type_of (n256 x) = i256

abbrev pub get_key_prefix : Inode → ℕ
get_key_prefix (n4 x) = x.key_prefix
get_key_prefix (n16 x) = x.key_prefix
get_key_prefix (n48 x) = x.key_prefix
get_key_prefix (n256 x) = x.key_prefix

-- What `cut` and `prepend` store.
abbrev pub set_key_prefix : Inode → ℕ → Inode
set_key_prefix (n4 x) u = n4 (record x { key_prefix = u })
set_key_prefix (n16 x) u = n16 (record x { key_prefix = u })
set_key_prefix (n48 x) u = n48 (record x { key_prefix = u })
set_key_prefix (n256 x) u = n256 (record x { key_prefix = u })

abbrev pub get_children_count : Inode → ℕ
get_children_count (n4 x) = x.children_count
get_children_count (n16 x) = x.children_count
get_children_count (n48 x) = x.children_count
get_children_count (n256 x) = x.children_count

abbrev pub capacity : Inode → ℕ
capacity (n4 x) = Inode4.capacity
capacity (n16 x) = Inode16.capacity
capacity (n48 x) = Inode48.capacity
capacity (n256 x) = Inode256.capacity

abbrev pub min_size : Inode → ℕ
min_size (n4 x) = Inode4.min_size
min_size (n16 x) = Inode16.min_size
min_size (n48 x) = Inode48.min_size
min_size (n256 x) = Inode256.min_size

abbrev pub is_min_size : Inode → Bool
is_min_size x = get_children_count x == min_size x

unfoldable pub find_child : Inode → ℕ → Option (ℕ × ℕ)
find_child (n4 x) key_byte = Inode4.find_child x key_byte
find_child (n16 x) key_byte = Inode16.find_child x key_byte
find_child (n48 x) key_byte = Inode48.find_child x key_byte
find_child (n256 x) key_byte = Inode256.find_child x key_byte

unfoldable pub get_child : Inode → ℕ → ℕ
get_child (n4 x) child_index = Inode4.get_child x child_index
get_child (n16 x) child_index = Inode16.get_child x child_index
get_child (n48 x) child_index = Inode48.get_child x child_index
get_child (n256 x) child_index = Inode256.get_child x child_index

-- A store through the pointer to a child that `find_child` gives.
unfoldable pub set_child : Inode → ℕ → ℕ → Inode
set_child (n4 x) i child = n4 (record x { children = update x.children i child })
set_child (n16 x) i child = n16 (record x { children = update x.children i child })
set_child (n48 x) i child =
    n48 (record x { pointer_array = update x.pointer_array (x.child_indexes i) child })
set_child (n256 x) i child = n256 (record x { children = update x.children i child })

unfoldable pub begin : Inode → Option IterResult
begin (n4 x) = some (Inode4.begin x)
begin (n16 x) = some (Inode16.begin x)
begin (n48 x) = Inode48.begin x
begin (n256 x) = Inode256.begin x

unfoldable pub last : Inode → Option IterResult
last (n4 x) = some (Inode4.last x)
last (n16 x) = some (Inode16.last x)
last (n48 x) = Inode48.last x
last (n256 x) = Inode256.last x

unfoldable pub next : Inode → ℕ → Option IterResult
next (n4 x) child_index = Inode4.next x child_index
next (n16 x) child_index = Inode16.next x child_index
next (n48 x) child_index = Inode48.next x child_index
next (n256 x) child_index = Inode256.next x child_index

unfoldable pub prior : Inode → ℕ → Option IterResult
prior (n4 x) child_index = Inode4.prior x child_index
prior (n16 x) child_index = Inode16.prior x child_index
prior (n48 x) child_index = Inode48.prior x child_index
prior (n256 x) child_index = Inode256.prior x child_index

unfoldable pub lte_key_byte : Inode → ℕ → Option IterResult
lte_key_byte (n4 x) key_byte = Inode4.lte_key_byte x key_byte
lte_key_byte (n16 x) key_byte = Inode16.lte_key_byte x key_byte
lte_key_byte (n48 x) key_byte = Inode48.lte_key_byte x key_byte
lte_key_byte (n256 x) key_byte = Inode256.lte_key_byte x key_byte

unfoldable pub gte_key_byte : Inode → ℕ → Option IterResult
gte_key_byte (n4 x) key_byte = Inode4.gte_key_byte x key_byte
gte_key_byte (n16 x) key_byte = Inode16.gte_key_byte x key_byte
gte_key_byte (n48 x) key_byte = Inode48.gte_key_byte x key_byte
gte_key_byte (n256 x) key_byte = Inode256.gte_key_byte x key_byte

unfoldable pub add_to_nonfull : Inode → Leaf → ℕ → ℕ → Option Inode
add_to_nonfull (n4 x) child depth children_count =
    some (n4 (Inode4.add_to_nonfull x child depth children_count))
add_to_nonfull (n16 x) child depth children_count =
    some (n16 (Inode16.add_to_nonfull x child depth children_count))
add_to_nonfull (n48 x) child depth children_count = do
  y ← Inode48.add_to_nonfull x child depth children_count
  some (n48 y)
add_to_nonfull (n256 x) child depth children_count =
    some (n256 (Inode256.add_to_nonfull x child depth children_count))

-- `larger_derived_type::create`; there is none for the largest node.
unfoldable pub create_larger : Memory → Inode → Leaf → ℕ → Option Inode
create_larger raw (n4 x) child depth = some (n16 (Grow.init_inode16 raw.for16 x child depth))
create_larger raw (n16 x) child depth = some (n48 (Grow.init_inode48 raw.for48 x child depth))
create_larger raw (n48 x) child depth = do
  y ← Grow.init_inode256 raw.for256 x child depth
  some (n256 y)
create_larger raw (n256 x) child depth = none

-- The node and the address of the leaf that is reclaimed.
unfoldable pub remove : Inode → ℕ → Inode × ℕ
remove (n4 x) child_index = (n4 (Inode4.remove x child_index).0, (Inode4.remove x child_index).1)
remove (n16 x) child_index =
    (n16 (Inode16.remove x child_index).0, (Inode16.remove x child_index).1)
remove (n48 x) child_index =
    (n48 (Inode48.remove x child_index).0, (Inode48.remove x child_index).1)
remove (n256 x) child_index =
    (n256 (Inode256.remove x child_index).0, (Inode256.remove x child_index).1)

-- `smaller_derived_type::create`; there is none for the smallest node.
unfoldable pub create_smaller : Memory → Inode → ℕ → Option (Inode × ℕ)
create_smaller raw (n4 x) child_index = none
create_smaller raw (n16 x) child_index =
    let made = Shrink.init_inode4 raw.for4 x child_index in some (n4 made.0, made.1)
create_smaller raw (n48 x) child_index = do
  (y, reclaimed) ← Shrink.init_inode16 raw.for16 x child_index
  some (n16 y, reclaimed)
create_smaller raw (n256 x) child_index =
    let made = Shrink.init_inode48 raw.for48 x child_index in some (n48 made.0, made.1)

-- Byte `b` leads to child `c`.
abbrev pub Maps : Inode → ℕ → ℕ → Type 0
Maps (n4 x) = Inode4.Maps x
Maps (n16 x) = Inode16.Maps x
Maps (n48 x) = Inode48.Maps x
Maps (n256 x) = Inode256.Maps x

abbrev pub IsValid : Inode → Type 0
IsValid (n4 x) = Inode4.IsValid x
IsValid (n16 x) = Inode16.IsValid x
IsValid (n48 x) = Inode48.IsValid x
IsValid (n256 x) = Inode256.IsValid x

-- The child index `i` stands for byte `b`.
abbrev pub IsAt : Inode → ℕ → ℕ → Type 0
IsAt (n4 x) i b = (i < x.children_count) × (x.keys i ≡ b)
IsAt (n16 x) i b = (i < x.children_count) × (x.keys i ≡ b)
IsAt (n48 x) i b = i ≡ b
IsAt (n256 x) i b = i ≡ b
