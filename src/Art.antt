-- ===== src/Art.antt =====
-- `db` (art.hpp). A tree is its root pointer and what this leads to: a node owns the trees that its
-- child pointers lead to, as every node has one owner. A store through a pointer to a child
-- pointer gives the owner a new child.
pub mod Insert
pub mod Remove
pub mod Entries
pub mod Get
pub mod Laws
pub mod Runs
pub mod Delete
pub mod Iterator
use Prim.Native.Nat.Ordering.{lt, eq, gt}
use unodb.Base.{ℕ, List, Option, none, some, Bool, true, false, get_or, drop, ltb}
use unodb.Encode.Bytes.{compare_keys}
use unodb.Node.KeyPrefix.{length, get_shared_length, get_u64}
use unodb.Node.Pointer.{NodeType}
use unodb.Node.Pointer
use unodb.Node.Inode.{Inode, Memory, get_key_prefix, find_child, type_of}

-- A leaf's key and value.
pub data Tree : Type 0 where
  leaf : List ℕ → List ℕ → Tree
  inode : Inode → (ℕ → Tree) → Tree

-- What the type in the low bits of a pointer to a tree says.
abbrev pub node_type : Tree → NodeType
node_type (leaf key value) = Pointer.leaf
node_type (inode x sub) = type_of x

-- A node pointer, and the tree that it leads to.
pub record Slot : Type 0 where
  pub ptr : ℕ
  pub tree : Tree

-- `none` is `nullptr`.
pub record Db : Type 0 where
  pub root : Option Slot

abbrev pub empty_db : Db
empty_db = record { root = none }

unfoldable pub empty : Db → Bool
empty db = elim db.root [ none ↦ true | some s ↦ false ]

-- `basic_leaf::matches`
unfoldable pub matches : List ℕ → List ℕ → Bool
matches leaf_key k = elim (compare_keys k leaf_key) [ lt ↦ false | eq ↦ true | gt ↦ false ]

-- The loop of `get_internal`. The remaining key is the key from the depth of the node on.
unfoldable pub get_from : Tree → List ℕ → List ℕ → Option (List ℕ)
get_from (leaf key value) k remaining_key = elim (matches key k) [
  | true ↦ some value
  | false ↦ none
]
get_from (inode x sub) k remaining_key =
    let key_prefix_length = length (get_key_prefix x) in
    elim (ltb (get_shared_length (get_key_prefix x) (get_u64 remaining_key)) key_prefix_length) [
      | true ↦ none
      | false ↦
          let remaining = drop key_prefix_length remaining_key in
          elim (find_child x (get_or remaining 0 0)) [
            | none ↦ none
            | some (i, c) ↦ get_from (sub c) k (drop 1 remaining)
          ]
    ]

unfoldable pub get_internal : Db → List ℕ → Option (List ℕ)
get_internal db k = elim db.root [ none ↦ none | some s ↦ get_from s.tree k k ]
