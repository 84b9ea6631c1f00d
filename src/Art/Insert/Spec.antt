-- ===== src/Art/Insert/Spec.antt =====
-- What an insertion promises, and what it takes from the allocator.
use unodb.Base.{ℕ, ◌^◌, ◌%◌, ◌≤◌, ◌<◌, ◌≡◌, ◌≢◌, ◌↔◌, ◌⊎◌, List, length, Option, none, some, arith}
use unodb.Node.Pointer.{NodeType, leaf, tag_of, tag_ptr, type, ptr, lowest_non_tag_bit}
use unodb.Node.Pointer.Laws.{ptr-tag_ptr}
use unodb.Node.{nullptr}
use unodb.Art.{Tree, Slot, node_type}
use unodb.Art.Entries.{IsKey, Has, IsTree, Held, Reaches}
use unodb.Art.Insert.{Allocation, Outcome, ok, max_size, make_db_leaf_ptr}

-- An address that an allocator may give.
pub record IsAddress (p : ℕ) : Type 0 where
  pub present : 0 < p
  pub aligned : p % lowest_non_tag_bit ≡ 0
  pub small : p < 2 ^ 64

pub record IsAllocation (new : Allocation) : Type 0 where
  pub leaf : IsAddress new.leaf_ptr
  pub inode : IsAddress new.inode_ptr

-- The pointer leads to one of the addresses.
abbrev pub IsNew : Allocation → ℕ → Type 0
IsNew new p = (ptr p ≡ new.leaf_ptr) ⊎ (ptr p ≡ new.inode_ptr)

-- No pointer of the tree, whose root pointer is `node`, leads to one of the addresses.
abbrev pub IsUnused : Allocation → ℕ → Tree → Type 0
IsUnused new node t = (p : ℕ) → Held p node t → ¬ IsNew new p

-- A well-formed tree with one more entry. Its pointers are old ones or lead to the new nodes.
pub record IsInserted (new : Allocation) (d : ℕ) (t : Tree) (node : ℕ) (k v : List ℕ) (s : Slot)
    : Type 0 where
  pub tree : IsTree d s.tree
  pub tag : type s.ptr ≡ tag_of (node_type s.tree)
  pub present : 0 < s.ptr
  pub held : (p : ℕ) → Held p s.ptr s.tree → Held p node t ⊎ IsNew new p
  pub alone : ¬ Reaches s.ptr s.tree
  pub entries : (k' v' : List ℕ) → Has s.tree k' v' ↔ (((k' ≡ k) × (v' ≡ v)) ⊎ Has t k' v')

-- How an insertion ends: the key is there already and nothing is stored, or it is new.
pub data Inserted (new : Allocation) (d : ℕ) (t : Tree) (node : ℕ) (k v : List ℕ)
    (o : Outcome (Option Slot)) : Type 0 where
  exists : (w : List ℕ) → Has t k w → o ≡ ok none → Inserted new d t node k v o
  added :
      (s : Slot)
      → ((w : List ℕ) → ¬ Has t k w)
      → IsInserted new d t node k v s
      → o ≡ ok (some s)
      → Inserted new d t node k v o

-- A tagged address.
pub tag_ptr-lem :
    (p : ℕ) (t : NodeType)
    → IsAddress p
    → (type (tag_ptr p t) ≡ tag_of t) × (0 < tag_ptr p t) × (ptr (tag_ptr p t) ≡ p)
tag_ptr-lem p t a =
    let (back, tag, null) = ptr-tag_ptr p t a.aligned a.small in
    let some_node : tag_ptr p t ≢ nullptr =
      λ e. let (e', _) = null.0 e in omega (arith, a.present) in
    (tag, omega arith, back)

pub leaf_address : (p : ℕ) → IsAddress p → (type p ≡ tag_of leaf) × (ptr p ≡ p)
unfolding type ptr tag_of
leaf_address p a = let z = a.aligned in (z, omega arith)

pub make_db_leaf_ptr-ok :
    (new : Allocation) (k v : List ℕ)
    → IsKey k
    → length v ≤ max_size
    → make_db_leaf_ptr new k v ≡ ok (record { address = new.leaf_ptr; key_view = k })
unfolding make_db_leaf_ptr
make_db_leaf_ptr-ok new k v key fits = ground (arith, key.0)
