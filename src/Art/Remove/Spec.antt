-- ===== src/Art/Remove/Spec.antt =====
-- What a removal promises.
use unodb.Base.{ℕ, ◌<◌, ◌≡◌, ◌≢◌, ◌↔◌, ◌⊎◌, List, Option, none, some}
use unodb.Node.Pointer.{tag_of, type, ptr}
use unodb.Art.{Tree, Slot, node_type}
use unodb.Art.Entries.{Has, IsTree, Held, Reaches}
use unodb.Art.Insert.{Allocation, Outcome, ok}

-- The pointer leads to the address for the new internal node.
abbrev pub IsNew : Allocation → ℕ → Type 0
IsNew new p = ptr p ≡ new.inode_ptr

abbrev pub IsUnused : Allocation → ℕ → Tree → Type 0
IsUnused new node t = (p : ℕ) → Held p node t → ¬ IsNew new p

-- A well-formed tree without the key. Its pointers are old ones or lead to the new node.
pub record IsWithout (new : Allocation) (d : ℕ) (t : Tree) (node : ℕ) (k : List ℕ) (s : Slot)
    : Type 0 where
  pub tree : IsTree d s.tree
  pub tag : type s.ptr ≡ tag_of (node_type s.tree)
  pub present : 0 < s.ptr
  pub held : (p : ℕ) → Held p s.ptr s.tree → Held p node t ⊎ IsNew new p
  pub alone : ¬ Reaches s.ptr s.tree
  pub entries : (k' v' : List ℕ) → Has s.tree k' v' ↔ ((k' ≢ k) × Has t k' v')

-- How a removal ends: the key is not there and nothing is stored, or it is removed.
pub data Removed (new : Allocation) (d : ℕ) (t : Tree) (node : ℕ) (k : List ℕ)
    (o : Outcome (Option Slot)) : Type 0 where
  absent : ((w : List ℕ) → ¬ Has t k w) → o ≡ ok none → Removed new d t node k o
  removed :
      (s : Slot) (w : List ℕ)
      → Has t k w
      → IsWithout new d t node k s
      → o ≡ ok (some s)
      → Removed new d t node k o
