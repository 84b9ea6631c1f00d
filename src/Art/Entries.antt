-- ===== src/Art/Entries.antt =====
-- The keys and values of a tree, and what makes a tree of 64-bit keys well-formed.
pub mod Keys
pub mod Put
pub mod Inhabited
pub mod Dropped
pub mod Rebase
pub mod Pair
use unodb.Base.{ℕ, suc, List, length, get_or, ◌+◌, ◌<◌, ◌≡◌, ◌≢◌, ◌⊎◌, Option, none, some}
use unodb.Node.KeyPrefix
use unodb.Node.KeyPrefix.{byte_at, IsPrefix}
use unodb.Node.Pointer
use unodb.Node.Pointer.{tag_of, type}
use unodb.Node.Inode.{Inode, get_key_prefix, Maps, IsValid}
use unodb.Art.{Tree, leaf, inode, Slot, Db, node_type}

-- `sizeof(std::uint64_t)`
abbrev pub key_size : ℕ
key_size = 8

-- A binary-comparable key.
abbrev pub IsKey : List ℕ → Type 0
IsKey k = (length k ≡ key_size) × ((i : ℕ) → get_or k i 0 < 256)

-- The tree has the key with the value.
abbrev pub Has : Tree → List ℕ → List ℕ → Type 0
Has (leaf key value) k v = (k ≡ key) × (v ≡ value)
Has (inode x sub) k v = (b : ℕ) × (c : ℕ) × Maps x b c × Has (sub c) k v

-- A node at depth `d`: the key prefix and the key byte lie inside the keys.
pub record IsNode (d : ℕ) (x : Inode) : Type 0 where
  pub valid : IsValid x
  pub prefix : IsPrefix (get_key_prefix x)
  pub short : d + KeyPrefix.length (get_key_prefix x) < key_size

-- A pointer in the tree, below its root, is `p`.
abbrev pub Reaches : ℕ → Tree → Type 0
Reaches p (leaf key value) = ⊥
Reaches p (inode x sub) = (b : ℕ) × (c : ℕ) × Maps x b c × ((p ≡ c) ⊎ Reaches p (sub c))

-- The same with the pointer to the root.
abbrev pub Held : ℕ → ℕ → Tree → Type 0
Held p c t = (p ≡ c) ⊎ Reaches p t

-- No two children of a node hold the same pointer, and no child holds its own below itself: every
-- node has one owner.
pub record IsOwner (x : Inode) (sub : ℕ → Tree) : Type 0 where
  pub disjoint :
      (a b c c' p : ℕ) → Maps x a c → Maps x b c' → Held p c (sub c) → Held p c' (sub c') → a ≡ b
  pub apart : (b c : ℕ) → Maps x b c → ¬ Reaches c (sub c)

-- The key has the bytes of the prefix `u` from the depth on, and then the byte `b`.
abbrev pub Follows : ℕ → ℕ → ℕ → List ℕ → Type 0
Follows d u b k =
    ((i : ℕ) → i < KeyPrefix.length u → get_or k (d + i) 0 ≡ byte_at u i)
    × (get_or k (d + KeyPrefix.length u) 0 ≡ b)

-- A well-formed tree whose root is at depth `d`. The pointers carry the types of the nodes, and
-- the keys follow the path.
abbrev pub IsTree : ℕ → Tree → Type 0
IsTree d (leaf key value) = IsKey key
IsTree d (inode x sub) =
    IsNode d x
    × ((b c : ℕ)
        → Maps x b c
        → IsTree (suc (d + KeyPrefix.length (get_key_prefix x))) (sub c)
          × (type c ≡ tag_of (node_type (sub c)))
          × ((k v : List ℕ) → Has (sub c) k v → Follows d (get_key_prefix x) b k))
    × IsOwner x sub

abbrev pub IsRoot : Slot → Type 0
IsRoot s =
    IsTree 0 s.tree
    × (type s.ptr ≡ tag_of (node_type s.tree))
    × (0 < s.ptr)
    × (¬ Reaches s.ptr s.tree)

abbrev pub IsDb : Db → Type 0
IsDb db = (s : Slot) → db.root ≡ some s → IsRoot s

-- A pointer of the database.
abbrev pub HeldIn : ℕ → Db → Type 0
HeldIn p db = (s : Slot) × (db.root ≡ some s) × Held p s.ptr s.tree

abbrev pub Stores : Db → List ℕ → List ℕ → Type 0
Stores db k v = (s : Slot) × (db.root ≡ some s) × Has s.tree k v
