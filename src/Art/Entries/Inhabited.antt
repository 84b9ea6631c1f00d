-- ===== src/Art/Entries/Inhabited.antt =====
-- The entries of a well-formed tree.
use unodb.Base.{ℕ, refl, List}
use unodb.Node.Inode.Ends.{begin_child}
use unodb.Art.{Tree, leaf, inode}
use unodb.Art.Entries.{IsKey, Has, IsTree}

-- A well-formed tree has an entry.
pub inhabited : (t : Tree) (d : ℕ) → IsTree d t → (k : List ℕ) × (v : List ℕ) × Has t k v
inhabited (leaf key value) d tree = (key, value, (refl, refl))
inhabited (inode x sub) d (n, below, _) =
    let (r, c, got, on, m, least) = begin_child x n.valid in
    let (under, _, _) = below r.key_byte c m in
    let (k, v, h) = inhabited (sub c) _ under in (k, v, (r.key_byte, c, m, h))

pub Has-IsKey : (t : Tree) (d : ℕ) (k v : List ℕ) → IsTree d t → Has t k v → IsKey k
Has-IsKey (leaf key value) d k v tree (e, _) = rw e tree
Has-IsKey (inode x sub) d k v (n, below, _) (b, c, m, h) =
    let (under, _, _) = below b c m in Has-IsKey (sub c) _ k v under h
