-- ===== src/Art/Delete.antt =====
-- `delete_subtree` of the nodes and of `basic_art_policy` (art_internal_impl.hpp), and
-- `db::delete_root_subtree` and `db::clear` (art.hpp). The results are the node pointers whose nodes are freed, in
-- order.
pub mod Laws
pub mod Once
use unodb.Base.{ℕ, zero, suc, List, [], ◌∷◌, ◌++◌, none, some, true, false, ◌==◌}
use unodb.Node.{nullptr}
use unodb.Node.Inode.{Inode, n4, n16, n48, n256}
use unodb.Node.Inode48
use unodb.Art.{Tree, leaf, inode, Db}

-- The loop over the children of a node of four or sixteen.
unfoldable pub delete_each : (ℕ → List ℕ) → (ℕ → ℕ) → ℕ → List ℕ
delete_each delete_child children zero = []
delete_each delete_child children (suc n) =
    delete_each delete_child children n ++ delete_child (children n)

-- The loop over the places of a larger node, which leaves out the empty ones.
unfoldable pub delete_present : (ℕ → List ℕ) → (ℕ → ℕ) → ℕ → List ℕ
delete_present delete_child children zero = []
delete_present delete_child children (suc n) =
    let before = delete_present delete_child children n in
    elim (children n == nullptr) [ true ↦ before | false ↦ before ++ delete_child (children n) ]

-- `delete_subtree` of the node classes
abbrev pub delete_children : (ℕ → List ℕ) → Inode → List ℕ
delete_children delete_child (n4 x) = delete_each delete_child x.children x.children_count
delete_children delete_child (n16 x) = delete_each delete_child x.children x.children_count
delete_children delete_child (n48 x) = delete_present delete_child x.pointer_array Inode48.capacity
delete_children delete_child (n256 x) = delete_present delete_child x.children 256

-- `basic_art_policy::delete_subtree`: the node itself is freed at the end of the scope.
unfoldable pub delete_subtree : Tree → ℕ → List ℕ
delete_subtree (leaf key value) node = node ∷ []
delete_subtree (inode x sub) node = delete_children (λ c. delete_subtree (sub c) c) x ++ node ∷ []

unfoldable pub delete_root_subtree : Db → List ℕ
delete_root_subtree db = elim db.root [ none ↦ [] | some s ↦ delete_subtree s.tree s.ptr ]

-- The freed node pointers, and the database that is left.
unfoldable pub clear : Db → List ℕ × Db
clear db = (delete_root_subtree db, record { root = none })
