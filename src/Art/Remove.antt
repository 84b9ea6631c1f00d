-- ===== src/Art/Remove.antt =====
-- `remove_internal` (art.hpp) with `remove_or_choose_subtree`.
pub mod Spec
pub mod Last
pub mod Leaves
pub mod Laws
pub mod Root
use unodb.Base.{
  ℕ, List, Option, none, some, Bool, true, false, get_or, drop, ltb, ◌+◌, ◌==◌, if◌then◌else◌,
}
use unodb.Node.KeyPrefix.{length, get_shared_length, get_u64}
use unodb.Node.Pointer.{tag_ptr}
use unodb.Node.Split.{leave_last_child}
use unodb.Node.Inode4.{Inode4}
use unodb.Node.Inode.{
  Inode, n4, n16, n48, n256, Memory, get_key_prefix, set_key_prefix, find_child, type_of,
  is_min_size, create_smaller,
}
use unodb.Node.Inode
use unodb.Art.{Tree, leaf, inode, Slot, Db, matches}
use unodb.Art.Insert.{Allocation, Outcome, ok, ◌>>=◌, of_option, store_below}

-- The key prefix of the child that is left, which a leaf does not have.
abbrev pub prefix_of : Tree → ℕ
prefix_of (leaf key value) = 0
prefix_of (inode x sub) = get_key_prefix x

abbrev pub with_prefix : Tree → ℕ → Tree
with_prefix (leaf key value) u = leaf key value
with_prefix (inode x sub) u = inode (set_key_prefix x u) sub

-- A node of the least size without one of its leaves: the other child of a node of four, or the
-- next smaller node.
unfoldable pub shrink : Allocation → Inode → (ℕ → Tree) → ℕ → Outcome Slot
shrink new (n4 x) sub child_i =
    let other = sub (x.children (if child_i == 0 then 1 else 0)) in
    let (ptr, key_prefix, reclaimed) = leave_last_child x child_i (prefix_of other) in
    ok (record { ptr = ptr; tree = with_prefix (sub ptr) key_prefix })
shrink new x sub child_i = do
  (new_node, reclaimed) ← of_option (create_smaller new.raw x child_i)
  ok (record { ptr = tag_ptr new.inode_ptr (type_of new_node); tree = inode new_node sub })

-- A node without one of its leaves.
unfoldable pub remove_leaf : Allocation → ℕ → Inode → (ℕ → Tree) → ℕ → Outcome Slot
remove_leaf new node x sub child_i = elim (is_min_size x) [
  | true ↦ shrink new x sub child_i
  | false ↦ ok (record { ptr = node; tree = inode (Inode.remove x child_i).0 sub })
]

-- The loop of `remove_internal`. The result has what is stored through the pointer to the node's
-- own pointer; `none` is a key that is not there. The loop never comes to a leaf, which is looked
-- at with its parent.
unfoldable pub remove_from : Allocation → List ℕ → ℕ → Tree → List ℕ → Outcome (Option Slot)
remove_from new remove_key node (leaf key value) remaining_key = ok none
remove_from new remove_key node (inode x sub) remaining_key =
    let key_prefix_length = length (get_key_prefix x) in
    elim (ltb (get_shared_length (get_key_prefix x) (get_u64 remaining_key)) key_prefix_length) [
      | true ↦ ok none
      | false ↦
          let remaining = drop key_prefix_length remaining_key in
          elim (find_child x (get_or remaining 0 0)) [
            | none ↦ ok none
            | some (i, c) ↦
                let below = remove_from new remove_key c (sub c) (drop 1 remaining) in
                elim (sub c) [
                  | leaf key value ↦ elim (matches key remove_key) [
                    | true ↦ do r ← remove_leaf new node x sub i; ok (some r)
                    | false ↦ ok none
                  ]
                  | inode y below_sub ↦ do r ← below; ok (store_below node x sub i r)
                ]
          ]
    ]

unfoldable pub remove_internal : Allocation → Db → List ℕ → Outcome (Db × Bool)
remove_internal new db remove_key = elim db.root [
  | none ↦ ok (db, false)
  | some s ↦ elim s.tree [
    | leaf key value ↦ elim (matches key remove_key) [
      | true ↦ ok (record { root = none }, true)
      | false ↦ ok (db, false)
    ]
    | inode x sub ↦ do
      r ← remove_from new remove_key s.ptr s.tree remove_key
      ok (elim r [ none ↦ (db, false) | some s' ↦ (record { root = some s' }, true) ])
  ]
]
