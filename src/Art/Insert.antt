-- ===== src/Art/Insert.antt =====
-- `insert_internal` (art.hpp) with `add_or_choose_subtree`, and `make_db_leaf_ptr`
-- (art_internal_impl.hpp).
pub mod Spec
pub mod Leaves
pub mod Splits
pub mod Descent
pub mod Laws
pub mod Errors
use Prim.Native.Nat.Ordering.{lt, eq, gt}
use unodb.Base.{
  ℕ, List, Option, none, some, Bool, true, false, get_or, drop, ltb, update, ◌+◌, ◌-◌, ◌^◌,
}
use unodb.Base
use unodb.Encode.Bytes.{compare_keys}
use unodb.Node.{Leaf}
use unodb.Node.KeyPrefix.{length, get_shared_length, get_u64}
use unodb.Node.Pointer.{tag_ptr, i4}
use unodb.Node.Split.{init_split, init_leaves}
use unodb.Node.Inode.{
  Inode, n4, Memory, get_key_prefix, set_key_prefix, get_children_count, find_child, set_child,
  type_of, add_to_nonfull, create_larger,
}
use unodb.Node.Inode.Resize.{is_full}
use unodb.Art.{Tree, leaf, inode, Slot, Db}

-- What a call ends with: a result, `std::length_error`, or a loop that leaves an array.
pub data Outcome (A : Type 0) : Type 0 where
  ok : A → Outcome A
  length_error : Outcome A
  out_of_range : Outcome A

infixl 5 ◌>>=◌
abbrev pub ◌>>=◌ : {A B : Type 0} → Outcome A → (A → Outcome B) → Outcome B
ok a >>= f = f a
length_error >>= f = length_error
out_of_range >>= f = out_of_range

abbrev pub of_option : {A : Type 0} → Option A → Outcome A
of_option none = out_of_range
of_option (some a) = ok a

-- The memory that the allocator gives to a call: the addresses of the leaf and of the internal
-- node, and what the memory holds.
pub record Allocation : Type 0 where
  pub leaf_ptr : ℕ
  pub inode_ptr : ℕ
  pub raw : Memory

-- `max_key_size` and `max_value_size`
abbrev pub max_size : ℕ
max_size = 2 ^ 32 - 1

unfoldable pub make_db_leaf_ptr : Allocation → List ℕ → List ℕ → Outcome Leaf
make_db_leaf_ptr new k v = elim (ltb max_size (Base.length k)) [
  | true ↦ length_error
  | false ↦ elim (ltb max_size (Base.length v)) [
    | true ↦ length_error
    | false ↦ ok (record { address = new.leaf_ptr; key_view = k })
  ]
]

-- A store through the pointer to the child pointer at an index.
abbrev pub store_child : ℕ → Inode → (ℕ → Tree) → ℕ → Slot → Slot
store_child node x sub i s = record {
  ptr = node;
  tree = inode (set_child x i s.ptr) (update sub s.ptr s.tree);
}

abbrev pub store_below : ℕ → Inode → (ℕ → Tree) → ℕ → Option Slot → Option Slot
store_below node x sub i none = none
store_below node x sub i (some s) = some (store_child node x sub i s)

-- The end of `add_or_choose_subtree`, where the key byte has no child: the node takes the leaf, or
-- a larger one does in its place.
unfoldable pub add_leaf : Allocation → Inode → (ℕ → Tree) → ℕ → List ℕ → List ℕ → ℕ → Outcome Slot
add_leaf new x sub node k v depth = do
  child ← make_db_leaf_ptr new k v
  let children = update sub child.address (leaf k v)
  elim (is_full x) [
    | true ↦ do
      larger_node ← of_option (create_larger new.raw x child depth)
      ok (record {
        ptr = tag_ptr new.inode_ptr (type_of larger_node);
        tree = inode larger_node children;
      })
    | false ↦ do
      y ← of_option (add_to_nonfull x child depth (get_children_count x))
      ok (record { ptr = node; tree = inode y children })
  ]

-- A new node of four over the leaf and the new one.
unfoldable pub split_leaf :
    Allocation → List ℕ → List ℕ → ℕ → List ℕ → List ℕ → List ℕ → ℕ → Outcome Slot
split_leaf new insert_key v node existing_key value remaining_key depth = do
  child ← make_db_leaf_ptr new insert_key v
  let new_node = init_leaves new.raw.for4 existing_key remaining_key depth node child.address
  let children = update (λ p. leaf existing_key value) child.address (leaf insert_key v)
  ok (record { ptr = tag_ptr new.inode_ptr i4; tree = inode (n4 new_node) children })

-- The same over an internal node whose key prefix is split.
unfoldable pub split_prefix :
    Allocation → List ℕ → List ℕ → ℕ → Inode → (ℕ → Tree) → ℕ → ℕ → Outcome Slot
split_prefix new insert_key v node x sub shared_prefix_len depth = do
  child ← make_db_leaf_ptr new insert_key v
  let made = init_split new.raw.for4 node (get_key_prefix x) shared_prefix_len depth child
  let children = update (λ p. inode (set_key_prefix x made.1) sub) child.address (leaf insert_key v)
  ok (record { ptr = tag_ptr new.inode_ptr i4; tree = inode (n4 made.0) children })

abbrev pub stored : Outcome Slot → Outcome (Option Slot)
stored o = o >>= λ s. ok (some s)

-- The loop of `insert_internal`. The result has what is stored through the pointer to the node's
-- own pointer; `none` is a key that is there already.
unfoldable pub insert_from :
    Allocation → List ℕ → List ℕ → ℕ → Tree → List ℕ → ℕ → Outcome (Option Slot)
insert_from new insert_key v node (leaf existing_key value) remaining_key depth =
    let split = stored (split_leaf new insert_key v node existing_key value remaining_key depth) in
    elim (compare_keys insert_key existing_key) [ lt ↦ split | eq ↦ ok none | gt ↦ split ]
insert_from new insert_key v node (inode x sub) remaining_key depth =
    let key_prefix = get_key_prefix x in
    let key_prefix_length = length key_prefix in
    let shared_prefix_len = get_shared_length key_prefix (get_u64 remaining_key) in
    elim (ltb shared_prefix_len key_prefix_length) [
      | true ↦ stored (split_prefix new insert_key v node x sub shared_prefix_len depth)
      | false ↦
          let depth' = depth + key_prefix_length in
          let remaining = drop key_prefix_length remaining_key in
          elim (find_child x (get_or remaining 0 0)) [
            | none ↦ stored (add_leaf new x sub node insert_key v depth')
            | some (i, c) ↦ do
              r ← insert_from new insert_key v c (sub c) (drop 1 remaining) (depth' + 1)
              ok (store_below node x sub i r)
          ]
    ]

unfoldable pub insert_internal : Allocation → Db → List ℕ → List ℕ → Outcome (Db × Bool)
insert_internal new db insert_key v = elim db.root [
  | none ↦ do
    child ← make_db_leaf_ptr new insert_key v
    ok (record { root = some (record { ptr = child.address; tree = leaf insert_key v }) }, true)
  | some s ↦ do
    r ← insert_from new insert_key v s.ptr s.tree insert_key 0
    ok (elim r [ none ↦ (db, false) | some s' ↦ (record { root = some s' }, true) ])
]
