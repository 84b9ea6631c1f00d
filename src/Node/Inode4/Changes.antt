-- ===== src/Node/Inode4/Changes.antt =====
-- Adding a child to a node of four and removing one.
use unodb.Base.{ℕ, suc, ◌+◌, ◌-◌, ◌%◌, ◌<◌, ◌≡◌, ◌≢◌, refl, Bool, true, false, ltb, leb, arith}
use native.Mathlib.Decide.{dec_lt, ℕ_discrete}
use unodb.Node.{Leaf, key_byte_at}
use unodb.Node.Spec.{IsAdded, IsRemoved}
use unodb.Node.Simd.Laws.{lanes-IsCut}
use unodb.Node.Sorted.Arrays.{shift_up-insert_at, shift_down-remove_at}
use unodb.Node.Sorted.Entries.{IsPlace}
use unodb.Node.Sorted.Changed.{inserted, removed, IsPair, pair, IsPair-swap}
use unodb.Node.Inode4.{
  Inode4, IsValid, Maps, capacity, min_size, keys_in_sse_reg, get_insert_pos, add_to_nonfull,
  add_two_to_empty, remove,
}

-- The number of lesser key bytes is the place of a byte that the node does not map.
pub get_insert_pos-IsPlace :
    (x : Inode4) (b : ℕ)
    → IsValid x
    → ((c : ℕ) → ¬ Maps x b c)
    → IsPlace x.children_count x.keys b (get_insert_pos x b x.children_count)
unfolding get_insert_pos
get_insert_pos-IsPlace x b v new =
    let n = x.children_count in
    let f : ℕ → Bool = λ i. leb (keys_in_sse_reg x i) b in
    let cut =
      lanes-IsCut n f (omega (arith, v.most))
        (λ j h e. ground (arith, v.keyed.sorted j (suc j) (omega arith) h, v.most)) in
    record {
      le = cut.le;
      below = λ j h. below j (omega (arith, cut.le)) (cut.below j h);
      above = λ j h k. ground (arith, cut.above j h k, v.most);
    }
  where
    below : (j : ℕ) → j < x.children_count → leb (keys_in_sse_reg x j) b ≡ true → x.keys j < b
    below j lt e = elim (ℕ_discrete (x.keys j) b) [
      | yes same ↦ absurd (new (x.children j) (j, lt, same, refl))
      | no other ↦ ground (arith, v.most)
    ]

module _ (x : Inode4) (v : IsValid x) where
  module _ (child : Leaf) (depth : ℕ) (room : x.children_count < capacity)
      (byte : key_byte_at child depth < 256) (leaf : 0 < child.address)
      (new : (c : ℕ) → ¬ Maps x (key_byte_at child depth) c) where
    -- Adding a leaf to a valid node of four with fewer than four children, under a key byte that
    -- has no child, leaves a valid node that maps this byte to the leaf and all else as before.
    pub add_to_nonfull_in_four :
        IsValid (add_to_nonfull x child depth x.children_count)
        × IsAdded
            (Maps x)
            (key_byte_at child depth)
            child.address
            (Maps (add_to_nonfull x child depth x.children_count))
    unfolding add_to_nonfull
    add_to_nonfull_in_four =
        let n = x.children_count in
        let pos = get_insert_pos x (key_byte_at child depth) n in
        let place = get_insert_pos-IsPlace x (key_byte_at child depth) v new in
        let whole : pos + (n - pos) ≡ n = omega (arith, place.le) in
        let one_more : (n + 1) % 256 ≡ suc n = omega arith in
        let (keyed, added) =
          inserted v.keyed place byte leaf
            (λ i h. shift_up-insert_at x.keys pos (n - pos) _ i (omega (arith, place.le)))
            (λ i h. shift_up-insert_at x.children pos (n - pos) _ i (omega (arith, place.le)))
            one_more in
        (record { keyed = keyed; least = omega (arith, v.least); most = omega arith }, added)

  module _ (child_index : ℕ) (lt : child_index < x.children_count)
      (more : min_size < x.children_count) where
    -- Removing the child at an index from a valid node of four with more than two children leaves
    -- a valid node that maps all other bytes as before and this byte to nothing, and reclaims the
    -- child that the byte had.
    pub remove_in_four :
        IsValid (remove x child_index).0
        × IsRemoved (Maps x) (x.keys child_index) (Maps (remove x child_index).0)
        × Maps x (x.keys child_index) (remove x child_index).1
    unfolding remove
    remove_in_four =
        let n = x.children_count in
        let moved = n - 1 - child_index in
        let (keyed, gone) =
          removed v.keyed lt (λ i h. shift_down-remove_at x.keys child_index moved i (omega arith))
            (λ i h. shift_down-remove_at x.children child_index moved i (omega arith)) refl in
        (
          record { keyed = keyed; least = omega arith; most = omega (arith, v.most) },
          gone,
          (child_index, lt, refl, refl),
        )

-- In a node whose count is two, storing two children under two different key bytes leaves a valid
-- node that maps these two bytes to their children and no other byte.
pub add_two_to_empty-Maps :
    (x : Inode4) (key1 child1 key2 child2 : ℕ)
    → x.children_count ≡ min_size
    → key1 ≢ key2
    → key1 < 256
    → key2 < 256
    → 0 < child1
    → 0 < child2
    → IsValid (add_two_to_empty x key1 child1 key2 child2)
      × IsPair key1 child1 key2 child2 (Maps (add_two_to_empty x key1 child1 key2 child2))
unfolding add_two_to_empty
add_two_to_empty-Maps x key1 child1 key2 child2 two ne h1 h2 p1 p2 = elim (dec_lt key1 key2) [
  | yes lt ↦
      let first : ltb key1 key2 ≡ true = ground arith in
      let (keyed, maps) =
        pair two (ground arith, ground arith) (ground arith, ground arith) lt h2 p1 p2 in
      rw first (record { keyed = keyed; least = omega arith; most = omega arith }, maps)
  | no ge ↦
      let second : ltb key1 key2 ≡ false = ground arith in
      let (keyed, maps) =
        pair two (ground arith, ground arith) (ground arith, ground arith) (omega arith) h1 p2 p1 in
      rw second
        (record { keyed = keyed; least = omega arith; most = omega arith }, IsPair-swap maps)
]
