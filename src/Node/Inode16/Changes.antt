-- ===== src/Node/Inode16/Changes.antt =====
-- Adding a child to a node of sixteen and removing one.
use unodb.Base.{
  ℕ, suc, ◌+◌, ◌-◌, ◌%◌, ◌≤◌, ◌<◌, ◌≡◌, refl, Bool, true, leb, ◌==◌, ==_iff, Bool-cases, inl, inr,
  arith,
}
use native.Mathlib.Decide.{ℕ_discrete}
use unodb.Node.{Leaf, key_byte_at}
use unodb.Node.Spec.{IsAdded, IsRemoved}
use unodb.Node.Simd.{movemask, low_bits, countr_zero}
use unodb.Node.Simd.Laws.{lanes-zero, lanes-IsFirst}
use unodb.Node.Sorted.Arrays.{shift_up-insert_at, shift_down-remove_at}
use unodb.Node.Sorted.Entries.{IsPlace}
use unodb.Node.Sorted.Changed.{inserted, removed}
use unodb.Node.Inode16.{
  Inode16, IsValid, Maps, capacity, min_size, get_sorted_key_array_insert_position, add_to_nonfull,
  remove,
}

-- The first place whose key byte is not less is the place of a byte that the node does not map.
pub get_sorted_key_array_insert_position-IsPlace :
    (x : Inode16) (b : ℕ)
    → IsValid x
    → ((c : ℕ) → ¬ Maps x b c)
    → IsPlace x.children_count x.keys b (get_sorted_key_array_insert_position x b)
unfolding get_sorted_key_array_insert_position
get_sorted_key_array_insert_position-IsPlace x b v new =
    let n = x.children_count in
    let f : ℕ → Bool = λ i. leb b (x.keys i) in
    let bits = low_bits n (movemask 16 f) in
    elim (Bool-cases (bits == 0)) [
      | inl e ↦
          let unset = lanes-zero n f v.most ((==_iff bits 0).0 e) in
          rw e (record {
            le = omega arith;
            below = λ j h. ground (arith, unset j h);
            above = λ j h k. absurd (omega arith);
          })
      | inr e ↦
          let first = lanes-IsFirst n f v.most (λ z. ground arith) in
          let at = countr_zero 32 bits in
          rw e (record {
            le = omega (arith, first.lt);
            below = λ j h. ground (arith, first.before j h);
            above = λ j h k. above at first.set first.lt j h k;
          })
    ]
  where
    above :
        (i : ℕ)
        → leb b (x.keys i) ≡ true
        → i < x.children_count
        → (j : ℕ) → i ≤ j
        → j < x.children_count
        → b < x.keys j
    above i e lt j h k = elim (ℕ_discrete i j) [
      | yes same ↦ elim (ℕ_discrete (x.keys j) b) [
        | yes mapped ↦ absurd (new (x.children j) (j, k, mapped, refl))
        | no other ↦ let e' : leb b (x.keys j) ≡ true = rw same at e in ground arith
      ]
      | no less ↦ ground (arith, v.keyed.sorted i j (omega arith) k)
    ]

module _ (x : Inode16) (v : IsValid x) where
  module _ (child : Leaf) (depth : ℕ) (room : x.children_count < capacity)
      (byte : key_byte_at child depth < 256) (leaf : 0 < child.address)
      (new : (c : ℕ) → ¬ Maps x (key_byte_at child depth) c) where
    -- Adding a leaf to a valid node of sixteen with fewer than sixteen children, under a key byte
    -- that has no child, leaves a valid node that maps this byte to the leaf and all else as
    -- before.
    pub add_to_nonfull_in_sixteen :
        IsValid (add_to_nonfull x child depth x.children_count)
        × IsAdded
            (Maps x)
            (key_byte_at child depth)
            child.address
            (Maps (add_to_nonfull x child depth x.children_count))
    unfolding add_to_nonfull
    add_to_nonfull_in_sixteen =
        let n = x.children_count in
        let pos = get_sorted_key_array_insert_position x (key_byte_at child depth) in
        let place =
          get_sorted_key_array_insert_position-IsPlace x (key_byte_at child depth) v new in
        let whole : pos + (n - pos) ≡ n = omega (arith, place.le) in
        let one_more : (n + 1) % 256 ≡ suc n = omega arith in
        let (keyed, added) =
          inserted v.keyed place byte leaf
            (λ i h. shift_up-insert_at x.keys pos (n - pos) _ i (omega (arith, place.le)))
            (λ i h. shift_up-insert_at x.children pos (n - pos) _ i (omega (arith, place.le)))
            one_more in
        (record { keyed = keyed; least = omega (arith, v.least); most = omega arith }, added)

  module _ (child_index : ℕ) (lt : child_index < x.children_count)
      (more : min_size < x.children_count) where
    -- Removing the child at an index from a valid node of sixteen with more than five children
    -- leaves a valid node that maps all other bytes as before and this byte to nothing, and
    -- reclaims the child that the byte had.
    pub remove_in_sixteen :
        IsValid (remove x child_index).0
        × IsRemoved (Maps x) (x.keys child_index) (Maps (remove x child_index).0)
        × Maps x (x.keys child_index) (remove x child_index).1
    unfolding remove
    remove_in_sixteen =
        let n = x.children_count in
        let moved = n - 1 - child_index in
        let (keyed, gone) =
          removed v.keyed lt (λ i h. shift_down-remove_at x.keys child_index moved i (omega arith))
            (λ i h. shift_down-remove_at x.children child_index moved i (omega arith)) refl in
        (
          record { keyed = keyed; least = omega arith; most = omega (arith, v.most) },
          gone,
          (child_index, lt, refl, refl),
        )
