-- ===== src/Node/Inode256/Changes.antt =====
-- Adding a child to a node of 256 and removing one.
use unodb.Base.{ℕ, ◌<◌, ◌≡◌, refl, sym, inl, inr, arith}
use native.Mathlib.Decide.{ℕ_discrete}
use unodb.Node.{Leaf, key_byte_at}
use unodb.Node.Spec.{IsAdded, IsRemoved}
use unodb.Node.Slots.{tally}
use unodb.Node.Slots.Laws.{tally-store, tally-clear}
use unodb.Node.Inode256.{Inode256, IsValid, Maps, min_size, add_to_nonfull, remove}

module _ (x : Inode256) (v : IsValid x) where
  module _ (child : Leaf) (depth : ℕ) (byte : key_byte_at child depth < 256)
      (leaf : 0 < child.address) (new : (c : ℕ) → ¬ Maps x (key_byte_at child depth) c) where
    -- Adding a leaf to a valid node of 256, under a key byte that has no child, leaves a valid
    -- node that maps this byte to the leaf and all else as before.
    pub add_to_nonfull_in_all_bytes :
        IsValid (add_to_nonfull x child depth x.children_count)
        × IsAdded
            (Maps x)
            (key_byte_at child depth)
            child.address
            (Maps (add_to_nonfull x child depth x.children_count))
    unfolding add_to_nonfull
    add_to_nonfull_in_all_bytes =
        let b = key_byte_at child depth in
        let empty : x.children b ≡ 0 = elim (ℕ_discrete (x.children b) 0) [
          | yes e ↦ e
          | no ne ↦ absurd (new (x.children b) (byte, omega arith, refl))
        ] in
        let more = tally-store 0 x.children 256 b child.address byte empty (λ z. omega arith) in
        (
          record { counted = omega (arith, v.counted, more); least = omega (arith, v.least, more) },
          λ b' c'. elim (ℕ_discrete b b') [
            | yes e ↦ (
              λ q. inl (sym e, ground arith),
              λ q. elim q [
                | inl (_, f) ↦ (ground arith, ground arith, ground arith)
                | inr (h, k, f) ↦ absurd (ground arith)
              ],
            )
            | no ne ↦ (
              λ q. inr (q.0, q.1, ground arith),
              λ q. elim q [
                | inl (f, _) ↦ absurd (ne (sym f))
                | inr (h, k, f) ↦ (h, k, ground arith)
              ],
            )
          ],
        )

  module _ (child_index : ℕ) (lt : child_index < 256) (present : 0 < x.children child_index)
      (more : min_size < tally 0 x.children 256) where
    -- Removing the child of a byte that has one from a valid node of 256 with more than 49
    -- children leaves a valid node that maps all other bytes as before and this byte to nothing,
    -- and reclaims the child that the byte had.
    pub remove_in_all_bytes :
        IsValid (remove x child_index).0
        × IsRemoved (Maps x) child_index (Maps (remove x child_index).0)
        × Maps x child_index (remove x child_index).1
    unfolding remove
    remove_in_all_bytes =
        let less = tally-clear 0 x.children 256 child_index lt (λ z. omega arith) in
        (
          record { counted = omega (arith, v.counted, less); least = omega (arith, less) },
          λ b' c'. (
            λ q. (λ e. ground arith, (q.0, q.1, ground arith)),
            λ (ne, (h, k, f)). (h, k, ground arith),
          ),
          (lt, present, refl),
        )
