-- ===== src/Node/Pointer/Laws.antt =====
-- The pointer and the type are read back from a tagged word.
use unodb.Base.{ℕ, ◌+◌, ◌*◌, ◌/◌, ◌%◌, ◌^◌, ◌<◌, ◌≡◌, ◌↔◌, refl, ◌∙◌, arith}
use mathlib.Core.Path.{ap}
use unodb.Base.Bits.{bit_or, bit_or-add_comm}
use unodb.Node.{nullptr}
use unodb.Node.Pointer.{
  NodeType, leaf, i4, i16, i48, i256, tag_of, mask_bits_needed, lowest_non_tag_bit, tag_ptr, type,
  ptr,
}

lowest_lem : lowest_non_tag_bit ≡ 8
unfolding lowest_non_tag_bit mask_bits_needed
lowest_lem = refl

tag_of-lt : (t : NodeType) → tag_of t < 5
unfolding tag_of
tag_of-lt leaf = omega arith
tag_of-lt i4 = omega arith
tag_of-lt i16 = omega arith
tag_of-lt i48 = omega arith
tag_of-lt i256 = omega arith

tag_of-zero : (t : NodeType) → tag_of t ≡ 0 → t ≡ leaf
unfolding tag_of
tag_of-zero leaf e = refl
tag_of-zero i4 e = absurd (omega arith)
tag_of-zero i16 e = absurd (omega arith)
tag_of-zero i48 e = absurd (omega arith)
tag_of-zero i256 e = absurd (omega arith)

tag_of-leaf : (t : NodeType) → t ≡ leaf → tag_of t ≡ 0
unfolding tag_of
tag_of-leaf t e = rw e refl

-- For an aligned pointer and a node type: the pointer and the type are read back from the tagged
-- word, and this word is that of nullptr only for the null pointer with the type of leaves.
pub ptr-tag_ptr :
    (p : ℕ) (t : NodeType)
    → p % lowest_non_tag_bit ≡ 0
    → p < 2 ^ 64
    → (ptr (tag_ptr p t) ≡ p)
      × (type (tag_ptr p t) ≡ tag_of t)
      × (tag_ptr p t ≡ nullptr ↔ (p ≡ nullptr) × (t ≡ leaf))
unfolding tag_ptr type ptr
ptr-tag_ptr p t aligned small =
    let low = lowest_lem in
    let whole : p ≡ 2 ^ 3 * (p / 8) = let a : p % 8 ≡ 0 = rw low at aligned in omega arith in
    let lt = tag_of-lt t in
    let e : tag_ptr p t ≡ tag_of t + 2 ^ 3 * (p / 8) =
      ap (λ x. bit_or 64 x (tag_of t)) whole
      ∙ bit_or-add_comm 64 3 (tag_of t) (p / 8) (omega arith) (omega arith) in
    rw (low, e)
      (
        omega arith,
        omega arith,
        (
          (λ z. (omega arith, tag_of-zero t (omega arith))),
          λ (z, z'). omega (arith, tag_of-leaf t z', z),
        ),
      )
