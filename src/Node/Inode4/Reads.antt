-- ===== src/Node/Inode4/Reads.antt =====
-- Searching a node of four and stepping through it.
use unodb.Base.{
  ℕ, suc, ◌+◌, ◌-◌, ◌%◌, ◌≤◌, ◌<◌, ◌≡◌, refl, some, some_inj, Bool, Bool-cases, inl, inr, ◌==◌,
  ==_iff, arith,
}
use mathlib.Core.Path.{ap}
use unodb.Node.Spec.{IsFound, IsGte, IsLt}
use unodb.Node.Simd.{movemask, low_bits, countr_zero, cmpeq}
use unodb.Node.Simd.Laws.{lanes-zero, lanes-IsFirst}
use unodb.Node.Sorted.Scans
use unodb.Node.Sorted.Scans.{scan_up-IsGte, scan_down-IsLt, index-IsGte, index-IsLt}
use unodb.Node.Inode4.{
  Inode4, IsValid, Maps, keys_in_sse_reg, find_child, get_child, begin, last, next, prior,
  gte_key_byte, lte_key_byte,
}

find_child-IsFound :
    (x : Inode4) (b : ℕ) → IsValid x → IsFound (Maps x) (get_child x) b (find_child x b)
unfolding find_child get_child
find_child-IsFound x b v =
    let n = x.children_count in
    let f : ℕ → Bool = cmpeq b (keys_in_sse_reg x) in
    let fits : n ≤ 16 = omega (arith, v.most) in
    let bits = low_bits n (movemask 16 f) in
    elim (Bool-cases (bits == 0)) [
      | inl e ↦
          let unset = lanes-zero n f fits ((==_iff bits 0).0 e) in
          rw e (λ c (i, lt, k, _). absurd (ground (arith, unset i lt, v.most)))
      | inr e ↦
          let first = lanes-IsFirst n f fits (λ z. ground arith) in
          rw e (
            (countr_zero 32 bits, first.lt, ground (arith, first.set, first.lt, v.most), refl),
            refl,
          )
    ]

-- The index that is found stands for the byte.
pub find_child_index :
    (x : Inode4) (b i c : ℕ)
    → IsValid x
    → find_child x b ≡ some (i, c)
    → (i < x.children_count) × (x.keys i ≡ b)
unfolding find_child
find_child_index x b i c v got =
    let n = x.children_count in
    let f : ℕ → Bool = cmpeq b (keys_in_sse_reg x) in
    let fits : n ≤ 16 = omega (arith, v.most) in
    let bits = low_bits n (movemask 16 f) in
    elim (Bool-cases (bits == 0)) [
      | inl e ↦ absurd (let z = rw e at got in cc)
      | inr e ↦
          let first = lanes-IsFirst n f fits (λ z. ground arith) in
          let same : countr_zero 32 bits ≡ i = ap (λ r. r.0) (some_inj (rw e at got)) in
          let k : x.keys (countr_zero 32 bits) ≡ b = ground (arith, first.set, first.lt, v.most) in
          (rw same at first.lt, rw same at k)
    ]

module _ (x : Inode4) (v : IsValid x) where
  gte_key_byte-IsGte : (b : ℕ) → IsGte (Maps x) b (gte_key_byte x b)
  unfolding gte_key_byte
  gte_key_byte-IsGte b = scan_up-IsGte v.keyed x.key_prefix b

  lte_key_byte-IsLt : (b : ℕ) → IsLt (Maps x) (suc b) (lte_key_byte x b)
  unfolding lte_key_byte
  lte_key_byte-IsLt b = scan_down-IsLt v.keyed x.key_prefix b

  begin-IsGte : IsGte (Maps x) 0 (some (begin x))
  unfolding begin
  begin-IsGte =
      index-IsGte v.keyed x.key_prefix 0 0 (omega (arith, v.least)) (omega arith)
        (λ j h. absurd (omega arith))

  last-IsLt : IsLt (Maps x) 256 (some (last x))
  unfolding last
  last-IsLt =
      let i = x.children_count - 1 in
      index-IsLt v.keyed x.key_prefix 256 i (omega (arith, v.least))
        (v.keyed.bytes i (omega (arith, v.least))) (λ j h k. absurd (omega arith))

  module _ (i : ℕ) (lt : i < x.children_count) where
    next-IsGte : IsGte (Maps x) (suc (x.keys i)) (next x i)
    unfolding next
    next-IsGte =
        let small : (i + 1) % 256 ≡ suc i = omega (arith, v.most) in
        rw small (Scans.next-IsGte v.keyed x.key_prefix i lt)

    prior-IsLt : IsLt (Maps x) (x.keys i) (prior x i)
    unfolding prior
    prior-IsLt = Scans.prior-IsLt v.keyed x.key_prefix i lt

    -- For a valid node of four, a byte and an index below the count of children: find_child gives
    -- the byte's child and an index at which get_child has it, or nothing where the byte has none;
    -- begin and last give the least and the greatest byte that has a child; next and prior give
    -- the nearest bytes above and below the byte of the index, or nothing where there is none;
    -- gte_key_byte and lte_key_byte do so for the nearest byte from the given byte on, in each
    -- direction.
    pub reads_in_four :
        (b : ℕ)
        → IsFound (Maps x) (get_child x) b (find_child x b)
          × IsGte (Maps x) 0 (some (begin x))
          × IsLt (Maps x) 256 (some (last x))
          × IsGte (Maps x) (suc (x.keys i)) (next x i)
          × IsLt (Maps x) (x.keys i) (prior x i)
          × IsGte (Maps x) b (gte_key_byte x b)
          × IsLt (Maps x) (suc b) (lte_key_byte x b)
    reads_in_four b = (
      find_child-IsFound x b v,
      begin-IsGte,
      last-IsLt,
      next-IsGte,
      prior-IsLt,
      gte_key_byte-IsGte b,
      lte_key_byte-IsLt b,
    )
