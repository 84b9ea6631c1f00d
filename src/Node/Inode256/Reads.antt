-- ===== src/Node/Inode256/Reads.antt =====
-- Searching a node of 256 and stepping through it.
use unodb.Base.{ℕ, suc, ◌+◌, ◌<◌, ◌≡◌, refl, Bool-cases, inl, inr, arith}
use unodb.Node.Spec.{IsFound, IsGte, IsLt}
use unodb.Node.Bytes.Laws.{IsTest, upward, downward}
use unodb.Node.Inode256.{
  Inode256, Maps, is_mapped, find_child, get_child, begin, last, next, prior, gte_key_byte,
  lte_key_byte,
}

test : (x : Inode256) → IsTest (Maps x) (is_mapped x) x.children
test x = record {
  sound = λ b lt set. (lt, ground arith, refl);
  complete = λ b c h. (h.0, ground arith);
}

find_child-IsFound :
    (x : Inode256) (b : ℕ) → b < 256 → IsFound (Maps x) (get_child x) b (find_child x b)
unfolding find_child get_child
find_child-IsFound x b lt = elim (Bool-cases (is_mapped x b)) [
  | inl e ↦ rw e ((lt, ground arith, refl), refl)
  | inr e ↦ rw e (λ c h. absurd (ground arith))
]

-- For a node of 256 and two bytes: find_child gives the child of the first byte and an index at
-- which get_child has it, or nothing where it has none; begin and last give the least and the
-- greatest byte that has a child, or nothing in a node without children; next and prior give the
-- nearest bytes above and below the second byte, or nothing where there is none; gte_key_byte and
-- lte_key_byte do so for the nearest byte from the first byte on, in each direction.
pub reads_in_all_bytes :
    (x : Inode256) (b i : ℕ)
    → b < 256
    → i < 256
    → IsFound (Maps x) (get_child x) b (find_child x b)
      × IsGte (Maps x) 0 (begin x)
      × IsLt (Maps x) 256 (last x)
      × IsGte (Maps x) (suc i) (next x i)
      × IsLt (Maps x) i (prior x i)
      × IsGte (Maps x) b (gte_key_byte x b)
      × IsLt (Maps x) (suc b) (lte_key_byte x b)
unfolding begin last next prior gte_key_byte lte_key_byte
reads_in_all_bytes x b i hb hi =
    let t = test x in
    let one_up_i : i + 1 ≡ suc i = omega arith in
    let one_up_b : b + 1 ≡ suc b = omega arith in
    (
      find_child-IsFound x b hb,
      upward t x.key_prefix 0 (omega arith),
      downward t x.key_prefix 256 (omega arith),
      rw one_up_i (upward t x.key_prefix (suc i) (omega arith)),
      downward t x.key_prefix i (omega arith),
      upward t x.key_prefix b (omega arith),
      rw one_up_b (downward t x.key_prefix (suc b) (omega arith)),
    )
