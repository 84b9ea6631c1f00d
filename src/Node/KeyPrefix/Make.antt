-- ===== src/Node/KeyPrefix/Make.antt =====
-- The key prefix that two keys have in common from a depth on.
use unodb.Base.{
  ℕ, zero, suc, List, [], ◌∷◌, drop, get_or, ◌+◌, ◌*◌, ◌/◌, ◌<◌, ◌≡◌, refl, sym, ◌∙◌, arith,
}
use mathlib.Core.Path.{ap}
use unodb.Node.KeyPrefix.{
  key_bytes, length, byte_at, shared_len, word_of, get_u64, make_u64, IsPrefix,
}
use unodb.Node.KeyPrefix.Laws.{made, byte_at-key_bytes}
use unodb.Node.KeyPrefix.Shared.{IsShared, shared_len-IsShared, byte_at_zero, byte_at-suc}

byte_at-zero_word : (i : ℕ) → byte_at 0 i ≡ 0
byte_at-zero_word zero = byte_at_zero 0
byte_at-zero_word (suc i) = byte_at-suc 0 i ∙ byte_at-zero_word i

-- The bytes of a word are those of its key.
pub byte_at-word_of :
    (n : ℕ) (key : List ℕ) (i : ℕ)
    → ((j : ℕ) → get_or key j 0 < 256)
    → i < n
    → byte_at (word_of n key) i ≡ get_or key i 0
unfolding word_of
byte_at-word_of zero key i small h = absurd (omega arith)
byte_at-word_of (suc n) [] i small h = byte_at-zero_word i
byte_at-word_of (suc n) (b ∷ key) zero small h =
    let lt : b < 256 = small 0 in byte_at_zero (b + 256 * word_of n key) ∙ omega arith
byte_at-word_of (suc n) (b ∷ key) (suc i) small h =
    let lt : b < 256 = small 0 in
    let up : (b + 256 * word_of n key) / 256 ≡ word_of n key = omega arith in
    byte_at-suc (b + 256 * word_of n key) i
    ∙ ap (λ z. byte_at z i) up
    ∙ byte_at-word_of n key i (λ j. small (suc j)) (omega arith)

pub get_or-drop : (d : ℕ) (key : List ℕ) (i : ℕ) → get_or (drop d key) i 0 ≡ get_or key (d + i) 0
get_or-drop zero key i = let e : 0 + i ≡ i = omega arith in rw e refl
get_or-drop (suc d) [] i = refl
get_or-drop (suc d) (b ∷ key) i =
    let e : suc d + i ≡ suc (d + i) = omega arith in rw e (get_or-drop d key i)

-- The prefix that is made of a key, from a depth on, and the word of another key is well-formed,
-- its first seven bytes are those of the key from the depth on, with zeros behind its end, and its
-- length is the number of bytes that the two words share, at most seven.
pub make_u64-IsPrefix :
    (k1 : List ℕ) (shifted_k2 depth : ℕ)
    → ((i : ℕ) → get_or k1 i 0 < 256)
    → IsPrefix (make_u64 k1 shifted_k2 depth)
      × ((i : ℕ) → i < 7 → byte_at (make_u64 k1 shifted_k2 depth) i ≡ get_or k1 (depth + i) 0)
      × IsShared (get_u64 (drop depth k1)) shifted_k2 7 (length (make_u64 k1 shifted_k2 depth))
unfolding make_u64 get_u64
make_u64-IsPrefix k1 shifted_k2 depth small =
    let u = get_u64 (drop depth k1) in
    let (le, same, other) = shared_len-IsShared (key_bytes u) shifted_k2 7 (omega arith) in
    let t = shared_len (key_bytes u) shifted_k2 7 in
    let (size, len, bytes) = made u t le in
    (
      (size, omega (arith, len)),
      λ i h.
          bytes i h
          ∙ byte_at-word_of 8 (drop depth k1) i
              (λ j. rw (get_or-drop depth k1 j) (small (depth + j))) (omega arith)
          ∙ get_or-drop depth k1 i,
      rw len (
        le,
        (λ i h. sym (byte_at-key_bytes u i (omega arith)) ∙ same i h),
        λ h e. other h (byte_at-key_bytes u t h ∙ e),
      ),
    )
