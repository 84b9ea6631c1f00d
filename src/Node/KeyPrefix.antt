-- ===== src/Node/KeyPrefix.antt =====
-- `key_prefix` (art_internal_impl.hpp), as its machine word: the bytes of the prefix from the
-- lowest byte of the word on, and their number in the highest byte.
pub mod Laws
pub mod Shared
pub mod Make
use unodb.Base.{ℕ, zero, suc, List, [], ◌∷◌, drop, ◌+◌, ◌-◌, ◌*◌, ◌/◌, ◌%◌, ◌^◌, ◌<◌, ◌≤◌}
use unodb.Base.Bits.{bit_or, bit_xor}
use unodb.Node.Simd.{countr_zero}

abbrev pub capacity : ℕ
capacity = 7

-- `u64 & key_bytes_mask`
abbrev pub key_bytes : ℕ → ℕ
key_bytes u = u % 2 ^ 56

unfoldable pub length_to_word : ℕ → ℕ
length_to_word length = length * 2 ^ 56 % 2 ^ 64

unfoldable pub length : ℕ → ℕ
length u = u / 2 ^ 56 % 256

-- `f.key_prefix[i]`
unfoldable pub byte_at : ℕ → ℕ → ℕ
byte_at u i = u / 2 ^ (8 * i) % 256

unfoldable pub shared_len : ℕ → ℕ → ℕ → ℕ
shared_len k1 k2 clamp_byte_pos =
    countr_zero 64 (bit_or 64 (bit_xor 64 k1 k2) (2 ^ (clamp_byte_pos * 8) % 2 ^ 64)) / 8

unfoldable pub get_shared_length : ℕ → ℕ → ℕ
get_shared_length u shifted_key = shared_len shifted_key u (length u)

-- The constructor that keeps the first bytes of another prefix.
unfoldable pub take : ℕ → ℕ → ℕ
take key_prefix_len source = bit_or 64 (key_bytes source) (length_to_word key_prefix_len)

unfoldable pub cut : ℕ → ℕ → ℕ
cut u cut_len = bit_or 64 (key_bytes (u / 2 ^ (cut_len * 8))) (length_to_word (length u - cut_len))

unfoldable pub prepend : ℕ → ℕ → ℕ → ℕ
prepend u prefix1 prefix2 =
    let prefix1_bit_length = length prefix1 * 8 in
    let prefix3 = u % 2 ^ (length u * 8) in
    let shifted_prefix3 = prefix3 * 2 ^ (prefix1_bit_length + 8) % 2 ^ 64 in
    let shifted_prefix2 = prefix2 * 2 ^ prefix1_bit_length % 2 ^ 64 in
    let masked_prefix1 = prefix1 % 2 ^ prefix1_bit_length in
    bit_or 64 (bit_or 64 (bit_or 64 shifted_prefix3 shifted_prefix2) masked_prefix1)
      (length_to_word (length u + length prefix1 + 1))

-- The first `n` bytes of a key, the first one lowest, as zero-padded word.
unfoldable pub word_of : ℕ → List ℕ → ℕ
word_of zero key = 0
word_of (suc n) [] = 0
word_of (suc n) (b ∷ key) = b + 256 * word_of n key

unfoldable pub get_u64 : List ℕ → ℕ
get_u64 key = word_of 8 key

-- `shifted_k2` is the word of the other key. A depth behind the key leaves no byte.
unfoldable pub make_u64 : List ℕ → ℕ → ℕ → ℕ
make_u64 k1 shifted_k2 depth =
    let k1_u64 = key_bytes (get_u64 (drop depth k1)) in
    bit_or 64 k1_u64 (length_to_word (shared_len k1_u64 shifted_k2 capacity))

-- A word whose length is that of a prefix.
abbrev pub IsPrefix : ℕ → Type 0
IsPrefix u = (u < 2 ^ 64) × (length u ≤ capacity)
