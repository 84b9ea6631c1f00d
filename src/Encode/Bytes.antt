-- ===== src/Encode/Bytes.antt =====
-- Integers in memory, `bswap` (portability_builtins.hpp), and `compare` (art_internal.hpp).
pub mod Order
pub mod Endian
use unodb.Base.{
  ℕ, zero, suc, ◌+◌, ◌*◌, ◌/◌, ◌%◌, ◌<◌, min, compare, Ordering, List, [], ◌∷◌, reverse, length,
  ltb, ◌==◌, if◌then◌else◌,
}

-- The object representation of an `n`-byte unsigned integer on a little-endian machine.
abbrev pub to_le : ℕ → ℕ → List ℕ
to_le zero v = []
to_le (suc n) v = v % 256 ∷ to_le n (v / 256)

-- The unsigned integer whose object representation is `bytes`.
abbrev pub of_le : List ℕ → ℕ
of_le [] = 0
of_le (b ∷ bytes) = b + 256 * of_le bytes

-- `bswap` at an integer type of `n` bytes.
unfoldable pub bswap : ℕ → ℕ → ℕ
bswap n x = of_le (reverse (to_le n x))

abbrev pub IsBytes : List ℕ → Type 0
IsBytes [] = Unit {0}
IsBytes (b ∷ bytes) = (b < 256) × IsBytes bytes

-- `std::memcmp`: the sign of its result.
unfoldable pub memcmp : ℕ → List ℕ → List ℕ → Ordering
memcmp (suc n) (a ∷ as_) (b ∷ bs) = elim (compare a b) [
  | Ordering.lt ↦ Ordering.lt
  | Ordering.eq ↦ memcmp n as_ bs
  | Ordering.gt ↦ Ordering.gt
]
memcmp _ _ _ = Ordering.eq

-- The last line of `compare`: with no difference in the shared bytes the lengths decide.
abbrev pub tie : Ordering → ℕ → ℕ → Ordering
tie Ordering.lt alen blen = Ordering.lt
tie Ordering.gt alen blen = Ordering.gt
tie Ordering.eq alen blen =
    if alen == blen then Ordering.eq else if ltb alen blen then Ordering.lt else Ordering.gt

-- `compare` of two keys, by the sign of its result.
unfoldable pub compare_keys : List ℕ → List ℕ → Ordering
unfolding memcmp
compare_keys a b =
    let alen = length a in
    let blen = length b in
    let shared_length = min alen blen in tie (memcmp shared_length a b) alen blen
