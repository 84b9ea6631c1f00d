-- ===== src/Encode/Integral/Laws.antt =====
-- The signed encoding is reversible, and the unsigned order of the codes is the order of the values.
use unodb.Base.{ℕ, ◌+◌, ◌-◌, ◌*◌, ◌<◌, ◌≡◌, compare, arith}
use unodb.Base.Int.{ℤ, pos, negsuc, Fits, compare_ℤ}
use unodb.Encode.Integral.{encode_signed, decode_signed}

pub encode_signed-lt : (half : ℕ) (v : ℤ) → 0 < half → encode_signed half v < 2 * half
unfolding encode_signed
encode_signed-lt half (pos n) h = omega arith
encode_signed-lt half (negsuc n) h = omega arith

pub encode_signed_pos : (half n : ℕ) → n < half → encode_signed half (pos n) ≡ half + n
unfolding encode_signed
encode_signed_pos half n h = grind arith

pub encode_signed_negsuc : (half n : ℕ) → n < half → encode_signed half (negsuc n) ≡ half - 1 - n
unfolding encode_signed
encode_signed_negsuc half n h = grind arith

pub decode-encode_signed :
    (half : ℕ) (v : ℤ) → Fits half v → decode_signed half (encode_signed half v) ≡ v
unfolding decode_signed
decode-encode_signed half (pos n) f = rw (encode_signed_pos half n f.0) (ground arith)
decode-encode_signed half (negsuc n) f = rw (encode_signed_negsuc half n f.1) (ground arith)

-- The codes of two signed integers that fit the width, compared as unsigned integers, compare as
-- the signed integers do.
pub compare-encode_signed :
    (half : ℕ) (v w : ℤ)
    → Fits half v
    → Fits half w
    → compare (encode_signed half v) (encode_signed half w) ≡ compare_ℤ v w
compare-encode_signed half (pos n) (pos m) f g =
    rw (encode_signed_pos half n f.0, encode_signed_pos half m g.0) (ground arith)
compare-encode_signed half (pos n) (negsuc m) f g =
    rw (encode_signed_pos half n f.0, encode_signed_negsuc half m g.1) (ground arith)
compare-encode_signed half (negsuc n) (pos m) f g =
    rw (encode_signed_negsuc half n f.1, encode_signed_pos half m g.0) (ground arith)
compare-encode_signed half (negsuc n) (negsuc m) f g =
    rw (encode_signed_negsuc half n f.1, encode_signed_negsuc half m g.1) (ground arith)
