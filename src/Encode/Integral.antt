-- ===== src/Encode/Integral.antt =====
-- The signed `encode` and `decode` overloads of `key_encoder` and `key_decoder` (art_common.hpp),
-- without the buffer. `half` is the weight of the sign bit: `msb8`, `msb16`, `msb32`, `msb64`.
pub mod Laws
use unodb.Base.{ℕ, ◌+◌, ◌-◌, ◌*◌, ◌%◌, leb, if◌then◌else◌}
use unodb.Base.Int.{ℤ, pos, negsuc}

-- `(v >= 0) ? msb + v : msb - (-(v + 1)) - 1` in the unsigned type of `2 * half` values, where a
-- subtraction wraps. For `v = negsuc n`, `-(v + 1)` is `n`.
unfoldable pub encode_signed : ℕ → ℤ → ℕ
encode_signed half (pos n) = (half + n % (2 * half)) % (2 * half)
encode_signed half (negsuc n) = (half + 2 * half + 2 * half - n % (2 * half) - 1) % (2 * half)

-- `(u >= msb) ? u - msb : -(msb - 1 - u) - 1`; at the narrow types the source writes `~` for the
-- negation less one.
unfoldable pub decode_signed : ℕ → ℕ → ℤ
decode_signed half u = if leb half u then pos (u - half) else negsuc (half - 1 - u)
