-- ===== src/Encode/Decoder.antt =====
-- `key_decoder` (art_common.hpp).
pub mod Laws
use unodb.Base.{◌>>=◌, ℕ, ◌+◌, Option, none, some, List, length, take, drop, leb, if◌then◌else◌}
use unodb.Base.Int.{ℤ}
use unodb.Encode.Bytes.{of_le, bswap}
use unodb.Encode.Integral.{decode_signed}
use unodb.Encode.Encoder.{msb8, msb16, msb32, msb64}

pub record KeyDecoder : Type 0 where
  pub buf : List ℕ
  pub cap : ℕ
  pub off : ℕ

unfoldable pub new : List ℕ → KeyDecoder
new kv = record { buf = kv; cap = length kv; off = 0 }

-- `std::memcpy(&u, buf + off, n)` and `off += n`. The source does not test the bounds: a read past
-- the end, which is undefined there, is `none`.
unfoldable pub read : ℕ → KeyDecoder → Option (List ℕ × KeyDecoder)
read n d =
    if leb (d.off + n) d.cap
    then some (take n (drop d.off d.buf), record d { off = d.off + n })
    else none

unfoldable pub decode_u8 : KeyDecoder → Option (ℕ × KeyDecoder)
unfolding read
decode_u8 d = do (bytes, d') ← read 1 d; some (of_le bytes, d')

-- `decode` of an unsigned integer of `n` bytes; the source has it at 2, 4 and 8.
unfoldable pub decode_unsigned : ℕ → KeyDecoder → Option (ℕ × KeyDecoder)
unfolding read
decode_unsigned n d = do (bytes, d') ← read n d; some (bswap n (of_le bytes), d')

unfoldable pub decode_i8 : KeyDecoder → Option (ℤ × KeyDecoder)
unfolding decode_u8
decode_i8 d = do (u, d') ← decode_u8 d; some (decode_signed msb8 u, d')

unfoldable pub decode_i16 : KeyDecoder → Option (ℤ × KeyDecoder)
unfolding decode_unsigned
decode_i16 d = do (u, d') ← decode_unsigned 2 d; some (decode_signed msb16 u, d')

unfoldable pub decode_i32 : KeyDecoder → Option (ℤ × KeyDecoder)
unfolding decode_unsigned
decode_i32 d = do (u, d') ← decode_unsigned 4 d; some (decode_signed msb32 u, d')

unfoldable pub decode_i64 : KeyDecoder → Option (ℤ × KeyDecoder)
unfolding decode_unsigned
decode_i64 d = do (u, d') ← decode_unsigned 8 d; some (decode_signed msb64 u, d')
