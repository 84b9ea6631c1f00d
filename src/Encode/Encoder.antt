-- ===== src/Encode/Encoder.antt =====
-- `key_encoder` (art_common.hpp): the encode overloads of integers and of text.
pub mod Laws
pub mod Order
pub mod InteriorPad
use unodb.Base.{
  ◌>>=◌, ℕ, zero, suc, ◌+◌, ◌-◌, ◌%◌, ◌^◌, Option, none, some, List, [], ◌∷◌, length, take, get_or,
  ltb, ◌==◌, if◌then◌else◌,
}
use unodb.Base.Int.{ℤ}
use unodb.Encode.Bytes.{to_le, bswap}
use unodb.Encode.Buffer.{Allocator, Buffer, memcpy, ensure_available, append_bytes}
use unodb.Encode.Integral.{encode_signed}

abbrev pub pad : ℕ
pad = 0

-- The largest 16-bit count, less a pad byte and the two bytes of the run length.
abbrev pub maxlen : ℕ
maxlen = 2 ^ 16 - 1 - 1 - 2

abbrev pub msb8 : ℕ
msb8 = 2 ^ 7

abbrev pub msb16 : ℕ
msb16 = 2 ^ 15

abbrev pub msb32 : ℕ
msb32 = 2 ^ 31

abbrev pub msb64 : ℕ
msb64 = 2 ^ 63

-- The loop over `sz` in `encode_text`: the length without the trailing pad bytes.
unfoldable pub strip : List ℕ → ℕ → ℕ
strip text zero = zero
strip text (suc n) = if get_or text n pad == pad then strip text n else suc n

-- `(text.size_bytes() > n) ? text.subspan(0, n) : text`
unfoldable pub truncate : ℕ → List ℕ → List ℕ
truncate n text = if ltb n (length text) then take n text else text

-- The view that `encode_text` encodes: truncated to `maxlen`, then without trailing pad bytes.
unfoldable pub normalize : List ℕ → List ℕ
normalize text = let cut = truncate maxlen text in take (strip cut (length cut)) cut

module _ (heap : Allocator) where
  unfoldable pub encode_u8 : Buffer → ℕ → Option Buffer
  encode_u8 b v = do
    b' ← ensure_available heap b 1
    some (record b' { buf = memcpy b'.buf b'.off (v ∷ []); off = b'.off + 1 })

  -- `encode` of an unsigned integer of `n` bytes; the source has it at 2, 4 and 8.
  unfoldable pub encode_unsigned : ℕ → Buffer → ℕ → Option Buffer
  encode_unsigned n b v = do
    b' ← ensure_available heap b n
    let u = bswap n v
    some (record b' { buf = memcpy b'.buf b'.off (to_le n u); off = b'.off + n })

  unfoldable pub encode_i8 : Buffer → ℤ → Option Buffer
  unfolding encode_u8
  encode_i8 b v = encode_u8 b (encode_signed msb8 v)

  unfoldable pub encode_i16 : Buffer → ℤ → Option Buffer
  unfolding encode_unsigned
  encode_i16 b v = encode_unsigned 2 b (encode_signed msb16 v)

  unfoldable pub encode_i32 : Buffer → ℤ → Option Buffer
  unfolding encode_unsigned
  encode_i32 b v = encode_unsigned 4 b (encode_signed msb32 v)

  unfoldable pub encode_i64 : Buffer → ℤ → Option Buffer
  unfolding encode_unsigned
  encode_i64 b v = encode_unsigned 8 b (encode_signed msb64 v)

  unfoldable pub encode_text : Buffer → List ℕ → Option Buffer
  encode_text b text = do
    let norm = normalize text
    let sz = length norm
    b₀ ← ensure_available heap b (sz + 1 + 2)
    let padlen = (maxlen - sz) % 2 ^ 16
    b₁ ← append_bytes heap b₀ norm
    b₂ ← encode_u8 b₁ pad
    encode_unsigned 2 b₂ padlen
