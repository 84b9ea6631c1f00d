-- ===== src/Encode/Decoder/Laws.antt =====
-- A decoder reads back what an encoder appended.
use unodb.Base.{
  ℕ, ◌+◌, ◌^◌, ◌<◌, ◌≡◌, refl, ap, some, List, [], ◌∷◌, ◌++◌, length, leb, arith, append_assoc,
  append-nil, length-append, true, take-append, drop-append,
}
use unodb.Base.Int.{ℤ, Fits}
use unodb.Encode.Bytes.{of_le, bswap}
use unodb.Encode.Bytes.Endian.{
  of_le-to_le, to_le-bswap, bswap-bswap, bswap-lt, length-reverse-to_le,
}
use unodb.Encode.Buffer.{Allocator, Buffer, get_key_view}
use unodb.Encode.Buffer.Laws.{IsValid}
use unodb.Encode.Integral.{encode_signed}
use unodb.Encode.Integral.Laws.{encode_signed-lt, decode-encode_signed}
use unodb.Encode.Encoder.{
  encode_u8, encode_unsigned, encode_i8, encode_i16, encode_i32, encode_i64, msb8, msb16, msb32,
  msb64,
}
use unodb.Encode.Encoder.Laws.{to_be, encode_u8-Appends, encode_unsigned-Appends}
use unodb.Encode.Decoder.{
  KeyDecoder, new, read, decode_u8, decode_unsigned, decode_i8, decode_i16, decode_i32, decode_i64,
}

-- A decoder that stands behind `front`, with `rest` left to decode.
abbrev pub at : List ℕ → List ℕ → KeyDecoder
at front rest = record { buf = front ++ rest; cap = length (front ++ rest); off = length front }

at_join :
    (front bytes rest : List ℕ)
    → at (front ++ bytes) rest
      ≡ record (at front (bytes ++ rest)) { off = length front + length bytes }
at_join front bytes rest = simp (append_assoc, length-append)

pub read-at :
    (front bytes rest : List ℕ) {n : ℕ}
    → length bytes ≡ n
    → read n (at front (bytes ++ rest)) ≡ some (bytes, at (front ++ bytes) rest)
unfolding read
read-at front bytes rest {n} h =
    let whole : length (front ++ (bytes ++ rest)) ≡ length front + (length bytes + length rest) =
      rw (length-append, length-append) refl in
    let inside : leb (length front + n) (length (front ++ (bytes ++ rest))) ≡ true =
      ground (arith, whole) in
    rw (
      read,
      inside,
      drop-append (length front) front (bytes ++ rest) refl,
      take-append n bytes rest h,
      at_join front bytes rest,
      h,
    )

value : (n v : ℕ) → v < 256 ^ n → bswap n (of_le (to_be n v)) ≡ v
value n v h = rw (← to_le-bswap n v, of_le-to_le n (bswap n v) (bswap-lt n v)) (bswap-bswap n v h)

pub decode_unsigned-at :
    (n v : ℕ) (front rest : List ℕ)
    → v < 256 ^ n
    → decode_unsigned n (at front (to_be n v ++ rest)) ≡ some (v, at (front ++ to_be n v) rest)
unfolding decode_unsigned
decode_unsigned-at n v front rest h =
    rw (read-at front (to_be n v) rest (length-reverse-to_le n v), decode_unsigned)
      (ap (λ (u : ℕ). some (u, at (front ++ to_be n v) rest)) (value n v h))

decode_u8-at :
    (v : ℕ) (front rest : List ℕ)
    → decode_u8 (at front (v ∷ rest)) ≡ some (v, at (front ++ v ∷ []) rest)
unfolding decode_u8
decode_u8-at v front rest =
    let one : of_le (v ∷ []) ≡ v = omega arith in
    rw (read-at front (v ∷ []) rest refl, decode_u8)
      (ap (λ (u : ℕ). some (u, at (front ++ v ∷ []) rest)) one)

-- The decoder that has read all of the key of `b`, set over the longer key of `b'`.
abbrev pub resume : Buffer → Buffer → KeyDecoder
resume b b' = record (new (get_key_view b')) { off = length (get_key_view b) }

-- The decoder that has read the whole key of `b'`.
abbrev pub finished : Buffer → KeyDecoder
finished b' = resume b' b'

resume-at :
    (b b' : Buffer) (bytes : List ℕ)
    → get_key_view b' ≡ get_key_view b ++ bytes
    → (resume b b' ≡ at (get_key_view b) (bytes ++ []))
      × (at (get_key_view b ++ bytes) [] ≡ finished b')
unfolding new
resume-at b b' bytes e = (rw (e, append-nil), rw (e, append-nil))

module _ (heap : Allocator) {b : Buffer} (valid : IsValid b) where
  -- An unsigned integer of n bytes is encoded successfully into a valid encoder. A decoder that
  -- stands where the encoder stood then reads the integer back and ends behind it.
  pub decode-encode_unsigned :
      (n v : ℕ) {b' : Buffer}
      → v < 256 ^ n
      → encode_unsigned heap n b v ≡ some b'
      → decode_unsigned n (resume b b') ≡ some (v, finished b')
  decode-encode_unsigned n v {b'} h e =
      let (_, view) = encode_unsigned-Appends heap valid n v e in
      let (start, stop) = resume-at b b' (to_be n v) view in
      rw (start, ← stop) (decode_unsigned-at n v (get_key_view b) [] h)

  decode-encode_u8 :
      (v : ℕ) {b' : Buffer}
      → encode_u8 heap b v ≡ some b'
      → decode_u8 (resume b b') ≡ some (v, finished b')
  decode-encode_u8 v {b'} e =
      let (_, view) = encode_u8-Appends heap valid v e in
      let (start, stop) = resume-at b b' (v ∷ []) view in
      rw (start, ← stop) (decode_u8-at v (get_key_view b) [])

  -- The same for the four signed widths.
  pub decode-encode_i8 :
      (v : ℤ) {b' : Buffer}
      → Fits msb8 v
      → encode_i8 heap b v ≡ some b'
      → decode_i8 (resume b b') ≡ some (v, finished b')
  unfolding encode_i8 decode_i8
  decode-encode_i8 v {b'} f e =
      rw (decode-encode_u8 (encode_signed msb8 v) e, decode_i8)
        (ap (λ (u : ℤ). some (u, finished b')) (decode-encode_signed msb8 v f))

  pub decode-encode_i16 :
      (v : ℤ) {b' : Buffer}
      → Fits msb16 v
      → encode_i16 heap b v ≡ some b'
      → decode_i16 (resume b b') ≡ some (v, finished b')
  unfolding encode_i16 decode_i16
  decode-encode_i16 v {b'} f e =
      let small = encode_signed-lt msb16 v (omega arith) in
      rw (decode-encode_unsigned 2 (encode_signed msb16 v) small e, decode_i16)
        (ap (λ (u : ℤ). some (u, finished b')) (decode-encode_signed msb16 v f))

  pub decode-encode_i32 :
      (v : ℤ) {b' : Buffer}
      → Fits msb32 v
      → encode_i32 heap b v ≡ some b'
      → decode_i32 (resume b b') ≡ some (v, finished b')
  unfolding encode_i32 decode_i32
  decode-encode_i32 v {b'} f e =
      let small = encode_signed-lt msb32 v (omega arith) in
      rw (decode-encode_unsigned 4 (encode_signed msb32 v) small e, decode_i32)
        (ap (λ (u : ℤ). some (u, finished b')) (decode-encode_signed msb32 v f))

  -- A 64-bit signed integer is encoded successfully into a valid encoder. A decoder that stands
  -- where the encoder stood then reads the integer back and ends behind it.
  pub decode-encode_i64 :
      (v : ℤ) {b' : Buffer}
      → Fits msb64 v
      → encode_i64 heap b v ≡ some b'
      → decode_i64 (resume b b') ≡ some (v, finished b')
  unfolding encode_i64 decode_i64
  decode-encode_i64 v {b'} f e =
      let small = encode_signed-lt msb64 v (omega arith) in
      rw (decode-encode_unsigned 8 (encode_signed msb64 v) small e, decode_i64)
        (ap (λ (u : ℤ). some (u, finished b')) (decode-encode_signed msb64 v f))
