-- ===== src/Tests/Encode.antt =====
-- Keys encoded into a fresh buffer, over a heap that never fails.
use unodb.Base.{
  ℕ, ◌↔◌, ◌+◌, ◌<◌, ◌≡◌, refl, Option, none, some, List, [], ◌∷◌, ◌++◌, replicate, length-replicate,
  length, compare, Ordering, some_inj, arith,
}
use unodb.Base.Int.{ℤ, pos, negsuc, compare_ℤ}
use unodb.Encode.Bytes.{bswap, compare_keys}
use unodb.Encode.Bytes.Order.{lex, then_with}
use unodb.Encode.Buffer.{
  Allocator, Buffer, get_key_view, append_bytes, ensure_available, ensure_capacity, bit_ceil,
  bit_ceil_from,
}
use unodb.Encode.Buffer.Laws.{IsValid, IsCeil, append_bytes-view, append_bytes-bad_alloc}
use unodb.Encode.Integral.{encode_signed}
use unodb.Encode.Encoder.{
  encode_unsigned, encode_u8, encode_i8, encode_i16, encode_i32, encode_i64, encode_text, normalize,
  strip, truncate, pad, maxlen,
}
use unodb.Encode.Encoder.Laws.{text_field, Appends, encode_text-Appends}
use unodb.Encode.Encoder.Order.{
  compare_keys-encode_unsigned, compare_keys-encode_i64, compare_keys-encode_text,
}
use unodb.Encode.Encoder.InteriorPad.{encode_text_interior_pad}
use unodb.Encode.Decoder.{decode_i64}
use unodb.Encode.Decoder.Laws.{resume, finished, decode-encode_i64}

heap : Allocator
heap = record {
  block = λ now size. some (replicate size 0xaa);
  length-block = λ now size {b} e. sub e;
}
  where
    sub : {size : ℕ} {b : List ℕ} → some (replicate size 0xaa) ≡ some b → length b ≡ size
    sub {size} e = grind (arith, length-replicate {A = ℕ} size 0xaa, some_inj e)

-- An allocator that always fails.
full_heap : Allocator
full_heap = record { block = λ now size. none; length-block = λ now size {b} e. cc }

abbrev empty_key : Buffer
empty_key = record { buf = replicate 256 7; cap = 256; off = 0; owned = 0; now = 0 }

empty_key-IsValid : IsValid empty_key
empty_key-IsValid = record { block = refl; room = omega arith; inline = omega arith; owner = refl }

abbrev result : Option Buffer → Buffer
result none = empty_key
result (some b) = b

encoders : Unit {0}
unfolding heap full_heap append_bytes ensure_available ensure_capacity bit_ceil bit_ceil_from
    get_key_view encode_unsigned encode_u8 encode_i8 encode_i16 encode_i32 encode_i64 encode_text
    normalize strip truncate bswap encode_signed compare_keys then_with
encoders = tt

i64_result : (v : ℤ) → encode_i64 heap empty_key v ≡ some (result (encode_i64 heap empty_key v))
unfolding encode_i64 encode_unsigned ensure_available
i64_result v = refl

unsigned_result :
    (n v : ℕ)
    → n < 256
    → encode_unsigned heap n empty_key v ≡ some (result (encode_unsigned heap n empty_key v))
unfolding encode_unsigned ensure_available
unsigned_result n v h = ground arith

abbrev text_key : List ℕ → Buffer
text_key t = result (encode_text heap empty_key t)

-- "ab" and "abc"
abbrev ab : List ℕ
ab = 97 ∷ 98 ∷ []

abbrev abc : List ℕ
abc = 97 ∷ 98 ∷ 99 ∷ []

text_result_ab : encode_text heap empty_key ab ≡ some (text_key ab)
unfolding encoders
text_result_ab = refl

text_result_abc : encode_text heap empty_key abc ≡ some (text_key abc)
unfolding encoders
text_result_abc = refl

ab_view : get_key_view (text_key ab) ≡ 97 ∷ 98 ∷ 0 ∷ 255 ∷ 250 ∷ []
unfolding encoders
ab_view = refl

compare_keys-encode_text_example :
    compare_keys (get_key_view (text_key ab) ++ 9 ∷ []) (get_key_view (text_key abc) ++ 1 ∷ [])
    ≡ then_with (lex (truncate maxlen ab) (truncate maxlen abc)) (lex (9 ∷ []) (1 ∷ []))
compare_keys-encode_text_example =
    compare_keys-encode_text heap empty_key-IsValid empty_key-IsValid refl ab abc text_result_ab
      text_result_abc (omega arith, (omega arith, tt))
      (omega arith, (omega arith, (omega arith, tt))) (9 ∷ []) (1 ∷ [])

compare_keys-encode_i64_example :
    compare_keys
      (get_key_view (result (encode_i64 heap empty_key (negsuc 4))))
      (get_key_view (result (encode_i64 heap empty_key (pos 3))))
    ≡ compare_ℤ (negsuc 4) (pos 3)
compare_keys-encode_i64_example =
    compare_keys-encode_i64 heap empty_key-IsValid empty_key-IsValid refl (negsuc 4) (pos 3)
      (omega arith, omega arith) (omega arith, omega arith) (i64_result (negsuc 4))
      (i64_result (pos 3))

compare_keys-encode_unsigned_example :
    compare_keys
      (get_key_view (result (encode_unsigned heap 4 empty_key 70000)))
      (get_key_view (result (encode_unsigned heap 4 empty_key 300)))
    ≡ compare 70000 300
compare_keys-encode_unsigned_example =
    compare_keys-encode_unsigned heap empty_key-IsValid empty_key-IsValid refl 4 70000 300
      (omega arith) (omega arith) (unsigned_result 4 70000 (omega arith))
      (unsigned_result 4 300 (omega arith))

decode-encode_i64_example :
    decode_i64 (resume empty_key (result (encode_i64 heap empty_key (negsuc 4))))
    ≡ some (negsuc 4, finished (result (encode_i64 heap empty_key (negsuc 4))))
decode-encode_i64_example =
    decode-encode_i64 heap empty_key-IsValid (negsuc 4) (omega arith, omega arith)
      (i64_result (negsuc 4))

encode_text-Appends_example : Appends empty_key (text_field (normalize ab)) (text_key ab)
encode_text-Appends_example = encode_text-Appends heap empty_key-IsValid ab text_result_ab

abbrev long : List ℕ
long = replicate 300 5

long-result : append_bytes heap empty_key long ≡ some (result (append_bytes heap empty_key long))
unfolding encoders
long-result = refl

append_bytes-view_example :
    IsValid (result (append_bytes heap empty_key long))
    × (get_key_view (result (append_bytes heap empty_key long)) ≡ get_key_view empty_key ++ long)
append_bytes-view_example = append_bytes-view heap empty_key-IsValid long long-result

long_fails : append_bytes full_heap empty_key long ≡ none
unfolding encoders
long_fails = refl

append_bytes-bad_alloc_example : (append_bytes full_heap empty_key long ≡ none) ↔ (
    (empty_key.cap < empty_key.off + length long)
    × (size : ℕ) × IsCeil (empty_key.off + length long) size
    × (full_heap.block empty_key.now size ≡ none))
append_bytes-bad_alloc_example = append_bytes-bad_alloc full_heap empty_key long

-- "a" and "a\0b"
abbrev a_text : List ℕ
a_text = 97 ∷ []

abbrev a_nul_b : List ℕ
a_nul_b = a_text ++ pad ∷ 98 ∷ []

a_result : encode_text heap empty_key a_text ≡ some (text_key a_text)
unfolding encoders
a_result = refl

a_nul_b_result : encode_text heap empty_key a_nul_b ≡ some (text_key a_nul_b)
unfolding encoders
a_nul_b_result = refl

whole_a : normalize a_text ≡ a_text
unfolding encoders
whole_a = refl

whole_a_nul_b : normalize a_nul_b ≡ a_nul_b
unfolding encoders
whole_a_nul_b = refl

encode_text_interior_pad_example :
    (lex a_text a_nul_b ≡ Ordering.lt)
    × (compare_keys (get_key_view (text_key a_text)) (get_key_view (text_key a_nul_b))
        ≡ Ordering.gt)
encode_text_interior_pad_example =
    encode_text_interior_pad heap empty_key-IsValid empty_key-IsValid refl a_text 98 [] a_result
      a_nul_b_result whole_a whole_a_nul_b (omega arith)
