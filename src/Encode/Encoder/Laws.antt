-- ===== src/Encode/Encoder/Laws.antt =====
-- What each `encode` appends to the key.
use unodb.Base.{
  >>=-eq-some, ℕ, ◌+◌, ◌-◌, ◌%◌, ◌^◌, ◌≤◌, ◌≡◌, ◌∙◌, sym, some, List, [], ◌∷◌, ◌++◌, reverse,
  length, append_assoc, length-take, arith,
}
use unodb.Base.Int.{ℤ}
use unodb.Encode.Bytes.{to_le}
use unodb.Encode.Bytes.Endian.{to_le-bswap, length-reverse-to_le}
use unodb.Encode.Buffer.{Allocator, Buffer, ensure_available, append_bytes, get_key_view}
use unodb.Encode.Buffer.Laws.{IsValid, append_bytes-view, ensure_available-Grows}
use unodb.Encode.Integral.{encode_signed}
use unodb.Encode.Encoder.{
  encode_u8, encode_unsigned, encode_i8, encode_i16, encode_i32, encode_i64, encode_text, normalize,
  pad, maxlen, msb8, msb16, msb32, msb64, truncate,
}

-- High byte first.
abbrev pub to_be : ℕ → ℕ → List ℕ
to_be n v = reverse (to_le n v)

-- `b'` is `b` with `bytes` appended.
abbrev pub Appends : Buffer → List ℕ → Buffer → Type 0
Appends b bytes b' = IsValid b' × (get_key_view b' ≡ get_key_view b ++ bytes)

module _ (heap : Allocator) {b : Buffer} (valid : IsValid b) where
  encode_unsigned-append : (n v : ℕ) → encode_unsigned heap n b v ≡ append_bytes heap b (to_be n v)
  unfolding encode_unsigned append_bytes
  encode_unsigned-append n v = rw (to_le-bswap n v, append_bytes, length-reverse-to_le n v)

  pub encode_u8-Appends :
      (v : ℕ) {b' : Buffer} → encode_u8 heap b v ≡ some b' → Appends b (v ∷ []) b'
  unfolding encode_u8 append_bytes
  encode_u8-Appends v h = append_bytes-view heap valid (v ∷ []) h

  pub encode_unsigned-Appends :
      (n v : ℕ) {b' : Buffer} → encode_unsigned heap n b v ≡ some b' → Appends b (to_be n v) b'
  encode_unsigned-Appends n v h =
      append_bytes-view heap valid (to_be n v) (sym (encode_unsigned-append n v) ∙ h)

  -- The four signed overloads append the code of the value, high byte first.
  pub encode_i8-Appends :
      (v : ℤ) {b' : Buffer}
      → encode_i8 heap b v ≡ some b'
      → Appends b (encode_signed msb8 v ∷ []) b'
  unfolding encode_i8
  encode_i8-Appends v h = encode_u8-Appends (encode_signed msb8 v) h

  pub encode_i16-Appends :
      (v : ℤ) {b' : Buffer}
      → encode_i16 heap b v ≡ some b'
      → Appends b (to_be 2 (encode_signed msb16 v)) b'
  unfolding encode_i16
  encode_i16-Appends v h = encode_unsigned-Appends 2 (encode_signed msb16 v) h

  pub encode_i32-Appends :
      (v : ℤ) {b' : Buffer}
      → encode_i32 heap b v ≡ some b'
      → Appends b (to_be 4 (encode_signed msb32 v)) b'
  unfolding encode_i32
  encode_i32-Appends v h = encode_unsigned-Appends 4 (encode_signed msb32 v) h

  pub encode_i64-Appends :
      (v : ℤ) {b' : Buffer}
      → encode_i64 heap b v ≡ some b'
      → Appends b (to_be 8 (encode_signed msb64 v)) b'
  unfolding encode_i64
  encode_i64-Appends v h = encode_unsigned-Appends 8 (encode_signed msb64 v) h

-- The bytes of a text field: the text, a pad byte and the length of the run of pad bytes.
abbrev pub text_field : List ℕ → List ℕ
text_field text = text ++ (pad ∷ to_be 2 (maxlen - length text))

length-truncate-le : (n : ℕ) (text : List ℕ) → length (truncate n text) ≤ n
unfolding truncate
length-truncate-le n text = ground (arith, length-take n text)

pub length-normalize-le : (text : List ℕ) → length (normalize text) ≤ maxlen
unfolding normalize
length-normalize-le text =
    let cut = truncate maxlen text in rw length-take (omega (arith, length-truncate-le maxlen text))

-- Three appends in a row.
appends_join :
    (a x y z : List ℕ) {a₀ b c d : List ℕ}
    → a₀ ≡ a
    → b ≡ a₀ ++ x
    → c ≡ b ++ y
    → d ≡ c ++ z
    → d ≡ a ++ (x ++ (y ++ z))
appends_join a x y z e f g h = simp (h, g, f, e, append_assoc)

module _ (heap : Allocator) {b : Buffer} (valid : IsValid b) where
  -- Encoding a text successfully into a valid encoder leaves a valid encoder whose key has, behind
  -- the old bytes, the normalized text, a pad byte and the run length of the padding, high byte
  -- first.
  pub encode_text-Appends :
      (text : List ℕ) {b' : Buffer}
      → encode_text heap b text ≡ some b'
      → Appends b (text_field (normalize text)) b'
  unfolding encode_text
  encode_text-Appends text {b'} h =
      let norm = normalize text in
      let sz = length norm in
      let (b₀, e₀, h₀) = >>=-eq-some (ensure_available heap b (sz + 1 + 2)) _ h in
      let (b₁, e₁, h₁) = >>=-eq-some (append_bytes heap b₀ norm) _ h₀ in
      let (b₂, e₂, h₂) = >>=-eq-some (encode_u8 heap b₁ pad) _ h₁ in
      let g = ensure_available-Grows heap valid (sz + 1 + 2) e₀ in
      let (valid₁, view₁) = append_bytes-view heap g.valid norm e₁ in
      let (valid₂, view₂) = encode_u8-Appends heap valid₁ pad e₂ in
      let (valid₃, view₃) = encode_unsigned-Appends heap valid₂ 2 _ h₂ in
      let small : (maxlen - sz) % 2 ^ 16 ≡ maxlen - sz = omega arith in
      (
        valid₃,
        rw small at (
            appends_join (get_key_view b) norm (pad ∷ []) (to_be 2 ((maxlen - sz) % 2 ^ 16)) g.keeps
              view₁ view₂ view₃),
      )
