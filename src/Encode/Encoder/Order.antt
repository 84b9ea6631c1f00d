-- ===== src/Encode/Encoder/Order.antt =====
-- The order of encoded keys is the order of what was encoded.
use unodb.Base.{
  ℕ, zero, suc, ◌-◌, ◌^◌, ◌≤◌, ◌<◌, ◌≡◌, refl, ◌∙◌, sym, ap, some, List, [], ◌∷◌, ◌++◌, length,
  take, get_or, compare, Ordering, append_assoc, arith, ltb,
}
use unodb.Base.{Bool-cases, inl, inr}
use mathlib.Core.Path.{ap₂}
use unodb.Base.Int.{ℤ, Fits, compare_ℤ}
use unodb.Encode.Bytes.{compare_keys}
use unodb.Encode.Bytes.Endian.{to_le-bswap}
use unodb.Encode.Bytes.Order.{
  lex, then_with, lex_append, lex-eq, compare_keys-lex, compare_keys-bswap,
}
use unodb.Encode.Buffer.{Allocator, Buffer, get_key_view}
use unodb.Encode.Buffer.Laws.{IsValid}
use unodb.Encode.Integral.Laws.{encode_signed-lt, compare-encode_signed}
use unodb.Encode.Encoder.{
  encode_unsigned, encode_i64, encode_text, normalize, strip, truncate, pad, maxlen, msb64,
}
use unodb.Encode.Encoder.Laws.{
  to_be, text_field, encode_unsigned-Appends, encode_i64-Appends, encode_text-Appends,
}

lex-to_be : (n v w : ℕ) → v < 256 ^ n → w < 256 ^ n → lex (to_be n v) (to_be n w) ≡ compare v w
lex-to_be n v w h k =
    sym (compare_keys-lex (to_be n v) (to_be n w))
    ∙ rw (to_le-bswap n v, to_le-bswap n w) at (compare_keys-bswap n v w h k)

-- Two keys with a common part in front compare as their rests do.
pub compare_views :
    (p x y : List ℕ) {v w : List ℕ} → v ≡ p ++ x → w ≡ p ++ y → compare_keys v w ≡ lex x y
compare_views p x y e f = rw (e, f) (compare_keys-lex (p ++ x) (p ++ y) ∙ lex_append p x y)

module _ (heap : Allocator) {b c : Buffer} (valid_b : IsValid b) (valid_c : IsValid c)
    (same : get_key_view b ≡ get_key_view c) where
  -- Two valid encoders hold the same key, and two unsigned integers of n bytes are encoded into
  -- them successfully. Then the two keys compare as the integers do.
  pub compare_keys-encode_unsigned :
      (n v w : ℕ) {b' c' : Buffer}
      → v < 256 ^ n
      → w < 256 ^ n
      → encode_unsigned heap n b v ≡ some b'
      → encode_unsigned heap n c w ≡ some c'
      → compare_keys (get_key_view b') (get_key_view c') ≡ compare v w
  compare_keys-encode_unsigned n v w hv hw e f =
      let (_, vb) = encode_unsigned-Appends heap valid_b n v e in
      let (_, vc) = encode_unsigned-Appends heap valid_c n w f in
      compare_views (get_key_view c) _ _ (rw same at vb) vc ∙ lex-to_be n v w hv hw

  -- Two valid encoders hold the same key, and two 64-bit signed integers are encoded into them
  -- successfully. Then the two keys compare as the integers do.
  pub compare_keys-encode_i64 :
      (v w : ℤ) {b' c' : Buffer}
      → Fits msb64 v
      → Fits msb64 w
      → encode_i64 heap b v ≡ some b'
      → encode_i64 heap c w ≡ some c'
      → compare_keys (get_key_view b') (get_key_view c') ≡ compare_ℤ v w
  compare_keys-encode_i64 v w hv hw e f =
      let (_, vb) = encode_i64-Appends heap valid_b v e in
      let (_, vc) = encode_i64-Appends heap valid_c w f in
      compare_views (get_key_view c) _ _ (rw same at vb) vc
      ∙ lex-to_be 8 _ _ (encode_signed-lt msb64 v (omega arith))
          (encode_signed-lt msb64 w (omega arith))
      ∙ compare-encode_signed msb64 v w hv hw

-- No byte of the text is the pad byte.
abbrev pub NoPad : List ℕ → Type 0
NoPad [] = Unit {0}
NoPad (x ∷ text) = (0 < x) × NoPad text

lex_padded :
    (s t x y : List ℕ)
    → NoPad s
    → NoPad t
    → lex (s ++ pad ∷ x) (t ++ pad ∷ y) ≡ then_with (lex s t) (lex x y)
unfolding then_with
lex_padded [] [] x y h k = ground arith
lex_padded [] (b ∷ t) x y h k = ground arith
lex_padded (a ∷ s) [] x y h k = ground arith
lex_padded (a ∷ s) (b ∷ t) x y h k = ground (arith, lex_padded s t x y h.1 k.1)

lex_same_run :
    (o : Ordering) (s t x y : List ℕ)
    → (o ≡ Ordering.eq → s ≡ t)
    → then_with o (lex (to_be 2 (maxlen - length s) ++ x) (to_be 2 (maxlen - length t) ++ y))
      ≡ then_with o (lex x y)
unfolding then_with
lex_same_run Ordering.lt s t x y h = refl
lex_same_run Ordering.gt s t x y h = refl
lex_same_run Ordering.eq s t x y h = rw (h refl) (lex_append (to_be 2 (maxlen - length t)) x y)

-- The field behind a text field decides only between equal texts.
pub lex-text_field :
    (s t x y : List ℕ)
    → NoPad s
    → NoPad t
    → lex (text_field s ++ x) (text_field t ++ y) ≡ then_with (lex s t) (lex x y)
lex-text_field s t x y h k =
    rw (append_assoc s _ x, append_assoc t _ y)
      (lex_padded s t _ _ h k ∙ lex_same_run (lex s t) s t x y (lex-eq s t))

get_or-NoPad : (text : List ℕ) (n : ℕ) → NoPad text → n < length text → 0 < get_or text n pad
get_or-NoPad [] n h k = absurd (omega arith)
get_or-NoPad (x ∷ text) zero h k = h.0
get_or-NoPad (x ∷ text) (suc n) h k = get_or-NoPad text n h.1 (omega arith)

strip-NoPad : (text : List ℕ) (n : ℕ) → NoPad text → n ≤ length text → strip text n ≡ n
unfolding strip
strip-NoPad text zero h k = refl
strip-NoPad text (suc n) h k = ground (arith, get_or-NoPad text n h k)

NoPad-take : (n : ℕ) (text : List ℕ) → NoPad text → NoPad (take n text)
NoPad-take zero text h = tt
NoPad-take (suc n) [] h = tt
NoPad-take (suc n) (x ∷ text) h = (h.0, NoPad-take n text h.1)

NoPad-truncate : (n : ℕ) (text : List ℕ) → NoPad text → NoPad (truncate n text)
unfolding truncate
NoPad-truncate n text h = elim (Bool-cases (ltb n (length text))) [
  | inl long ↦ rw long (NoPad-take n text h)
  | inr short ↦ rw short h
]

take-length {ℓ} : {A : Type ℓ} (xs : List A) → take (length xs) xs ≡ xs
take-length [] = refl
take-length (x ∷ xs) = ap (λ t. x ∷ t) (take-length xs)

-- Without pad bytes in the text only the truncation is left of the normalization.
pub normalize-NoPad :
    (text : List ℕ) → NoPad text → NoPad (normalize text) × (normalize text ≡ truncate maxlen text)
unfolding normalize
normalize-NoPad text h =
    let cut = truncate maxlen text in
    let free = NoPad-truncate maxlen text h in
    let whole : take (strip cut (length cut)) cut ≡ cut =
      rw (strip-NoPad cut (length cut) free (omega arith)) (take-length cut) in
    (rw whole free, whole)

module _ (heap : Allocator) {b c : Buffer} (valid_b : IsValid b) (valid_c : IsValid c)
    (same : get_key_view b ≡ get_key_view c) (s t : List ℕ) {b' c' : Buffer}
    (done_b : encode_text heap b s ≡ some b') (done_c : encode_text heap c t ≡ some c') where
  -- Two valid encoders hold the same key, two texts without NUL bytes are encoded into them
  -- successfully, and more bytes follow each. Then the two keys compare as the texts do, both cut
  -- to maxlen bytes, and the bytes behind them decide only between texts that are equal up to that
  -- length.
  pub compare_keys-encode_text :
      NoPad s
      → NoPad t
      → (x y : List ℕ)
      → compare_keys (get_key_view b' ++ x) (get_key_view c' ++ y)
        ≡ then_with (lex (truncate maxlen s) (truncate maxlen t)) (lex x y)
  compare_keys-encode_text hs ht x y =
      let (_, vb) = encode_text-Appends heap valid_b s done_b in
      let (_, vc) = encode_text-Appends heap valid_c t done_c in
      let (free_s, cut_s) = normalize-NoPad s hs in
      let (free_t, cut_t) = normalize-NoPad t ht in
      let p = get_key_view c in
      compare_views p (text_field (normalize s) ++ x) (text_field (normalize t) ++ y)
        (rw (vb, same) (append_assoc p _ x)) (rw vc (append_assoc p _ y))
      ∙ lex-text_field (normalize s) (normalize t) x y free_s free_t
      ∙ ap₂ (λ v w. then_with (lex v w) (lex x y)) cut_s cut_t
