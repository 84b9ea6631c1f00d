-- ===== src/Encode/Encoder/InteriorPad.antt =====
-- `encode_text` on a text with a pad byte inside it.
use unodb.Base.{
  ℕ, ◌-◌, ◌/◌, ◌<◌, ◌≡◌, ◌∙◌, some, List, [], ◌∷◌, ◌++◌, length, Ordering, arith, append-nil,
  append_assoc,
}
use unodb.Encode.Bytes.{compare_keys}
use unodb.Encode.Bytes.Order.{lex, then_with, lex_append}
use unodb.Encode.Buffer.{Allocator, Buffer, get_key_view}
use unodb.Encode.Buffer.Laws.{IsValid}
use unodb.Encode.Encoder.{encode_text, normalize, pad, maxlen}
use unodb.Encode.Encoder.Laws.{text_field, encode_text-Appends}
use unodb.Encode.Encoder.Order.{compare_views}

lex_prefix : (s : List ℕ) (x : ℕ) (r : List ℕ) → lex s (s ++ x ∷ r) ≡ Ordering.lt
lex_prefix s x r = rw (append-nil s) at (lex_append s [] (x ∷ r))

run_first :
    (s r : List ℕ) (c : ℕ)
    → c < (maxlen - length s) / 256
    → lex (text_field s) (s ++ pad ∷ c ∷ r) ≡ Ordering.gt
unfolding then_with
run_first s r c h = lex_append s _ (pad ∷ c ∷ r) ∙ ground arith

module _ (heap : Allocator) {b c : Buffer} (valid_b : IsValid b) (valid_c : IsValid c)
    (same : get_key_view b ≡ get_key_view c) (s : List ℕ) (x : ℕ) (r : List ℕ) {b' c' : Buffer}
    (done_b : encode_text heap b s ≡ some b')
    (done_c : encode_text heap c (s ++ pad ∷ x ∷ r) ≡ some c') where
  -- Two valid encoders hold the same key. A text s and the text that goes on behind s with a NUL
  -- byte and a byte below the high byte of the run length of s are both unchanged by the
  -- normalization, and are encoded into them successfully. Then s is the lesser text and its key
  -- is the greater key.
  pub encode_text_interior_pad :
      normalize s ≡ s
      → normalize (s ++ pad ∷ x ∷ r) ≡ s ++ pad ∷ x ∷ r
      → x < (maxlen - length s) / 256
      → (lex s (s ++ pad ∷ x ∷ r) ≡ Ordering.lt)
        × (compare_keys (get_key_view b') (get_key_view c') ≡ Ordering.gt)
  encode_text_interior_pad whole_s whole_t h =
      let (_, vb) = encode_text-Appends heap valid_b s done_b in
      let (_, vc) = encode_text-Appends heap valid_c (s ++ pad ∷ x ∷ r) done_c in
      let field_s = rw (whole_s, same) at vb in
      let field_t = rw whole_t at vc in
      (
        lex_prefix s pad (x ∷ r),
        compare_views (get_key_view c) _ _ field_s field_t
            ∙ rw (append_assoc s (pad ∷ x ∷ r)) (run_first s _ x h),
      )
