-- ===== src/Node/KeyPrefix/Shared.antt =====
-- The number of the bytes that a key prefix shares with a key.
use unodb.Base.{
  zero, suc, ℕ, ◌+◌, ◌*◌, ◌/◌, ◌%◌, ◌^◌, ◌<◌, ◌≤◌, ◌≡◌, ◌≢◌, ◌↔◌, refl, sym, ◌∙◌, if◌then◌else◌,
  ◌==◌, arith,
}
use unodb.Base.Bits.{bit_or, bit_xor}
use unodb.Node.Simd.{countr_zero}
use mathlib.Core.Path.{subst}
use native.Mathlib.Nat.{pow-le-pow_right}
use unodb.Base.{false, Bool-cases, ==_iff, inl, inr}
use unodb.Node.KeyPrefix.Laws.{pow_add, byte_at-shift}
use unodb.Node.KeyPrefix.{byte_at, shared_len, get_shared_length, length, IsPrefix}

-- A byte more.
abbrev byte_up : ℕ → ℕ
byte_up w = suc (suc (suc (suc (suc (suc (suc (suc w)))))))

halves : (x : ℕ) → x / 2 / 2 / 2 / 2 / 2 / 2 / 2 / 2 ≡ x / 256
halves x = omega arith

bit_xor-bit :
    (w x y : ℕ)
    → (bit_xor (suc w) x y / 2 ≡ bit_xor w (x / 2) (y / 2))
      × (x % 2 ≤ y % 2 + bit_xor (suc w) x y % 2)
      × (y % 2 ≤ x % 2 + bit_xor (suc w) x y % 2)
      × (bit_xor (suc w) x y % 2 ≤ x % 2 + y % 2)
      × (x % 2 + y % 2 + bit_xor (suc w) x y % 2 ≤ 2)
unfolding bit_xor
bit_xor-bit w x y = (omega arith, omega arith, omega arith, omega arith, omega arith)

bit_xor-byte :
    (w x y : ℕ)
    → (bit_xor (byte_up w) x y / 256 ≡ bit_xor w (x / 256) (y / 256))
      × (bit_xor (byte_up w) x y % 256 ≡ 0 ↔ x % 256 ≡ y % 256)
unfolding bit_xor
bit_xor-byte w x y =
    let (e0, a0, b0, c0, d0) = bit_xor-bit (suc (suc (suc (suc (suc (suc (suc w))))))) x y in
    let (e1, a1, b1, c1, d1) = bit_xor-bit (suc (suc (suc (suc (suc (suc w)))))) (x / 2) (y / 2) in
    let (e2, a2, b2, c2, d2) =
      bit_xor-bit (suc (suc (suc (suc (suc w))))) ((x / 2) / 2) ((y / 2) / 2) in
    let (e3, a3, b3, c3, d3) =
      bit_xor-bit (suc (suc (suc (suc w)))) (((x / 2) / 2) / 2) (((y / 2) / 2) / 2) in
    let (e4, a4, b4, c4, d4) =
      bit_xor-bit (suc (suc (suc w))) ((((x / 2) / 2) / 2) / 2) ((((y / 2) / 2) / 2) / 2) in
    let (e5, a5, b5, c5, d5) =
      bit_xor-bit (suc (suc w)) (((((x / 2) / 2) / 2) / 2) / 2) (((((y / 2) / 2) / 2) / 2) / 2) in
    let (e6, a6, b6, c6, d6) =
      bit_xor-bit (suc w) ((((((x / 2) / 2) / 2) / 2) / 2) / 2)
        ((((((y / 2) / 2) / 2) / 2) / 2) / 2) in
    let (e7, a7, b7, c7, d7) =
      bit_xor-bit w (((((((x / 2) / 2) / 2) / 2) / 2) / 2) / 2)
        (((((((y / 2) / 2) / 2) / 2) / 2) / 2) / 2) in
    (rw (sym (halves x), sym (halves y)) (omega arith), ((λ z. omega arith), λ z. omega arith))

bit_or-bit :
    (w x y : ℕ)
    → (bit_or (suc w) x y / 2 ≡ bit_or w (x / 2) (y / 2))
      × (x % 2 ≤ bit_or (suc w) x y % 2)
      × (y % 2 ≤ bit_or (suc w) x y % 2)
      × (bit_or (suc w) x y % 2 ≤ x % 2 + y % 2)
unfolding bit_or
bit_or-bit w x y = (ground arith, ground arith, ground arith, ground arith)

bit_or-byte :
    (w x y : ℕ)
    → (bit_or (byte_up w) x y / 256 ≡ bit_or w (x / 256) (y / 256))
      × (bit_or (byte_up w) x y % 256 ≡ 0 ↔ (x % 256 ≡ 0) × (y % 256 ≡ 0))
bit_or-byte w x y =
    let (e0, a0, b0, c0) = bit_or-bit (suc (suc (suc (suc (suc (suc (suc w))))))) x y in
    let (e1, a1, b1, c1) = bit_or-bit (suc (suc (suc (suc (suc (suc w)))))) (x / 2) (y / 2) in
    let (e2, a2, b2, c2) = bit_or-bit (suc (suc (suc (suc (suc w))))) ((x / 2) / 2) ((y / 2) / 2) in
    let (e3, a3, b3, c3) =
      bit_or-bit (suc (suc (suc (suc w)))) (((x / 2) / 2) / 2) (((y / 2) / 2) / 2) in
    let (e4, a4, b4, c4) =
      bit_or-bit (suc (suc (suc w))) ((((x / 2) / 2) / 2) / 2) ((((y / 2) / 2) / 2) / 2) in
    let (e5, a5, b5, c5) =
      bit_or-bit (suc (suc w)) (((((x / 2) / 2) / 2) / 2) / 2) (((((y / 2) / 2) / 2) / 2) / 2) in
    let (e6, a6, b6, c6) =
      bit_or-bit (suc w) ((((((x / 2) / 2) / 2) / 2) / 2) / 2)
        ((((((y / 2) / 2) / 2) / 2) / 2) / 2) in
    let (e7, a7, b7, c7) =
      bit_or-bit w (((((((x / 2) / 2) / 2) / 2) / 2) / 2) / 2)
        (((((((y / 2) / 2) / 2) / 2) / 2) / 2) / 2) in
    (
      rw (sym (halves x), sym (halves y)) (omega arith),
      ((λ z. (omega arith, omega arith)), λ (z, z'). omega arith),
    )

countr_zero-byte :
    (w x : ℕ)
    → countr_zero (byte_up w) x / 8
      ≡ (if x % 256 == 0 then suc (countr_zero w (x / 256) / 8) else 0)
unfolding countr_zero
countr_zero-byte w x = ground (arith, halves x)

width : ℕ → ℕ
width zero = 0
width (suc n) = byte_up (width n)

width_8 : width 8 ≡ 64
unfolding width
width_8 = refl

-- The words agree in the bytes below `t`, and differ in byte `t` if it lies before the limit `c`.
abbrev pub IsShared : ℕ → ℕ → ℕ → ℕ → Type 0
IsShared k1 k2 c t =
    (t ≤ c)
    × ((i : ℕ) → i < t → byte_at k1 i ≡ byte_at k2 i)
    × (t < c → byte_at k1 t ≢ byte_at k2 t)

-- The lowest byte and the others.
pub byte_at_zero : (x : ℕ) → byte_at x 0 ≡ x % 256
unfolding byte_at
byte_at_zero x = omega arith

pub byte_at-suc : (x i : ℕ) → byte_at x (suc i) ≡ byte_at (x / 256) i
byte_at-suc x i = let e : 1 + i ≡ suc i = omega arith in sym (byte_at-shift x 1 i ∙ rw e refl)

abbrev marked : ℕ → ℕ → ℕ → ℕ → ℕ
marked n k1 k2 e = bit_or (width n) (bit_xor (width n) k1 k2) e

abbrev counted : ℕ → ℕ → ℕ → ℕ → ℕ
counted n k1 k2 e = countr_zero (width n) (marked n k1 k2 e) / 8

-- The lowest byte decides, or all is as for the other bytes.
counted-byte :
    (n k1 k2 e : ℕ)
    → (counted (suc n) k1 k2 e ≡ (
        if marked (suc n) k1 k2 e % 256 == 0
        then suc (counted n (k1 / 256) (k2 / 256) (e / 256))
        else 0))
      × (marked (suc n) k1 k2 e % 256 ≡ 0 ↔ (k1 % 256 ≡ k2 % 256) × (e % 256 ≡ 0))
unfolding width
counted-byte n k1 k2 e =
    let (up, low) = bit_or-byte (width n) (bit_xor (width (suc n)) k1 k2) e in
    let (xor_up, xor_low) = bit_xor-byte (width n) k1 k2 in
    (
      rw (sym xor_up, sym up) (countr_zero-byte (width n) (marked (suc n) k1 k2 e)),
      ((λ z. (xor_low.0 (low.0 z).0, (low.0 z).1)), λ (z, z'). low.1 (xor_low.1 z, z')),
    )

IsShared-differ : (k1 k2 c : ℕ) → k1 % 256 ≢ k2 % 256 → IsShared k1 k2 c 0
IsShared-differ k1 k2 c ne = (
  omega arith,
  (λ i h. absurd (omega arith)),
  λ h e. ne (sym (byte_at_zero k1) ∙ e ∙ byte_at_zero k2),
)

bytes_suc :
    (k1 k2 t : ℕ)
    → k1 % 256 ≡ k2 % 256
    → ((i : ℕ) → i < t → byte_at (k1 / 256) i ≡ byte_at (k2 / 256) i)
    → (i : ℕ) → i < suc t
    → byte_at k1 i ≡ byte_at k2 i
bytes_suc k1 k2 t e same zero h = byte_at_zero k1 ∙ e ∙ sym (byte_at_zero k2)
bytes_suc k1 k2 t e same (suc i) h =
    byte_at-suc k1 i ∙ same i (omega arith) ∙ sym (byte_at-suc k2 i)

IsShared-suc :
    (k1 k2 c t : ℕ)
    → k1 % 256 ≡ k2 % 256
    → IsShared (k1 / 256) (k2 / 256) c t
    → IsShared k1 k2 (suc c) (suc t)
IsShared-suc k1 k2 c t e (le, same, other) = (
  omega arith,
  bytes_suc k1 k2 t e same,
  λ h z. other (omega arith) (sym (byte_at-suc k1 t) ∙ z ∙ byte_at-suc k2 t),
)

counted-IsShared :
    (n c k1 k2 e : ℕ) → c < n → e ≡ 2 ^ (c * 8) → IsShared k1 k2 c (counted n k1 k2 e)
counted-IsShared zero c k1 k2 e h mark = absurd (omega arith)
counted-IsShared (suc n) zero k1 k2 e h mark =
    let (step, low) = counted-byte n k1 k2 e in
    let one : e ≡ 1 = mark in
    let stop : (marked (suc n) k1 k2 e % 256 == 0) ≡ false =
      elim (Bool-cases (marked (suc n) k1 k2 e % 256 == 0)) [
        | inl z ↦ absurd (omega (arith, one, (low.0 ((==_iff _ 0).0 z)).1))
        | inr z ↦ z
      ] in
    let none_counted : counted (suc n) k1 k2 e ≡ 0 = step ∙ rw stop refl in
    (omega arith, (λ i lt. absurd (omega arith)), λ lt. absurd (omega arith))
counted-IsShared (suc n) (suc c) k1 k2 e h mark =
    let (step, low) = counted-byte n k1 k2 e in
    let sum : suc c * 8 ≡ 8 + c * 8 = omega arith in
    let up : e ≡ 256 * 2 ^ (c * 8) = mark ∙ rw (sum, pow_add 8 (c * 8)) refl in
    let rest = counted-IsShared n c (k1 / 256) (k2 / 256) (e / 256) (omega arith) (omega arith) in
    elim (Bool-cases (marked (suc n) k1 k2 e % 256 == 0)) [
      | inl z ↦
          let same = (low.0 ((==_iff _ 0).0 z)).0 in
          subst (IsShared k1 k2 (suc c)) (sym (step ∙ rw z refl)) (IsShared-suc k1 k2 c _ same rest)
      | inr z ↦
          subst (IsShared k1 k2 (suc c)) (sym (step ∙ rw z refl))
            (IsShared-differ k1 k2 (suc c) (λ same. ground (arith, low.1 (same, omega arith))))
    ]

pub shared_len-IsShared :
    (k1 k2 clamp_byte_pos : ℕ)
    → clamp_byte_pos < 8
    → IsShared k1 k2 clamp_byte_pos (shared_len k1 k2 clamp_byte_pos)
unfolding shared_len width
shared_len-IsShared k1 k2 c h =
    let small : 2 ^ (c * 8) % 2 ^ 64 ≡ 2 ^ (c * 8) =
      let le : 2 ^ (c * 8) ≤ 2 ^ 56 =
        pow-le-pow_right {n = 2} (omega arith) {j = 56} (omega arith) in
      omega arith in
    rw small (counted-IsShared 8 c k1 k2 (2 ^ (c * 8)) h refl)

-- The shared length of a prefix and the word of a key is at most the length of the prefix; the key
-- and the prefix agree in all bytes below it, and differ in its byte where it is less than the
-- length of the prefix.
pub get_shared_length-IsShared :
    (u shifted_key : ℕ)
    → IsPrefix u
    → IsShared shifted_key u (length u) (get_shared_length u shifted_key)
unfolding get_shared_length
get_shared_length-IsShared u shifted_key v =
    shared_len-IsShared shifted_key u (length u) (omega (arith, v.1))
