-- ===== src/Node/KeyPrefix/Laws.antt =====
-- Cutting and extending key prefixes, and comparing them with keys.
use unodb.Base.{zero, suc, ℕ, ◌+◌, ◌-◌, ◌*◌, ◌/◌, ◌%◌, ◌^◌, ◌<◌, ◌≤◌, ◌≡◌, refl, sym, ◌∙◌, arith}
use mathlib.Core.Path.{ap}
use native.Mathlib.Nat.{
  div-div-eq-div-mul, pow-suc, mul_assoc, mul_comm, mul-add, mul-suc, mul-le-mul_left,
  add-mul-div_left, add-mul-mod_self_left, one-le-pow, mod-add-div, mod-lt, pow-le-pow_right,
  div-eq_of_lt,
}
use unodb.Base.Bits.{bit_or, bit_or-add, bit_or-add_comm}
use unodb.Node.KeyPrefix.{length_to_word, length, byte_at, take, cut, prepend, key_bytes, IsPrefix}

-- Numbers below 7 one by one.
below_7 : (P : ℕ → Type 0) → P 0 → P 1 → P 2 → P 3 → P 4 → P 5 → P 6 → (i : ℕ) → i < 7 → P i
below_7 P a b c d e f g zero h = a
below_7 P a b c d e f g (suc zero) h = b
below_7 P a b c d e f g (suc (suc zero)) h = c
below_7 P a b c d e f g (suc (suc (suc zero))) h = d
below_7 P a b c d e f g (suc (suc (suc (suc zero)))) h = e
below_7 P a b c d e f g (suc (suc (suc (suc (suc zero))))) h = f
below_7 P a b c d e f g (suc (suc (suc (suc (suc (suc zero)))))) h = g
below_7 P a b c d e f g (suc (suc (suc (suc (suc (suc (suc i))))))) h = absurd (omega arith)

-- A word of key bytes and a length.
with_length : (k n : ℕ) → k < 2 ^ 56 → n ≤ 7 → bit_or 64 k (length_to_word n) ≡ k + 2 ^ 56 * n
unfolding length_to_word
with_length k n h l =
    let e : n * 2 ^ 56 % 2 ^ 64 ≡ 2 ^ 56 * n = omega arith in
    rw e (bit_or-add 64 56 k n h (omega arith))

length-with : (k n : ℕ) → k < 2 ^ 56 → n ≤ 7 → length (k + 2 ^ 56 * n) ≡ n
unfolding length
length-with k n h l = omega arith

byte_at-with : (k n i : ℕ) → i < 7 → byte_at (k + 2 ^ 56 * n) i ≡ byte_at k i
unfolding byte_at
byte_at-with k n i h =
    below_7 (λ i. (k + 2 ^ 56 * n) / 2 ^ (8 * i) % 256 ≡ k / 2 ^ (8 * i) % 256) (omega arith)
      (omega arith) (omega arith) (omega arith) (omega arith) (omega arith) (omega arith) i h

pub byte_at-key_bytes : (u i : ℕ) → i < 7 → byte_at (key_bytes u) i ≡ byte_at u i
unfolding byte_at
byte_at-key_bytes u i h =
    below_7 (λ i. u % 2 ^ 56 / 2 ^ (8 * i) % 256 ≡ u / 2 ^ (8 * i) % 256) (omega arith)
      (omega arith) (omega arith) (omega arith) (omega arith) (omega arith) (omega arith) i h

-- A word made of the key bytes of `u` and a length.
pub made :
    (u n : ℕ)
    → n ≤ 7
    → (bit_or 64 (key_bytes u) (length_to_word n) < 2 ^ 64)
      × (length (bit_or 64 (key_bytes u) (length_to_word n)) ≡ n)
      × ((i : ℕ) → i < 7 → byte_at (bit_or 64 (key_bytes u) (length_to_word n)) i ≡ byte_at u i)
made u n l =
    let k = key_bytes u in
    let e = with_length k n (omega arith) l in
    (
      rw e (omega arith),
      rw e (length-with k n (omega arith) l),
      λ i h. rw e (byte_at-with k n i h ∙ byte_at-key_bytes u i h),
    )

pub pow_add : (a b : ℕ) → 2 ^ (a + b) ≡ 2 ^ a * 2 ^ b
pow_add a zero = let e : a + 0 ≡ a = omega arith in rw e (omega arith)
pow_add a (suc b) =
    let e : a + suc b ≡ suc (a + b) = omega arith in
    rw (e, pow-suc 2 b, pow-suc 2 (a + b), pow_add a b) (mul_assoc (2 ^ a) (2 ^ b) 2)

-- What stands from byte `n` on does not change the bytes below.
byte_at-high : (x y n i : ℕ) → i < n → byte_at (x + 2 ^ (n * 8) * y) i ≡ byte_at x i
unfolding byte_at
byte_at-high x y n i h =
    let c = (n - suc i) * 8 in
    let split : n * 8 ≡ 8 * i + (8 + c) = omega arith in
    let e : 2 ^ (n * 8) * y ≡ 2 ^ (8 * i) * (256 * (2 ^ c * y)) =
      rw (split, pow_add (8 * i) (8 + c), pow_add 8 c)
        (mul_assoc (2 ^ (8 * i)) (256 * 2 ^ c) y
          ∙ ap (λ z. 2 ^ (8 * i) * z) (mul_assoc 256 (2 ^ c) y)) in
    rw
      (
        e,
        add-mul-div_left x (256 * (2 ^ c * y)) {y = 2 ^ (8 * i)}
            (one-le-pow (8 * i) 2 (omega arith)),
      )
      (add-mul-mod_self_left (x / 2 ^ (8 * i)) 256 (2 ^ c * y))

byte_at-low : (u n i : ℕ) → i < n → byte_at (u % 2 ^ (n * 8)) i ≡ byte_at u i
byte_at-low u n i h =
    sym (byte_at-high (u % 2 ^ (n * 8)) (u / 2 ^ (n * 8)) n i h)
    ∙ ap (λ z. byte_at z i) (mod-add-div u (2 ^ (n * 8)))

-- The parts of an extended prefix lie side by side, in the seven bytes of a prefix.
module _ (m p b q : ℕ) (room : m < 7) (high : p < 2 ^ ((6 - m) * 8)) (byte : b < 256)
    (low : q < 2 ^ (m * 8)) where
  parts_size : q + 2 ^ (m * 8) * (b + 256 * p) < 2 ^ 56
  parts_size =
      let n = 2 ^ (m * 8) in
      let room_is : 2 ^ ((6 - m) * 8 + 8) ≡ 2 ^ ((6 - m) * 8) * 256 = pow_add ((6 - m) * 8) 8 in
      let sum : m * 8 + ((6 - m) * 8 + 8) ≡ 56 = omega arith in
      let whole : n * 2 ^ ((6 - m) * 8 + 8) ≡ 2 ^ 56 =
        sym (pow_add (m * 8) ((6 - m) * 8 + 8)) ∙ rw sum refl in
      let bound : n * (suc (b + 256 * p)) ≤ n * 2 ^ ((6 - m) * 8 + 8) =
        mul-le-mul_left n (omega arith) in
      let next : n * (suc (b + 256 * p)) ≡ n * (b + 256 * p) + n = mul-suc n (b + 256 * p) in
      omega arith

  parts-add :
      bit_or 64 (bit_or 64 (p * 2 ^ (m * 8 + 8) % 2 ^ 64) (b * 2 ^ (m * 8) % 2 ^ 64)) q
      ≡ q + 2 ^ (m * 8) * (b + 256 * p)
  parts-add =
      let n = 2 ^ (m * 8) in
      let size = parts_size in
      let wide : 2 ^ (m * 8 + 8) ≡ n * 256 = pow_add (m * 8) 8 in
      let dist : n * (b + 256 * p) ≡ n * b + n * (256 * p) = mul-add n b (256 * p) in
      let third : 2 ^ (m * 8 + 8) * p ≡ n * (256 * p) = rw wide (mul_assoc n 256 p) in
      let c3 : p * 2 ^ (m * 8 + 8) ≡ 2 ^ (m * 8 + 8) * p = mul_comm p (2 ^ (m * 8 + 8)) in
      let c2 : b * n ≡ n * b = mul_comm b n in
      let small : n * b < 2 ^ (m * 8 + 8) =
        let k : n * suc b ≤ n * 256 = mul-le-mul_left n (omega arith) in
        let l : n * suc b ≡ n * b + n = mul-suc n b in omega arith in
      let e3 : p * 2 ^ (m * 8 + 8) % 2 ^ 64 ≡ 2 ^ (m * 8 + 8) * p = omega arith in
      let e2 : b * n % 2 ^ 64 ≡ n * b = omega arith in
      let inner : n * b + 2 ^ (m * 8 + 8) * p ≡ n * (b + 256 * p) = omega arith in
      rw (e3, e2, bit_or-add_comm 64 (m * 8 + 8) (n * b) p small (omega arith), inner)
        (bit_or-add_comm 64 (m * 8) q (b + 256 * p) low (omega arith))

pub byte_at-shift : (u c i : ℕ) → byte_at (u / 2 ^ (c * 8)) i ≡ byte_at u (c + i)
unfolding byte_at
byte_at-shift u c i =
    let sum : 8 * (c + i) ≡ c * 8 + 8 * i = omega arith in
    let e : 2 ^ (c * 8) * 2 ^ (8 * i) ≡ 2 ^ (8 * (c + i)) =
      rw (sum, pow_add (c * 8) (8 * i)) refl in
    rw (div-div-eq-div-mul u (2 ^ (c * 8)) (2 ^ (8 * i)), e) refl

-- Cutting at most as many bytes as a prefix has leaves a prefix with that many bytes fewer, whose
-- bytes are the remaining ones in order.
pub cut-IsPrefix :
    (u c : ℕ)
    → IsPrefix u
    → c ≤ length u
    → IsPrefix (cut u c)
      × (length (cut u c) ≡ length u - c)
      × ((i : ℕ) → i < length u - c → byte_at (cut u c) i ≡ byte_at u (c + i))
unfolding cut
cut-IsPrefix u c (h, l) le =
    let v = u / 2 ^ (c * 8) in
    let (size, len, bytes) = made v (length u - c) (omega arith) in
    ((size, omega (arith, len)), len, λ i lt. bytes i (omega arith) ∙ byte_at-shift u c i)

pub take-IsPrefix :
    (u n : ℕ)
    → n ≤ 7
    → IsPrefix (take n u)
      × (length (take n u) ≡ n)
      × ((i : ℕ) → i < n → byte_at (take n u) i ≡ byte_at u i)
unfolding take
take-IsPrefix u n l =
    let (size, len, bytes) = made u n l in
    ((size, omega (arith, len)), len, λ i lt. bytes i (omega arith))

-- The bytes of an extended prefix.
parts-bytes :
    (m p b q : ℕ)
    → b < 256
    → ((i : ℕ) → i < m → byte_at (q + 2 ^ (m * 8) * (b + 256 * p)) i ≡ byte_at q i)
      × (q < 2 ^ (m * 8) → byte_at (q + 2 ^ (m * 8) * (b + 256 * p)) m ≡ b)
      × (q < 2 ^ (m * 8)
          → (j : ℕ) → byte_at (q + 2 ^ (m * 8) * (b + 256 * p)) (suc m + j) ≡ byte_at p j)
unfolding byte_at
parts-bytes m p b q byte =
    let t = q + 2 ^ (m * 8) * (b + 256 * p) in
    let rest : q < 2 ^ (m * 8) → t / 2 ^ (m * 8) ≡ b + 256 * p = λ low.
      add-mul-div_left q (b + 256 * p) {y = 2 ^ (m * 8)} (omega arith)
      ∙ rw (div-eq_of_lt low) (omega arith) in
    (
      λ i h. byte_at-high q (b + 256 * p) m i h,
      λ low. let e : 8 * m ≡ m * 8 = omega arith in rw (e, rest low) (omega arith),
      λ low j.
          let s : suc m * 8 ≡ m * 8 + 8 = omega arith in
          let f : t / 2 ^ (suc m * 8) ≡ p =
            rw (s, pow_add (m * 8) 8)
              (sym (div-div-eq-div-mul t (2 ^ (m * 8)) 256) ∙ rw (rest low) (omega arith)) in
          sym (byte_at-shift t (suc m) j) ∙ ap (λ z. byte_at z j) f,
    )

-- For two prefixes that together have fewer than seven bytes, and a byte: prepending the other
-- prefix and the byte gives a prefix whose length is the sum of the lengths and one, and whose
-- bytes are those of the other prefix, the byte, and the old ones.
pub prepend-IsPrefix :
    (u prefix1 prefix2 : ℕ)
    → IsPrefix u
    → IsPrefix prefix1
    → length u + length prefix1 < 7
    → prefix2 < 256
    → IsPrefix (prepend u prefix1 prefix2)
      × (length (prepend u prefix1 prefix2) ≡ length u + length prefix1 + 1)
      × ((i : ℕ) → i < length prefix1 → byte_at (prepend u prefix1 prefix2) i ≡ byte_at prefix1 i)
      × (byte_at (prepend u prefix1 prefix2) (length prefix1) ≡ prefix2)
      × ((j : ℕ)
          → j < length u
          → byte_at (prepend u prefix1 prefix2) (suc (length prefix1) + j) ≡ byte_at u j)
unfolding prepend
prepend-IsPrefix u prefix1 b v w sum byte =
    let m = length prefix1 in
    let l = length u in
    let p = u % 2 ^ (l * 8) in
    let q = prefix1 % 2 ^ (m * 8) in
    let t = q + 2 ^ (m * 8) * (b + 256 * p) in
    let low : q < 2 ^ (m * 8) = mod-lt prefix1 (one-le-pow (m * 8) 2 (omega arith)) in
    let p_low : p < 2 ^ (l * 8) = mod-lt u (one-le-pow (l * 8) 2 (omega arith)) in
    let fits : 2 ^ (l * 8) ≤ 2 ^ ((6 - m) * 8) =
      pow-le-pow_right {n = 2} (omega arith) (omega arith) in
    let high : p < 2 ^ ((6 - m) * 8) = omega arith in
    let size = parts_size m p b q (omega arith) high byte low in
    let whole = parts-add m p b q (omega arith) high byte low in
    let (before, at, behind) = parts-bytes m p b q byte in
    let e = with_length t (l + m + 1) size (omega arith) in
    let len = length-with t (l + m + 1) size (omega arith) in
    let bytes = byte_at-with t (l + m + 1) in
    (
      rw (whole, e) (omega arith, omega (arith, len)),
      rw (whole, e) len,
      λ i h. rw (whole, e) (bytes i (omega arith) ∙ before i h ∙ byte_at-low prefix1 m i h),
      rw (whole, e) (bytes m (omega arith) ∙ at low),
      λ j h. rw (whole, e) (bytes (suc m + j) (omega arith) ∙ behind low j ∙ byte_at-low u l j h),
    )
