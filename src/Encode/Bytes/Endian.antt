-- ===== src/Encode/Bytes/Endian.antt =====
-- `bswap` reverses the bytes, so a swapped integer is stored with its high byte first.
use unodb.Base.{
  ℕ, zero, suc, ◌+◌, ◌*◌, ◌/◌, ◌%◌, ◌^◌, ◌<◌, ◌≡◌, refl, ◌∙◌, ap, List, [], ◌∷◌, ◌++◌, reverse,
  length, arith,
}
use mathlib.Core.List.{reverse-reverse, reverse-cons}
use native.Mathlib.Nat.{pow-suc}
use unodb.Base.{length-append}
use unodb.Encode.Bytes.{to_le, of_le, bswap, IsBytes}

pub IsBytes-to_le : (n v : ℕ) → IsBytes (to_le n v)
IsBytes-to_le zero v = tt
IsBytes-to_le (suc n) v = (omega arith, IsBytes-to_le n (v / 256))

pub length-to_le : (n v : ℕ) → length (to_le n v) ≡ n
length-to_le zero v = refl
length-to_le (suc n) v = ap suc (length-to_le n (v / 256))

pub to_le-of_le :
    (n : ℕ) (bytes : List ℕ) → length bytes ≡ n → IsBytes bytes → to_le n (of_le bytes) ≡ bytes
to_le-of_le zero [] h k = refl
to_le-of_le zero (b ∷ bytes) h k = absurd (omega arith)
to_le-of_le (suc n) [] h k = absurd (omega arith)
to_le-of_le (suc n) (b ∷ bytes) h k =
    let low : (b + 256 * of_le bytes) % 256 ≡ b = omega arith in
    let high : (b + 256 * of_le bytes) / 256 ≡ of_le bytes = omega arith in
    rw (low, high) (ap (λ t. b ∷ t) (to_le-of_le n bytes (omega arith) k.1))

pub div-lt_pow : (n v : ℕ) → v < 256 ^ suc n → v / 256 < 256 ^ n
div-lt_pow n v h = omega (arith, pow-suc 256 n)

pub of_le-to_le : (n v : ℕ) → v < 256 ^ n → of_le (to_le n v) ≡ v
of_le-to_le zero v h = omega arith
of_le-to_le (suc n) v h = omega (arith, of_le-to_le n (v / 256) (div-lt_pow n v h))

of_le-lt : (bytes : List ℕ) → IsBytes bytes → of_le bytes < 256 ^ length bytes
of_le-lt [] h = omega arith
of_le-lt (b ∷ bytes) h = omega (arith, of_le-lt bytes h.1, pow-suc 256 (length bytes))

IsBytes-append : (xs ys : List ℕ) → IsBytes xs → IsBytes ys → IsBytes (xs ++ ys)
IsBytes-append [] ys h k = k
IsBytes-append (x ∷ xs) ys h k = (h.0, IsBytes-append xs ys h.1 k)

pub IsBytes-reverse : (xs : List ℕ) → IsBytes xs → IsBytes (reverse xs)
IsBytes-reverse [] h = tt
IsBytes-reverse (x ∷ xs) h =
    rw reverse-cons (IsBytes-append (reverse xs) _ (IsBytes-reverse xs h.1) (h.0, tt))

pub length-reverse {ℓ} : {A : Type ℓ} (xs : List A) → length (reverse xs) ≡ length xs
length-reverse [] = refl
length-reverse (x ∷ xs) = rw (reverse-cons, length-append) (omega (arith, length-reverse xs))

reverse-to_le_shape : (n v : ℕ) → (length (reverse (to_le n v)) ≡ n) × IsBytes (reverse (to_le n v))
reverse-to_le_shape n v =
    (length-reverse (to_le n v) ∙ length-to_le n v, IsBytes-reverse _ (IsBytes-to_le n v))

pub length-reverse-to_le : (n v : ℕ) → length (reverse (to_le n v)) ≡ n
length-reverse-to_le n v = (reverse-to_le_shape n v).0

-- The bytes of a swapped integer are those of the integer in the opposite order.
pub to_le-bswap : (n v : ℕ) → to_le n (bswap n v) ≡ reverse (to_le n v)
unfolding bswap
to_le-bswap n v = let (len, bytes) = reverse-to_le_shape n v in to_le-of_le n _ len bytes

pub bswap-lt : (n v : ℕ) → bswap n v < 256 ^ n
unfolding bswap
bswap-lt n v =
    let (len, bytes) = reverse-to_le_shape n v in rw len at (of_le-lt (reverse (to_le n v)) bytes)

-- Swapping the bytes of an unsigned integer of n bytes twice gives the integer back.
pub bswap-bswap : (n v : ℕ) → v < 256 ^ n → bswap n (bswap n v) ≡ v
bswap-bswap n v h =
    let once : of_le (reverse (to_le n (bswap n v))) ≡ v =
      rw (to_le-bswap n v, reverse-reverse) (of_le-to_le n v h) in
    unfold bswap in once
