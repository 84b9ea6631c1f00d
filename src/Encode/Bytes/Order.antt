-- ===== src/Encode/Bytes/Order.antt =====
-- Laws of the key comparison.
use unodb.Base.{
  ℕ, zero, suc, ◌/◌, ◌%◌, ◌^◌, ◌<◌, ◌≡◌, refl, List, [], ◌∷◌, ◌++◌, reverse, length, arith,
}
use unodb.Base.{compare, Ordering, min}
use mathlib.Core.List.{reverse-cons}
use unodb.Encode.Bytes.{to_le, bswap, memcmp, tie, compare_keys}
use unodb.Encode.Bytes.Endian.{to_le-bswap, length-reverse-to_le, div-lt_pow}

unfoldable pub then_with : Ordering → Ordering → Ordering
then_with Ordering.lt o = Ordering.lt
then_with Ordering.eq o = o
then_with Ordering.gt o = Ordering.gt

memcmp-append :
    (n : ℕ) (xs ys : List ℕ) (x y : ℕ)
    → length xs ≡ n
    → length ys ≡ n
    → memcmp (suc n) (xs ++ x ∷ []) (ys ++ y ∷ []) ≡ then_with (memcmp n xs ys) (compare x y)
unfolding memcmp then_with
memcmp-append zero [] [] x y h k = ground arith
memcmp-append zero [] (b ∷ ys) x y h k = absurd (omega arith)
memcmp-append zero (a ∷ xs) ys x y h k = absurd (omega arith)
memcmp-append (suc n) [] ys x y h k = absurd (omega arith)
memcmp-append (suc n) (a ∷ xs) [] x y h k = absurd (omega arith)
memcmp-append (suc n) (a ∷ xs) (b ∷ ys) x y h k = ground (arith, memcmp-append n xs ys x y)

compare_digits :
    (a b : ℕ) → then_with (compare (a / 256) (b / 256)) (compare (a % 256) (b % 256)) ≡ compare a b
unfolding then_with
compare_digits a b = ground arith

memcmp-reverse :
    (n a b : ℕ)
    → a < 256 ^ n
    → b < 256 ^ n
    → memcmp n (reverse (to_le n a)) (reverse (to_le n b)) ≡ compare a b
memcmp-reverse zero a b h k = unfold memcmp in ground arith
memcmp-reverse (suc n) a b h k =
    rw
      (
        reverse-cons,
        reverse-cons,
        memcmp-append n _ _ _ _ (length-reverse-to_le n (a / 256))
            (length-reverse-to_le n (b / 256)),
        memcmp-reverse n (a / 256) (b / 256) (div-lt_pow n a h) (div-lt_pow n b k),
      )
      (compare_digits a b)

tie_same : (o : Ordering) (n : ℕ) → tie o n n ≡ o
tie_same Ordering.lt n = refl
tie_same Ordering.eq n = ground arith
tie_same Ordering.gt n = refl

-- Two unsigned integers of n bytes whose swapped object representations are compared as keys
-- compare as the integers do.
pub compare_keys-bswap :
    (n a b : ℕ)
    → a < 256 ^ n
    → b < 256 ^ n
    → compare_keys (to_le n (bswap n a)) (to_le n (bswap n b)) ≡ compare a b
unfolding compare_keys
compare_keys-bswap n a b h k =
    let same : min n n ≡ n = omega arith in
    rw
      (
        to_le-bswap n a,
        to_le-bswap n b,
        length-reverse-to_le n a,
        length-reverse-to_le n b,
        same,
        memcmp-reverse n a b h k,
      )
      (tie_same (compare a b) n)

-- Lexicographic order in which a proper prefix comes first.
abbrev pub lex : List ℕ → List ℕ → Ordering
lex [] [] = Ordering.eq
lex [] (b ∷ bs) = Ordering.lt
lex (a ∷ as_) [] = Ordering.gt
lex (a ∷ as_) (b ∷ bs) = then_with (compare a b) (lex as_ bs)

tie-suc : (o : Ordering) (n m : ℕ) → tie o (suc n) (suc m) ≡ tie o n m
tie-suc Ordering.lt n m = refl
tie-suc Ordering.eq n m = ground arith
tie-suc Ordering.gt n m = refl

-- `compare` decides the lexicographic order.
pub compare_keys-lex : (a b : List ℕ) → compare_keys a b ≡ lex a b
unfolding compare_keys then_with
compare_keys-lex [] [] = ground arith
compare_keys-lex [] (b ∷ bs) = ground arith
compare_keys-lex (a ∷ as_) [] = ground arith
compare_keys-lex (a ∷ as_) (b ∷ bs) =
    let shared : min (length (a ∷ as_)) (length (b ∷ bs)) ≡ suc (min (length as_) (length bs)) =
      omega arith in
    rw shared (ground (arith, compare_keys-lex as_ bs))

pub lex_append : (c a b : List ℕ) → lex (c ++ a) (c ++ b) ≡ lex a b
unfolding then_with
lex_append [] a b = refl
lex_append (x ∷ c) a b = ground (arith, lex_append c a b)

pub lex-eq : (a b : List ℕ) → lex a b ≡ Ordering.eq → a ≡ b
unfolding then_with
lex-eq [] [] h = refl
lex-eq [] (b ∷ bs) h = cc
lex-eq (a ∷ as_) [] h = cc
lex-eq (a ∷ as_) (b ∷ bs) h = ground (arith, lex-eq as_ bs)

pub lex_refl : (a : List ℕ) → lex a a ≡ Ordering.eq
unfolding then_with
lex_refl [] = refl
lex_refl (a ∷ as_) = ground (arith, lex_refl as_)

abbrev pub flip_order : Ordering → Ordering
flip_order Ordering.lt = Ordering.gt
flip_order Ordering.eq = Ordering.eq
flip_order Ordering.gt = Ordering.lt

pub lex_flip : (a b : List ℕ) → lex b a ≡ flip_order (lex a b)
unfolding then_with
lex_flip [] [] = refl
lex_flip [] (b ∷ bs) = refl
lex_flip (a ∷ as_) [] = refl
lex_flip (a ∷ as_) (b ∷ bs) = ground (arith, lex_flip as_ bs)

pub lex_trans :
    (a b c : List ℕ) → lex a b ≡ Ordering.lt → lex b c ≡ Ordering.lt → lex a c ≡ Ordering.lt
unfolding then_with
lex_trans [] [] c h k = cc
lex_trans [] (b ∷ bs) [] h k = cc
lex_trans [] (b ∷ bs) (c ∷ cs) h k = refl
lex_trans (a ∷ as_) [] c h k = cc
lex_trans (a ∷ as_) (b ∷ bs) [] h k = cc
lex_trans (a ∷ as_) (b ∷ bs) (c ∷ cs) h k = ground (arith, lex_trans as_ bs cs)
