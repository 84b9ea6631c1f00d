-- ===== src/Art/Iterator/Rank.antt =====
-- The number that a key stands for, which bounds the steps of a scan.
use unodb.Base.{
  ℕ, suc, ◌+◌, ◌-◌, ◌*◌, ◌^◌, ◌<◌, ◌≤◌, ◌≡◌, List, [], ◌∷◌, length, get_or, Ordering, compare,
  arith,
}
use Prim.Native.Nat.Ordering.{lt}
use unodb.Base.{sym, ap, ◌⊎◌, inl, inr}
use native.Mathlib.Nat.{mul-le-mul_right, pow-suc, mul_comm}
use unodb.Encode.Bytes.Order.{lex, then_with}
use unodb.Art.Entries.{IsKey, key_size}
use unodb.Art.Iterator.Direction.{Direction, forward, backward}

abbrev pub number : List ℕ → ℕ
number [] = 0
number (b ∷ k) = b * 256 ^ length k + number k

abbrev pub HasBytes : List ℕ → Type 0
HasBytes k = (i : ℕ) → get_or k i 0 < 256

pub number-lt : (k : List ℕ) → HasBytes k → number k < 256 ^ length k
number-lt [] h = omega arith
number-lt (b ∷ k) h =
    let rest = number-lt k (λ i. h (suc i)) in
    let small : b < 256 = h 0 in
    let top : suc b * 256 ^ length k ≤ 256 * 256 ^ length k =
      mul-le-mul_right (256 ^ length k) (omega arith) in
    let e = pow-suc 256 (length k) in omega (arith, mul_comm 256 (256 ^ length k))

head_cases :
    (x y : ℕ) (o : Ordering) → then_with (compare x y) o ≡ lt → (x < y) ⊎ ((x ≡ y) × (o ≡ lt))
unfolding then_with
head_cases x y o h = ground arith

pub number_mono :
    (a b : List ℕ) → length a ≡ length b → HasBytes a → lex a b ≡ lt → number a < number b
number_mono [] [] e h l = cc
number_mono [] (y ∷ b) e h l = absurd (omega arith)
number_mono (x ∷ a) [] e h l = absurd (omega arith)
number_mono (x ∷ a) (y ∷ b) e h l =
    let same : length a ≡ length b = omega arith in
    elim (head_cases x y (lex a b) l) [
      | inl less ↦
          let rest = number-lt a (λ i. h (suc i)) in
          let top : suc x * 256 ^ length a ≤ y * 256 ^ length a =
            mul-le-mul_right (256 ^ length a) less in
          rw (sym same) (omega arith)
      | inr (eq_head, l') ↦
          let rest = number_mono a b same (λ i. h (suc i)) l' in rw (eq_head, same) (omega arith)
    ]

-- A number that falls from key to key.
pub record Rank (D : Direction) : Type 0 where
  pub rank : List ℕ → ℕ
  pub falls : {a b : List ℕ} → IsKey a → IsKey b → D.Key a b → rank b < rank a
  pub most : {k : List ℕ} → IsKey k → rank k ≤ 256 ^ key_size

abbrev pub up : Rank forward
up = record {
  rank = λ k. 256 ^ key_size - number k;
  falls = λ {a} {b} ka kb less.
      let h = number_mono a b (omega (arith, ka.0, kb.0)) ka.1 less in
      let h' = number-lt b kb.1 in
      let e : 256 ^ length b ≡ 256 ^ key_size = ap (λ n. 256 ^ n) kb.0 in omega arith;
  most = λ {k} key. omega arith;
}

abbrev pub down : Rank backward
down = record {
  rank = number;
  falls = λ {a} {b} ka kb less. number_mono b a (omega (arith, ka.0, kb.0)) kb.1 less;
  most = λ {k} key.
      let h = number-lt k key.1 in
      let e : 256 ^ length k ≡ 256 ^ key_size = ap (λ n. 256 ^ n) key.0 in omega arith;
}
