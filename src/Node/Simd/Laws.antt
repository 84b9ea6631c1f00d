-- ===== src/Node/Simd/Laws.antt =====
-- What the bits of a comparison's mask say of the lanes.
use native.Mathlib.Nat.{
  pow-suc, mod-lt, mod-add-div, mul_assoc, add-mul-mod_self_left, mod-eq_of_lt,
}
use mathlib.Core.Path.{subst}
use native.Mathlib.Decide.{dec_lt}
use unodb.Base.{
  ℕ, zero, suc, ◌+◌, ◌*◌, ◌/◌, ◌%◌, ◌^◌, ◌≤◌, ◌<◌, ◌≡◌, ◌≢◌, refl, ◌∙◌, ap, sym, Bool, true, false,
  Bool-cases, inl, inr, if◌then◌else◌, ◌==◌, arith,
}
use unodb.Node.Simd.{bit, movemask, low_bits, countr_zero, popcount}

mod_double : (b m p : ℕ) → b < 2 → 0 < p → (b + 2 * m) % (2 * p) ≡ b + 2 * (m % p)
mod_double b m p h k =
    let r = m % p in
    let q = m / p in
    let small : b + 2 * r < 2 * p = omega (arith, mod-lt m k) in
    let split : b + 2 * m ≡ (b + 2 * r) + 2 * p * q =
      omega (arith, mod-add-div m p, mul_assoc 2 p q) in
    rw split (add-mul-mod_self_left (b + 2 * r) (2 * p) q ∙ mod-eq_of_lt small)

two_pow-lt : (n : ℕ) → 0 < 2 ^ n
two_pow-lt zero = omega arith
two_pow-lt (suc n) = omega (arith, two_pow-lt n, pow-suc 2 n)

bit-lt : (b : Bool) → bit b < 2
bit-lt true = omega arith
bit-lt false = omega arith

-- Masking off the high bits leaves the mask of the low lanes.
pub low_bits-movemask : (n m : ℕ) (f : ℕ → Bool) → n ≤ m → low_bits n (movemask m f) ≡ movemask n f
unfolding movemask
low_bits-movemask zero m f h = omega arith
low_bits-movemask (suc n) zero f h = absurd (omega arith)
low_bits-movemask (suc n) (suc m) f h =
    let e : 2 ^ suc n ≡ 2 * 2 ^ n = omega (arith, pow-suc 2 n) in
    let g : ℕ → Bool = λ i. f (suc i) in
    ap (λ k. (bit (f 0) + 2 * movemask m g) % k) e
    ∙ mod_double (bit (f 0)) (movemask m g) (2 ^ n) (bit-lt (f 0)) (two_pow-lt n)
    ∙ ap (λ x. bit (f 0) + 2 * x) (low_bits-movemask n m g (omega arith))

countr_zero_step :
    (w b m : ℕ)
    → b < 2
    → countr_zero (suc w) (b + 2 * m) ≡ (if b == 0 then suc (countr_zero w m) else 0)
unfolding countr_zero
countr_zero_step w b m h =
    let low : (b + 2 * m) % 2 ≡ b = omega arith in
    let high : (b + 2 * m) / 2 ≡ m = omega arith in rw (low, high) refl

popcount_step : (w b m : ℕ) → b < 2 → popcount (suc w) (b + 2 * m) ≡ b + popcount w m
unfolding popcount
popcount_step w b m h =
    let low : (b + 2 * m) % 2 ≡ b = omega arith in
    let high : (b + 2 * m) / 2 ≡ m = omega arith in rw (low, high) refl

popcount-zero : (w : ℕ) → popcount w 0 ≡ 0
unfolding popcount
popcount-zero zero = refl
popcount-zero (suc w) = omega (arith, popcount-zero w)

-- The first lane that is set.
pub record IsFirst (n : ℕ) (f : ℕ → Bool) (i : ℕ) : Type 0 where
  pub lt : i < n
  pub set : f i ≡ true
  pub before : (j : ℕ) → j < i → f j ≡ false

-- A mask that is 0 has no lane set.
pub movemask-zero : (n : ℕ) (f : ℕ → Bool) → movemask n f ≡ 0 → (j : ℕ) → j < n → f j ≡ false
unfolding movemask
movemask-zero zero f h j k = absurd (omega arith)
movemask-zero (suc n) f h zero k = elim (Bool-cases (f 0)) [
  | inl e ↦ absurd (omega (arith, rw e at h))
  | inr e ↦ e
]
movemask-zero (suc n) f h (suc j) k =
    movemask-zero n (λ i. f (suc i)) (omega (arith, bit-lt (f 0))) j (omega arith)

IsFirst-suc :
    {n : ℕ} (f : ℕ → Bool) {i : ℕ}
    → f 0 ≡ false
    → IsFirst n (λ i. f (suc i)) i
    → IsFirst (suc n) f (suc i)
IsFirst-suc {n} f {i} e r = record { lt = omega (arith, r.lt); set = r.set; before = before }
  where
    before : (j : ℕ) → j < suc i → f j ≡ false
    before zero k = e
    before (suc j) k = r.before j (omega arith)

-- The lowest bit of a mask that is not 0 is that of the first lane set.
pub countr_zero-IsFirst :
    (n w : ℕ) (f : ℕ → Bool) → n ≤ w → movemask n f ≢ 0 → IsFirst n f (countr_zero w (movemask n f))
unfolding movemask
countr_zero-IsFirst zero w f le h = absurd (h refl)
countr_zero-IsFirst (suc n) zero f le h = absurd (omega arith)
countr_zero-IsFirst (suc n) (suc w) f le h =
    let m = movemask n (λ i. f (suc i)) in
    elim (Bool-cases (f 0)) [
      | inl e ↦
          subst (IsFirst (suc n) f)
            (sym (countr_zero_step w (bit (f 0)) m (bit-lt (f 0)) ∙ rw e refl))
            (record { lt = omega arith; set = e; before = λ j k. absurd (omega arith) })
      | inr e ↦
          let nonzero : m ≢ 0 = λ z. h (rw e (omega (arith, z))) in
          let rest = countr_zero-IsFirst n w (λ i. f (suc i)) (omega arith) nonzero in
          subst (IsFirst (suc n) f)
            (sym (countr_zero_step w (bit (f 0)) m (bit-lt (f 0)) ∙ rw e refl))
            (IsFirst-suc f e rest)
    ]

-- Lanes that are set up to some place, and none behind it: the mask has as many bits as the lanes.
pub record IsCut (n : ℕ) (f : ℕ → Bool) (p : ℕ) : Type 0 where
  pub le : p ≤ n
  pub below : (j : ℕ) → j < p → f j ≡ true
  pub above : (j : ℕ) → p ≤ j → j < n → f j ≡ false

module _ {n : ℕ} (f : ℕ → Bool) {p : ℕ} (rest : IsCut n (λ i. f (suc i)) p) where
  IsCut-true : f 0 ≡ true → IsCut (suc n) f (1 + p)
  IsCut-true e = record { le = omega (arith, rest.le); below = below; above = above }
    where
      below : (j : ℕ) → j < 1 + p → f j ≡ true
      below zero k = e
      below (suc j) k = rest.below j (omega arith)

      above : (j : ℕ) → 1 + p ≤ j → j < suc n → f j ≡ false
      above zero k l = absurd (omega arith)
      above (suc j) k l = rest.above j (omega arith) (omega arith)

  IsCut-false :
      f 0 ≡ false
      → ((j : ℕ) → suc j < suc n → f (suc j) ≡ true → f j ≡ true)
      → IsCut (suc n) f (0 + p)
  IsCut-false e down = record {
    le = omega (arith, rest.le);
    below = λ j k. absurd (none_set (omega arith));
    above = above;
  }
    where
      none_set : 0 < p → ⊥
      none_set k = cc (e, down 0 (omega (arith, rest.le)) (rest.below 0 k))

      above : (j : ℕ) → 0 + p ≤ j → j < suc n → f j ≡ false
      above zero k l = e
      above (suc j) k l = elim (dec_lt 0 p) [
        | yes some ↦ absurd (none_set some)
        | no empty ↦ rest.above j (omega arith) (omega arith)
      ]

pub popcount-IsCut :
    (n w : ℕ) (f : ℕ → Bool)
    → n ≤ w
    → ((j : ℕ) → suc j < n → f (suc j) ≡ true → f j ≡ true)
    → IsCut n f (popcount w (movemask n f))
unfolding movemask
popcount-IsCut zero w f le down = subst (IsCut 0 f) (sym (popcount-zero w)) (record {
  le = omega arith;
  below = λ j k. absurd (omega arith);
  above = λ j k l. absurd (omega arith);
})
popcount-IsCut (suc n) zero f le down = absurd (omega arith)
popcount-IsCut (suc n) (suc w) f le down =
    let g : ℕ → Bool = λ i. f (suc i) in
    let rest = popcount-IsCut n w g (omega arith) (λ j k e. down (suc j) (omega arith) e) in
    subst (IsCut (suc n) f) (sym (popcount_step w (bit (f 0)) (movemask n g) (bit-lt (f 0))))
      (elim (Bool-cases (f 0)) [
        | inl e ↦ rw e (IsCut-true f rest e)
        | inr e ↦ rw e (IsCut-false f rest e down)
      ])

-- The same of a register of 16 lanes of which the lowest `n` are kept.
module _ (n : ℕ) (f : ℕ → Bool) (fits : n ≤ 16) where
  pub lanes-zero : low_bits n (movemask 16 f) ≡ 0 → (j : ℕ) → j < n → f j ≡ false
  lanes-zero h = movemask-zero n f (sym (low_bits-movemask n 16 f fits) ∙ h)

  pub lanes-IsFirst :
      low_bits n (movemask 16 f) ≢ 0 → IsFirst n f (countr_zero 32 (low_bits n (movemask 16 f)))
  lanes-IsFirst h =
      let low = low_bits-movemask n 16 f fits in
      subst (λ m. IsFirst n f (countr_zero 32 m)) (sym low)
        (countr_zero-IsFirst n 32 f (omega arith) (λ z. h (low ∙ z)))

  pub lanes-IsCut :
      ((j : ℕ) → suc j < n → f (suc j) ≡ true → f j ≡ true)
      → IsCut n f (popcount 32 (low_bits n (movemask 16 f)))
  lanes-IsCut down =
      subst (λ m. IsCut n f (popcount 32 m)) (sym (low_bits-movemask n 16 f fits))
        (popcount-IsCut n 32 f (omega arith) down)
