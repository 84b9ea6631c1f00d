-- ===== src/Node/Slots/Laws.antt =====
-- How storing and clearing a value changes the number of the used places.
use unodb.Base.{
  some, Bool-cases, inl, inr, ℕ, zero, suc, ◌+◌, ◌≤◌, ◌<◌, ◌≡◌, ◌≢◌, refl, update, ◌==◌, arith,
}
use native.Mathlib.Decide.{dec_lt, ℕ_discrete}
use unodb.Node.Bytes.{first_mapped}
use unodb.Node.Slots.{tally}

pub tally-le : (u : ℕ) (f : ℕ → ℕ) (n : ℕ) → tally u f n ≤ n
unfolding tally
tally-le u f zero = omega arith
tally-le u f (suc n) = ground (arith, tally-le u f n)

tally-update_of_le :
    (u : ℕ) (f : ℕ → ℕ) (n i v : ℕ) → n ≤ i → tally u (update f i v) n ≡ tally u f n
unfolding tally
tally-update_of_le u f zero i v h = refl
tally-update_of_le u f (suc n) i v h = ground (arith, tally-update_of_le u f n i v)

pub tally_mono : (u : ℕ) (f : ℕ → ℕ) (i n : ℕ) → i ≤ n → tally u f i ≤ tally u f n
unfolding tally
tally_mono u f i zero h = let e : i ≡ 0 = omega arith in rw e (omega arith)
tally_mono u f i (suc n) h = elim (ℕ_discrete i (suc n)) [
  | yes e ↦ rw e (omega arith)
  | no ne ↦ ground (arith, tally_mono u f i n (omega arith))
]

-- The next place, unused or used.
pub tally-unused : (u : ℕ) (f : ℕ → ℕ) (i : ℕ) → f i ≡ u → tally u f (suc i) ≡ tally u f i
unfolding tally
tally-unused u f i e = ground arith

pub tally-used : (u : ℕ) (f : ℕ → ℕ) (i : ℕ) → f i ≢ u → tally u f (suc i) ≡ suc (tally u f i)
unfolding tally
tally-used u f i e = ground arith

-- No place is used from the one on at which all used ones have been counted.
pub tally-rest :
    (u : ℕ) (f : ℕ → ℕ) (i j n : ℕ) → tally u f i ≡ tally u f n → i ≤ j → j < n → f j ≡ u
tally-rest u f i j n e h k = elim (ℕ_discrete (f j) u) [
  | yes unused ↦ unused
  | no used ↦
      absurd
        (omega (arith, tally_mono u f i j h, tally_mono u f (suc j) n k, tally-used u f j used))
]

-- A value stored in an unused place.
pub tally-store :
    (u : ℕ) (f : ℕ → ℕ) (n i v : ℕ)
    → i < n
    → f i ≡ u
    → v ≢ u
    → tally u (update f i v) n ≡ suc (tally u f n)
unfolding tally
tally-store u f zero i v h e p = absurd (omega arith)
tally-store u f (suc n) i v h e p = elim (dec_lt i n) [
  | yes lt ↦ ground (arith, tally-store u f n i v lt e p)
  | no last ↦ let same : i ≡ n = omega arith in ground (arith, tally-update_of_le u f n i v)
]

-- A used place cleared.
pub tally-clear :
    (u : ℕ) (f : ℕ → ℕ) (n i : ℕ) → i < n → f i ≢ u → suc (tally u (update f i u) n) ≡ tally u f n
unfolding tally
tally-clear u f zero i h p = absurd (omega arith)
tally-clear u f (suc n) i h p = elim (dec_lt i n) [
  | yes lt ↦ ground (arith, tally-clear u f n i lt p)
  | no last ↦ let same : i ≡ n = omega arith in ground (arith, tally-update_of_le u f n i u)
]

pub tally-full : (f : ℕ → ℕ) (n : ℕ) → ((i : ℕ) → i < n → 0 < f i) → tally 0 f n ≡ n
unfolding tally
tally-full f zero h = refl
tally-full f (suc n) h =
    ground (arith, tally-full f n (λ i lt. h i (omega arith)), h n (omega arith))

first_empty_from :
    (f : ℕ → ℕ) (n d i : ℕ)
    → d + i ≡ n
    → ((j : ℕ) → j < i → 0 < f j)
    → tally 0 f n < n
    → (k : ℕ) × (first_mapped (λ j. f j == 0) d i ≡ some k) × (k < n) × (f k ≡ 0)
unfolding first_mapped
first_empty_from f n zero i e full few =
    absurd (omega (arith, tally-full f n (λ j lt. full j (omega arith))))
first_empty_from f n (suc d) i e full few = elim (Bool-cases (f i == 0)) [
  | inl empty ↦ (i, rw empty refl, omega arith, ground arith)
  | inr used ↦
      let (k, got, lt, empty) =
        first_empty_from f n d (suc i) (omega arith)
          (λ j h. elim (dec_lt j i) [
            | yes before ↦ full j before
            | no last ↦ let same : j ≡ i = omega arith in rw same (ground arith)
          ])
          few in
      (k, rw used got, lt, empty)
]

-- An array that is not full has an empty place, and the loop finds one.
pub first_empty :
    (f : ℕ → ℕ) (n : ℕ)
    → tally 0 f n < n
    → (k : ℕ) × (first_mapped (λ j. f j == 0) n 0 ≡ some k) × (k < n) × (f k ≡ 0)
first_empty f n few = first_empty_from f n n 0 (omega arith) (λ j h. absurd (omega arith)) few

-- A value stored in a used place.
pub tally-replace :
    (u : ℕ) (f : ℕ → ℕ) (n i v : ℕ) → f i ≢ u → v ≢ u → tally u (update f i v) n ≡ tally u f n
unfolding tally
tally-replace u f zero i v p q = refl
tally-replace u f (suc n) i v p q = elim (ℕ_discrete i n) [
  | yes e ↦ ground (arith, tally-replace u f n i v p q)
  | no ne ↦ ground (arith, tally-replace u f n i v p q)
]
