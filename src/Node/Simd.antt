-- ===== src/Node/Simd.antt =====
-- The vector and bit instructions that the nodes use. A register of `n` lanes is the function from
-- the lane's number to the lane, and a comparison gives a Boolean for each lane.
pub mod Laws
use unodb.Base.{ℕ, zero, suc, ◌+◌, ◌*◌, ◌/◌, ◌%◌, ◌^◌, Bool, if◌then◌else◌, leb, ◌==◌}

abbrev pub bit : Bool → ℕ
bit b = if b then 1 else 0

-- `_mm_movemask_epi8` of `n` lanes
unfoldable pub movemask : ℕ → (ℕ → Bool) → ℕ
movemask zero f = 0
movemask (suc n) f = bit (f 0) + 2 * movemask n (λ i. f (suc i))

-- `x & ((1U << n) - 1)`
abbrev pub low_bits : ℕ → ℕ → ℕ
low_bits n x = x % 2 ^ n

-- `std::countr_zero` of a `w`-bit integer
unfoldable pub countr_zero : ℕ → ℕ → ℕ
countr_zero zero x = 0
countr_zero (suc w) x = let rest = countr_zero w (x / 2) in if x % 2 == 0 then suc rest else 0

-- `std::popcount` of a `w`-bit integer
unfoldable pub popcount : ℕ → ℕ → ℕ
popcount zero x = 0
popcount (suc w) x = x % 2 + popcount w (x / 2)

-- `_mm_cmpeq_epi8` and `_mm_cmple_epu8` against a register that holds `key` in every lane
abbrev pub cmpeq : ℕ → (ℕ → ℕ) → ℕ → Bool
cmpeq key register i = key == register i
