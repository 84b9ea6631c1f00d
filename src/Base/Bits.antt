-- ===== src/Base/Bits.antt =====
-- The bitwise operators `|` and `^` on `w`-bit integers.
use unodb.Base.{
  ℕ, zero, suc, ◌+◌, ◌*◌, ◌/◌, ◌%◌, ◌^◌, ◌<◌, ◌≡◌, refl, ◌∙◌, if◌then◌else◌, ◌==◌, arith,
}
use native.Mathlib.Nat.{pow-succ', mul_assoc}

unfoldable pub bit_or : ℕ → ℕ → ℕ → ℕ
bit_or zero x y = 0
bit_or (suc w) x y = (if x % 2 + y % 2 == 0 then 0 else 1) + 2 * bit_or w (x / 2) (y / 2)

unfoldable pub bit_xor : ℕ → ℕ → ℕ → ℕ
bit_xor zero x y = 0
bit_xor (suc w) x y = (x % 2 + y % 2) % 2 + 2 * bit_xor w (x / 2) (y / 2)

pub bit_or_comm : (w x y : ℕ) → bit_or w x y ≡ bit_or w y x
unfolding bit_or
bit_or_comm zero x y = refl
bit_or_comm (suc w) x y = ground (arith, bit_or_comm w (x / 2) (y / 2))

bit_or_zero : (w x y : ℕ) → x ≡ 0 → y < 2 ^ w → bit_or w x y ≡ x + y
unfolding bit_or
bit_or_zero zero x y e h = omega arith
bit_or_zero (suc w) x y e h =
    ground (arith, bit_or_zero w (x / 2) (y / 2) (omega arith) (omega arith))

-- Bits below `k` and bits from `k` on do not meet.
pub bit_or-add :
    (w k x z : ℕ) → x < 2 ^ k → x + 2 ^ k * z < 2 ^ w → bit_or w x (2 ^ k * z) ≡ x + 2 ^ k * z
unfolding bit_or
bit_or-add zero k x z h l = omega arith
bit_or-add (suc w) zero x z h l = bit_or_zero (suc w) x _ (omega arith) (omega arith)
bit_or-add (suc w) (suc k) x z h l =
    let e : 2 ^ suc k * z ≡ 2 * (2 ^ k * z) = rw (pow-succ' 2 k) (mul_assoc 2 (2 ^ k) z) in
    let half : 2 ^ suc k * z / 2 ≡ 2 ^ k * z = omega arith in
    let even : 2 ^ suc k * z % 2 ≡ 0 = omega arith in
    let rest = bit_or-add w k (x / 2) z (omega arith) (omega arith) in
    rw (half, even) (ground arith)

pub bit_or-add_comm :
    (w k x z : ℕ) → x < 2 ^ k → x + 2 ^ k * z < 2 ^ w → bit_or w (2 ^ k * z) x ≡ x + 2 ^ k * z
bit_or-add_comm w k x z h l = bit_or_comm w (2 ^ k * z) x ∙ bit_or-add w k x z h l
