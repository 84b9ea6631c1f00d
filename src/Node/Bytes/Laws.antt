-- ===== src/Node/Bytes/Laws.antt =====
-- The two loops find the nearest mapped byte.
use unodb.Base.{
  ℕ, zero, suc, ◌+◌, ◌-◌, ◌≤◌, ◌<◌, ◌≡◌, Bool, Bool-cases, inl, inr, true, false, arith,
}
use native.Mathlib.Decide.{dec_lt}
use unodb.Node.{IterResult, found}
use unodb.Node.Spec.{IsGte, IsLt}
use unodb.Node.Bytes.{first_mapped, last_mapped}

-- A node maps a byte exactly where the loop's test holds, and only the 256 bytes.
pub record IsTest (E : ℕ → ℕ → Type 0) (mapped : ℕ → Bool) (child : ℕ → ℕ) : Type 0 where
  pub sound : (b : ℕ) → b < 256 → mapped b ≡ true → E b (child b)
  pub complete : (b c : ℕ) → E b c → (b < 256) × (mapped b ≡ true)

module _ {E : ℕ → ℕ → Type 0} {mapped : ℕ → Bool} {child : ℕ → ℕ} (t : IsTest E mapped child)
    (prefix : ℕ) where
  abbrev pub at : ℕ → IterResult
  at i = record { key_byte = i; child_index = i; prefix = prefix }

  pub first_mapped-IsGte :
      (b d i : ℕ)
      → d + i ≡ 256
      → b ≤ i
      → ((j : ℕ) → b ≤ j → j < i → mapped j ≡ false)
      → IsGte E b (found at (first_mapped mapped d i))
  unfolding first_mapped
  first_mapped-IsGte b zero i e le low = λ b' c h.
      let (small, set) = t.complete b' c h in
      elim (dec_lt b' b) [
        | yes lt ↦ lt
        | no ge ↦ absurd (cc (set, low b' (omega arith) (omega arith)))
      ]
  first_mapped-IsGte b (suc d) i e le low = elim (Bool-cases (mapped i)) [
    | inl set ↦ rw set (
      (child i, t.sound i (omega arith) set),
      le,
      λ b' c h ge. elim (dec_lt b' i) [
        | yes lt ↦ absurd (cc ((t.complete b' c h).1, low b' ge lt))
        | no high ↦ omega arith
      ],
    )
    | inr unset ↦ rw unset (
        first_mapped-IsGte b d (suc i) (omega arith) (omega arith) (λ j ge lt. elim (dec_lt j i) [
          | yes before ↦ low j ge before
          | no last ↦ let same : j ≡ i = omega arith in rw same unset
        ]))
  ]

  pub last_mapped-IsLt :
      (b i : ℕ)
      → b ≤ 256
      → i ≤ b
      → ((j : ℕ) → i ≤ j → j < b → mapped j ≡ false)
      → IsLt E b (found at (last_mapped mapped i))
  unfolding last_mapped
  last_mapped-IsLt b zero small le high = λ b' c h. elim (dec_lt b' b) [
    | yes lt ↦ absurd (cc ((t.complete b' c h).1, high b' (omega arith) lt))
    | no ge ↦ omega arith
  ]
  last_mapped-IsLt b (suc i) small le high = elim (Bool-cases (mapped i)) [
    | inl set ↦ rw set (
      (child i, t.sound i (omega arith) set),
      omega arith,
      λ b' c h lt. elim (dec_lt i b') [
        | yes gt ↦ absurd (cc ((t.complete b' c h).1, high b' gt lt))
        | no low ↦ omega arith
      ],
    )
    | inr unset ↦ rw unset (
        last_mapped-IsLt b i small (omega arith) (λ j ge lt. elim (dec_lt i j) [
          | yes behind ↦ high j behind lt
          | no last ↦ let same : j ≡ i = omega arith in rw same unset
        ]))
  ]

  -- The loops over all bytes, and over those on one side of a byte.
  pub upward : (b : ℕ) → b ≤ 256 → IsGte E b (found at (first_mapped mapped (256 - b) b))
  upward b h =
      first_mapped-IsGte b (256 - b) b (omega arith) (omega arith) (λ j ge lt. absurd (omega arith))

  pub downward : (b : ℕ) → b ≤ 256 → IsLt E b (found at (last_mapped mapped b))
  downward b h = last_mapped-IsLt b b h (omega arith) (λ j ge lt. absurd (omega arith))
