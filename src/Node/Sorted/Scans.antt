-- ===== src/Node/Sorted/Scans.antt =====
-- Stepping through sorted key bytes, by index and by scanning.
use unodb.Base.{
  ℕ, zero, suc, ◌+◌, ◌-◌, ◌≤◌, ◌<◌, ◌≡◌, refl, none, some, Bool-cases, inl, inr, if◌then◌else◌, leb,
  ◌==◌, arith,
}
use native.Mathlib.Decide.{dec_lt}
use unodb.Node.{IterResult, found}
use unodb.Node.Spec.{IsGte, IsLt}
use unodb.Node.Sorted.{Entry, IsKeyed, scan_up, scan_down}

module _ {n : ℕ} {keys children : ℕ → ℕ} (w : IsKeyed n keys children) (prefix : ℕ) where
  abbrev pub at : ℕ → IterResult
  at i = record { key_byte = keys i; child_index = i; prefix = prefix }

  mono : (i j : ℕ) → i ≤ j → j < n → keys i ≤ keys j
  mono i j h k = elim (dec_lt i j) [
    | yes lt ↦ omega (arith, w.sorted i j lt k)
    | no ge ↦ let e : i ≡ j = omega arith in rw e (omega arith)
  ]

  -- The first index whose byte is at least `b`.
  pub index-IsGte :
      (b i : ℕ)
      → i < n
      → b ≤ keys i
      → ((j : ℕ) → j < i → keys j < b)
      → IsGte (Entry n keys children) b (some (at i))
  index-IsGte b i lt h low = (
    (children i, (i, lt, refl, refl)),
    h,
    λ b' c (j, hj, kj, cj) le. elim (dec_lt j i) [
      | yes before ↦ absurd (omega (arith, low j before))
      | no behind ↦ omega (arith, mono i j (omega arith) hj)
    ],
  )

  pub none-IsGte : (b : ℕ) → ((j : ℕ) → j < n → keys j < b) → IsGte (Entry n keys children) b none
  none-IsGte b low b' c (j, hj, kj, cj) = omega (arith, low j hj)

  -- The last index whose byte is below `b`.
  pub index-IsLt :
      (b i : ℕ)
      → i < n
      → keys i < b
      → ((j : ℕ) → i < j → j < n → b ≤ keys j)
      → IsLt (Entry n keys children) b (some (at i))
  index-IsLt b i lt h high = (
    (children i, (i, lt, refl, refl)),
    h,
    λ b' c (j, hj, kj, cj) le. elim (dec_lt i j) [
      | yes behind ↦ absurd (omega (arith, high j behind hj))
      | no before ↦ omega (arith, mono j i (omega arith) lt)
    ],
  )

  pub none-IsLt : (b : ℕ) → ((j : ℕ) → j < n → b ≤ keys j) → IsLt (Entry n keys children) b none
  none-IsLt b high b' c (j, hj, kj, cj) = omega (arith, high j hj)

  pub next-IsGte :
      (i : ℕ)
      → i < n
      → IsGte
          (Entry n keys children)
          (suc (keys i))
          (if leb n (suc i) then none else some (at (suc i)))
  next-IsGte i lt = elim (Bool-cases (leb n (suc i))) [
    | inl end ↦ rw end (none-IsGte _ (λ j h. omega (arith, mono j i (ground arith) lt)))
    | inr more ↦ rw more (
        index-IsGte _ (suc i) (ground arith) (w.sorted i (suc i) (omega arith) (ground arith))
          (λ j h. omega (arith, mono j i (omega arith) lt)))
  ]

  pub prior-IsLt :
      (i : ℕ)
      → i < n
      → IsLt (Entry n keys children) (keys i) (if i == 0 then none else some (at (i - 1)))
  prior-IsLt i lt = elim (Bool-cases (i == 0)) [
    | inl first ↦ rw first (none-IsLt _ (λ j h. mono i j (ground arith) h))
    | inr later ↦ rw later (
        index-IsLt _ (i - 1) (omega arith) (w.sorted (i - 1) i (ground arith) lt)
          (λ j h k. mono i j (omega arith) k))
  ]

  scan_up-IsGte_from :
      (b d i : ℕ)
      → d + i ≡ n
      → ((j : ℕ) → j < i → keys j < b)
      → IsGte (Entry n keys children) b (found at (scan_up keys b d i))
  unfolding scan_up
  scan_up-IsGte_from b zero i e low = none-IsGte b (λ j h. low j (omega arith))
  scan_up-IsGte_from b (suc d) i e low = elim (Bool-cases (leb b (keys i))) [
    | inl yes_le ↦ rw yes_le (index-IsGte b i (omega arith) (ground arith) low)
    | inr no_le ↦ rw no_le (
        scan_up-IsGte_from b d (suc i) (omega arith) (λ j h. elim (dec_lt j i) [
          | yes lt ↦ low j lt
          | no ge ↦ let same : j ≡ i = omega arith in rw same (ground arith)
        ]))
  ]

  pub scan_up-IsGte : (b : ℕ) → IsGte (Entry n keys children) b (found at (scan_up keys b n 0))
  scan_up-IsGte b = scan_up-IsGte_from b n 0 (omega arith) (λ j h. absurd (omega arith))

  scan_down-IsLt_from :
      (b i : ℕ)
      → i ≤ n
      → ((j : ℕ) → i ≤ j → j < n → suc b ≤ keys j)
      → IsLt (Entry n keys children) (suc b) (found at (scan_down keys b i))
  unfolding scan_down
  scan_down-IsLt_from b zero le high = none-IsLt (suc b) (λ j h. high j (omega arith) h)
  scan_down-IsLt_from b (suc i) le high = elim (Bool-cases (leb (keys i) b)) [
    | inl yes_le ↦
        rw yes_le
          (index-IsLt (suc b) i (omega arith) (ground arith) (λ j h k. high j (omega arith) k))
    | inr no_le ↦ rw no_le (
        scan_down-IsLt_from b i (omega arith) (λ j h k. elim (dec_lt i j) [
          | yes lt ↦ high j (omega arith) k
          | no ge ↦ let same : j ≡ i = omega arith in rw same (ground arith)
        ]))
  ]

  pub scan_down-IsLt :
      (b : ℕ) → IsLt (Entry n keys children) (suc b) (found at (scan_down keys b n))
  scan_down-IsLt b = scan_down-IsLt_from b n (omega arith) (λ j h k. absurd (omega arith))
