-- ===== src/Base/Arrays.antt =====
-- A fixed-size array is the function from its indices to its elements.
use Prim.Native.Nat.{ℕ}
use mathlib.Core.Path.{subst}
use mathlib.Core.Logic.{◌≢◌, inl, inr}
use native.Mathlib.Omega.{arith}
use unodb.Base.Tests.{◌==◌, if◌then◌else◌, Bool-cases, ==_iff}

-- `a[i] = v`.
abbrev pub update {ℓ} : {A : Type ℓ} → (ℕ → A) → ℕ → A → ℕ → A
update f i v j = if i == j then v else f j

-- What holds of the new element and of the old ones holds of every element.
pub update-elim {ℓ κ} :
    {A : Type ℓ} (P : ℕ → A → Type κ) (f : ℕ → A) (i : ℕ) (v : A)
    → P i v
    → ((j : ℕ) → i ≢ j → P j (f j))
    → (j : ℕ) → P j (update f i v j)
update-elim P f i v here there j = elim (Bool-cases (i == j)) [
  | inl same ↦ rw same (subst (λ k. P k v) ((==_iff i j).0 same) here)
  | inr other ↦ rw other (there j (λ e. ground arith))
]
