-- ===== src/Node/Sorted/Changed.antt =====
-- Arrays that hold what an insertion or a removal leaves, at the places that count.
use unodb.Base.{ℕ, suc, ◌-◌, ◌<◌, ◌≡◌, ◌↔◌, ◌⊎◌, inl, inr, ◌∙◌, sym, arith}
use native.Mathlib.Decide.{ℕ_discrete}
use mathlib.Core.Path.{subst}
use unodb.Node.Spec.{IsAdded, IsRemoved}
use unodb.Node.Sorted.{insert_at, remove_at, Entry, IsKeyed}
use unodb.Node.Sorted.Entries.{
  IsPlace, Entry-agree, IsKeyed-agree, IsKeyed-insert_at, Entry-insert_at, IsKeyed-remove_at,
  Entry-remove_at,
}

module _ {n : ℕ} {keys children keys' children' : ℕ → ℕ} (w : IsKeyed n keys children) where
  module _ {b c pos : ℕ} (place : IsPlace n keys b pos) (hb : b < 256) (hc : 0 < c)
      (hk : (i : ℕ) → i < suc n → keys' i ≡ insert_at keys pos b i)
      (hv : (i : ℕ) → i < suc n → children' i ≡ insert_at children pos c i) where
    pub inserted :
        {n' : ℕ}
        → n' ≡ suc n
        → IsKeyed n' keys' children'
          × IsAdded (Entry n keys children) b c (Entry n' keys' children')
    inserted e =
        subst
          (λ m.
            IsKeyed m keys' children'
            × IsAdded (Entry n keys children) b c (Entry m keys' children'))
          (sym e)
          (
            IsKeyed-agree hk hv (IsKeyed-insert_at w b c pos place hb hc),
            λ b' c'.
                let (to, from) = Entry-insert_at w b c pos place b' c' in
                (
                  λ q. to (Entry-agree hk hv q),
                  λ q. Entry-agree (λ i lt. sym (hk i lt)) (λ i lt. sym (hv i lt)) (from q),
                ),
          )

  module _ {pos : ℕ} (lt : pos < n) (hk : (i : ℕ) → i < n - 1 → keys' i ≡ remove_at keys pos i)
      (hv : (i : ℕ) → i < n - 1 → children' i ≡ remove_at children pos i) where
    pub removed :
        {n' : ℕ}
        → n' ≡ n - 1
        → IsKeyed n' keys' children'
          × IsRemoved (Entry n keys children) (keys pos) (Entry n' keys' children')
    removed e =
        subst
          (λ m.
            IsKeyed m keys' children'
            × IsRemoved (Entry n keys children) (keys pos) (Entry m keys' children'))
          (sym e)
          (
            IsKeyed-agree hk hv (IsKeyed-remove_at w pos lt),
            λ b' c'.
                let (to, from) = Entry-remove_at w pos lt b' c' in
                (
                  λ q. to (Entry-agree hk hv q),
                  λ q. Entry-agree (λ i lt. sym (hk i lt)) (λ i lt. sym (hv i lt)) (from q),
                ),
          )

-- Two key bytes in order.
abbrev pub IsPair : ℕ → ℕ → ℕ → ℕ → (ℕ → ℕ → Type 0) → Type 0
IsPair k c l d E = (b' c' : ℕ) → E b' c' ↔ (((b' ≡ k) × (c' ≡ c)) ⊎ ((b' ≡ l) × (c' ≡ d)))

pub pair :
    {n : ℕ} {keys children : ℕ → ℕ} {k c l d : ℕ}
    → n ≡ 2
    → (keys 0 ≡ k) × (children 0 ≡ c)
    → (keys 1 ≡ l) × (children 1 ≡ d)
    → k < l
    → l < 256
    → 0 < c
    → 0 < d
    → IsKeyed n keys children × IsPair k c l d (Entry n keys children)
pair {n} {keys} {children} e (k0, c0) (l1, d1) lt small pc pd = (
  record {
    sorted = λ i j h hj.
        let i0 : i ≡ 0 = omega arith in let j1 : j ≡ 1 = omega arith in rw (i0, j1) (omega arith);
    bytes = λ i h. elim (ℕ_discrete i 0) [
      | yes z ↦ rw z (omega arith)
      | no o ↦ let i1 : i ≡ 1 = omega arith in rw i1 (omega arith)
    ];
    present = λ i h. elim (ℕ_discrete i 0) [
      | yes z ↦ rw z (omega arith)
      | no o ↦ let i1 : i ≡ 1 = omega arith in rw i1 (omega arith)
    ];
  },
  λ b' c'. (
    λ (i, h, kb, kc). elim (ℕ_discrete i 0) [
      | yes z ↦ inl (sym kb ∙ (rw z k0), sym kc ∙ (rw z c0))
      | no o ↦ let i1 : i ≡ 1 = omega arith in inr (sym kb ∙ (rw i1 l1), sym kc ∙ (rw i1 d1))
    ],
    λ q. elim q [
      | inl (f, g) ↦ (0, omega arith, k0 ∙ sym f, c0 ∙ sym g)
      | inr (f, g) ↦ (1, omega arith, l1 ∙ sym f, d1 ∙ sym g)
    ],
  ),
)

pub IsPair-swap : {k c l d : ℕ} {E : ℕ → ℕ → Type 0} → IsPair k c l d E → IsPair l d k c E
IsPair-swap p b' c' = (
  λ h. elim ((p b' c').0 h) [ inl x ↦ inr x | inr x ↦ inl x ],
  λ q. (p b' c').1 (elim q [ inl x ↦ inr x | inr x ↦ inl x ]),
)
