-- ===== src/Node/Sorted/Entries.antt =====
-- What an insertion and a removal change in what a node maps.
use unodb.Base.{ℕ, suc, ◌-◌, ◌≤◌, ◌<◌, ◌≡◌, ◌≢◌, ◌↔◌, ◌⊎◌, inl, inr, refl, ◌∙◌, sym, arith}
use native.Mathlib.Decide.{dec_lt, ℕ_discrete}
use unodb.Node.Sorted.{insert_at, remove_at, Entry, IsKeyed}

-- An index and a place: before it, at it, or behind it.
pub data Side (j pos : ℕ) : Type 0 where
  before : j < pos → Side j pos
  here : j ≡ pos → Side j pos
  behind : (k : ℕ) → j ≡ suc k → pos ≤ k → Side j pos

pub side : (j pos : ℕ) → Side j pos
side j pos = elim (dec_lt j pos) [
  | yes lt ↦ before lt
  | no ge ↦ elim (ℕ_discrete j pos) [
    | yes e ↦ here e
    | no ne ↦ behind (j - 1) (omega arith) (omega arith)
  ]
]

-- The key byte at a place tells the place.
pub IsKeyed-index :
    {n : ℕ} {keys children : ℕ → ℕ} (w : IsKeyed n keys children) (i j : ℕ)
    → i < n
    → j < n
    → keys i ≡ keys j
    → i ≡ j
IsKeyed-index {n} {keys} w i j hi hj e = elim (dec_lt i j) [
  | yes below ↦ absurd (omega (arith, w.sorted i j below hj))
  | no high ↦ elim (dec_lt j i) [
    | yes above ↦ absurd (omega (arith, w.sorted j i above hi))
    | no low ↦ omega arith
  ]
]

-- Arrays that agree at the first `n` places map the same.
pub Entry-agree :
    {n : ℕ} {keys children keys' children' : ℕ → ℕ} {b c : ℕ}
    → ((i : ℕ) → i < n → keys i ≡ keys' i)
    → ((i : ℕ) → i < n → children i ≡ children' i)
    → Entry n keys children b c
    → Entry n keys' children' b c
Entry-agree hk hc (i, lt, k, e) = (i, lt, sym (hk i lt) ∙ k, sym (hc i lt) ∙ e)

pub IsKeyed-agree :
    {n : ℕ} {keys children keys' children' : ℕ → ℕ}
    → ((i : ℕ) → i < n → keys i ≡ keys' i)
    → ((i : ℕ) → i < n → children i ≡ children' i)
    → IsKeyed n keys' children'
    → IsKeyed n keys children
IsKeyed-agree hk hc w = record {
  sorted = λ i j lt hj. omega (arith, w.sorted i j lt hj, hk i (omega arith), hk j hj);
  bytes = λ i lt. omega (arith, w.bytes i lt, hk i lt);
  present = λ i lt. omega (arith, w.present i lt, hc i lt);
}

-- A place for `b`: below it are the lesser key bytes, from it on the greater ones.
pub record IsPlace (n : ℕ) (keys : ℕ → ℕ) (b pos : ℕ) : Type 0 where
  pub le : pos ≤ n
  pub below : (j : ℕ) → j < pos → keys j < b
  pub above : (j : ℕ) → pos ≤ j → j < n → b < keys j

module _ {n : ℕ} {keys children : ℕ → ℕ} (w : IsKeyed n keys children) where
  module _ (b c pos : ℕ) (place : IsPlace n keys b pos) where
    pub IsKeyed-insert_at :
        b < 256 → 0 < c → IsKeyed (suc n) (insert_at keys pos b) (insert_at children pos c)
    IsKeyed-insert_at hb hc = record {
      sorted = λ i j lt hj. elim (side i pos) [
        | before p ↦ elim (side j pos) [
          | before q ↦ ground (arith, w.sorted i j lt (omega (arith, place.le)))
          | here q ↦ ground (arith, place.below i p)
          | behind k q r ↦ ground (arith, w.sorted i k (omega arith) (omega arith))
        ]
        | here p ↦ ground (arith, place.above (j - 1) (omega arith) (omega arith))
        | behind k p q ↦ ground (arith, w.sorted k (j - 1) (omega arith) (omega arith))
      ];
      bytes = λ i lt. elim (side i pos) [
        | before p ↦ ground (arith, w.bytes i (omega (arith, place.le)))
        | here p ↦ ground arith
        | behind k p q ↦ ground (arith, w.bytes k (omega arith))
      ];
      present = λ i lt. elim (side i pos) [
        | before p ↦ ground (arith, w.present i (omega (arith, place.le)))
        | here p ↦ ground arith
        | behind k p q ↦ ground (arith, w.present k (omega arith))
      ];
    }

    pub Entry-insert_at :
        (b' c' : ℕ)
        → Entry (suc n) (insert_at keys pos b) (insert_at children pos c) b' c'
          ↔ (((b' ≡ b) × (c' ≡ c)) ⊎ Entry n keys children b' c')
    Entry-insert_at b' c' = (
      λ (i, lt, kb, kc). elim (side i pos) [
        | before p ↦ inr (i, omega (arith, place.le), ground arith, ground arith)
        | here p ↦ inl (ground arith, ground arith)
        | behind k p q ↦ inr (k, omega arith, ground arith, ground arith)
      ],
      λ r. elim r [
        | inl (eb, ec) ↦ (pos, omega (arith, place.le), ground arith, ground arith)
        | inr (i, lt, kb, kc) ↦ elim (dec_lt i pos) [
          | yes p ↦ (i, omega arith, ground arith, ground arith)
          | no p ↦ (suc i, omega arith, ground arith, ground arith)
        ]
      ],
    )

  module _ (pos : ℕ) (lt : pos < n) where
    pub IsKeyed-remove_at : IsKeyed (n - 1) (remove_at keys pos) (remove_at children pos)
    IsKeyed-remove_at = record {
      sorted = λ i j h hj. elim (dec_lt i pos) [
        | yes p ↦ elim (dec_lt j pos) [
          | yes q ↦ ground (arith, w.sorted i j h (omega arith))
          | no q ↦ ground (arith, w.sorted i (suc j) (omega arith) (omega arith))
        ]
        | no p ↦ ground (arith, w.sorted (suc i) (suc j) (omega arith) (omega arith))
      ];
      bytes = λ i h. elim (dec_lt i pos) [
        | yes p ↦ ground (arith, w.bytes i (omega arith))
        | no p ↦ ground (arith, w.bytes (suc i) (omega arith))
      ];
      present = λ i h. elim (dec_lt i pos) [
        | yes p ↦ ground (arith, w.present i (omega arith))
        | no p ↦ ground (arith, w.present (suc i) (omega arith))
      ];
    }

    pub Entry-remove_at :
        (b' c' : ℕ)
        → Entry (n - 1) (remove_at keys pos) (remove_at children pos) b' c'
          ↔ ((b' ≢ keys pos) × Entry n keys children b' c')
    Entry-remove_at b' c' = (
      λ (i, h, kb, kc). elim (dec_lt i pos) [
        | yes p ↦ (
          λ e. absurd (ground (arith, w.sorted i pos p lt)),
          (i, omega arith, ground arith, ground arith),
        )
        | no p ↦ (
          λ e. absurd (ground (arith, w.sorted pos (suc i) (omega arith) (omega arith))),
          (suc i, omega arith, ground arith, ground arith),
        )
      ],
      λ (ne, (i, h, kb, kc)). elim (side i pos) [
        | before p ↦ (i, omega arith, ground arith, ground arith)
        | here p ↦ absurd (ne (sym kb ∙ rw p refl))
        | behind k p q ↦ (k, omega arith, ground arith, ground arith)
      ],
    )
