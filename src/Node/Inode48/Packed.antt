-- ===== src/Node/Inode48/Packed.antt =====
-- A node of 48 that is being built: the children stand in the places below their number.
use unodb.Base.{zero, suc, ℕ, ◌≤◌, ◌<◌, ◌≡◌, ◌≢◌, refl, sym, inl, inr, update, arith}
use native.Mathlib.Decide.{ℕ_discrete}
use unodb.Node.Spec.{IsAdded}
use unodb.Node.Slots.{tally}
use unodb.Node.Slots.Laws.{tally-store, tally-full, tally-unused}
use unodb.Node.Inode48.{Inode48, IsValid}

abbrev pub Leads : (ℕ → ℕ) → (ℕ → ℕ) → ℕ → ℕ → Type 0
Leads ix ptr b c = (b < 256) × (ix b ≢ 255) × (ptr (ix b) ≡ c)

pub record Packed (n : ℕ) (ix ptr : ℕ → ℕ) : Type 0 where
  pub inside : (b : ℕ) → b < 256 → ix b ≢ 255 → ix b < n
  pub present : (b : ℕ) → b < 256 → ix b ≢ 255 → 0 < ptr (ix b)
  pub distinct : (a b : ℕ) → a < 256 → b < 256 → ix a ≢ 255 → ix a ≡ ix b → a ≡ b
  pub owner : (i : ℕ) → i < n → (b : ℕ) × (b < 256) × (ix b ≡ i)
  pub count : n ≡ tally 255 ix 256

tally-nothing : (n : ℕ) → tally 255 (λ b. 255) n ≡ 0
unfolding tally
tally-nothing zero = refl
tally-nothing (suc n) = ground (arith, tally-nothing n)

pub Packed-zero : (ptr : ℕ → ℕ) → Packed 0 (λ b. 255) ptr
Packed-zero ptr = record {
  inside = λ b h m. absurd (m refl);
  present = λ b h m. absurd (m refl);
  distinct = λ a b h k m e. absurd (m refl);
  owner = λ i h. absurd (omega arith);
  count = sym (tally-nothing 256);
}

-- One more child in the next place.
module _ {n : ℕ} {ix ptr ptr' : ℕ → ℕ} (p : Packed n ix ptr) (b : ℕ) (room : n < 48) (lt : b < 256)
    (free : ix b ≡ 255) (same : (j : ℕ) → j < n → ptr' j ≡ ptr j) (leaf : 0 < ptr' n) where
  Packed-append : Packed (suc n) (update ix b n) ptr'
  Packed-append = record {
    inside = λ a h m. elim (ℕ_discrete b a) [
      | yes e ↦ ground arith
      | no ne ↦ let old = p.inside a h (λ z. m (ground arith)) in ground arith
    ];
    present = λ a h m. elim (ℕ_discrete b a) [
      | yes e ↦ ground arith
      | no ne ↦
          let m' : ix a ≢ 255 = λ z. m (ground arith) in
          let old = p.present a h m' in let eq = same (ix a) (p.inside a h m') in ground arith
    ];
    distinct = λ a a' h h' m e. elim (ℕ_discrete b a) [
      | yes f ↦ elim (ℕ_discrete b a') [
        | yes f' ↦ omega arith
        | no ne' ↦ let old = p.inside a' h' (λ z. ground arith) in absurd (ground arith)
      ]
      | no ne ↦ elim (ℕ_discrete b a') [
        | yes f' ↦ let old = p.inside a h (λ z. m (ground arith)) in absurd (ground arith)
        | no ne' ↦ p.distinct a a' h h' (λ z. m (ground arith)) (ground arith)
      ]
    ];
    owner = λ i h. elim (ℕ_discrete n i) [
      | yes e ↦ (b, lt, ground arith)
      | no ne ↦ let (a, ha, ea) = p.owner i (omega arith) in (a, ha, ground arith)
    ];
    count = omega (arith, p.count, tally-store 255 ix 256 b n lt free (λ z. omega arith));
  }

  Packed-IsAdded : IsAdded (Leads ix ptr) b (ptr' n) (Leads (update ix b n) ptr')
  Packed-IsAdded b' c' = elim (ℕ_discrete b b') [
    | yes e ↦ (
      λ (h, m, f). inl (sym e, ground arith),
      λ q. elim q [
        | inl (_, f) ↦ (ground arith, (λ z. ground arith), ground arith)
        | inr (h, m, f) ↦ absurd (m (ground arith))
      ],
    )
    | no ne ↦ (
      λ (h, m, f).
          let m' : ix b' ≢ 255 = λ z. m (ground arith) in
          let eq = same (ix b') (p.inside b' h m') in inr (h, m', ground arith),
      λ q. elim q [
        | inl (f, _) ↦ absurd (ne (sym f))
        | inr (h, m, f) ↦
            let eq = same (ix b') (p.inside b' h m) in (h, (λ z. m (ground arith)), ground arith)
      ],
    )
  ]

  pub appended :
      Packed (suc n) (update ix b n) ptr'
      × IsAdded (Leads ix ptr) b (ptr' n) (Leads (update ix b n) ptr')
  appended = (Packed-append, Packed-IsAdded)

-- The places from `n` on hold `nullptr`.
tally-packed :
    (f : ℕ → ℕ) (n m : ℕ)
    → n ≤ m
    → ((j : ℕ) → j < n → 0 < f j)
    → ((j : ℕ) → n ≤ j → j < m → f j ≡ 0)
    → tally 0 f m ≡ n
tally-packed f n zero h full rest =
    let e : n ≡ 0 = omega arith in rw e (tally-full f 0 (λ j k. full j (omega arith)))
tally-packed f n (suc m) h full rest = elim (ℕ_discrete n (suc m)) [
  | yes e ↦ rw e (tally-full f (suc m) (λ j k. full j (omega arith)))
  | no ne ↦ omega (
    arith,
    tally-unused 0 f m (rest m (omega arith) (omega arith)),
    tally-packed f n m (omega arith) full (λ j k l. rest j k (omega arith)),
  )
]

pub Packed-IsValid :
    (x : Inode48)
    → Packed x.children_count x.child_indexes x.pointer_array
    → x.children_count ≤ 48
    → ((j : ℕ) → x.children_count ≤ j → j < 48 → x.pointer_array j ≡ 0)
    → 17 ≤ x.children_count
    → IsValid x
Packed-IsValid x p all rest least =
    let full : (j : ℕ) → j < x.children_count → 0 < x.pointer_array j = λ j h.
      let (b, lt, e) = p.owner j h in let q = p.present b lt (λ z. omega arith) in rw e at q in
    let counted = tally-packed x.pointer_array x.children_count 48 all full rest in
    record {
      inside = λ b h m. omega (arith, p.inside b h m);
      present = p.present;
      distinct = p.distinct;
      owner = λ i h pos. p.owner i (ground (arith, rest i));
      counted = sym counted;
      mapped = p.count;
      least = least;
    }
