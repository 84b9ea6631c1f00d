-- ===== src/Node/Grow/FortyEight.antt =====
-- From 48 children to 49.
use unodb.Base.{
  zero, suc, ℕ, ◌+◌, ◌-◌, ◌≤◌, ◌<◌, ◌≡◌, ◌≢◌, inl, inr, refl, sym, ◌∙◌, some, true, false,
  Bool-cases, update, if◌then◌else◌, ◌==◌, ==_iff, arith,
}
use mathlib.Core.Path.{subst}
use native.Mathlib.Decide.{ℕ_discrete, dec_lt}
use unodb.Node.{Leaf, key_byte_at}
use unodb.Node.Spec.{IsAdded}
use unodb.Node.Slots.{tally}
use unodb.Node.Slots.Laws.{tally-used, tally-unused, tally-rest, tally-store}
use unodb.Node.Inode48
use unodb.Node.Inode48.{Inode48}
use unodb.Node.Inode256
use unodb.Node.Inode256.{Inode256}
use unodb.Node.Grow.{spread, fill_null, init_inode256}
use unodb.Node.Grow.Filled.{fill_null-get}

module _ (ix ptr : ℕ → ℕ) where
  -- The child of a byte, or `nullptr`.
  abbrev child_of : ℕ → ℕ
  child_of b = if ix b == 255 then 0 else ptr (ix b)

  record Spread (i copied : ℕ) (children : ℕ → ℕ) : Type 0 where
    count : copied ≡ tally 255 ix i
    same : (b : ℕ) → b < i → children b ≡ child_of b

  Spread-skip :
      {i copied : ℕ} {children : ℕ → ℕ}
      → Spread i copied children
      → (ix i == 255) ≡ true
      → Spread (suc i) copied (update children i 0)
  Spread-skip {i} g e = record {
    count = g.count ∙ sym (tally-unused 255 ix i ((==_iff (ix i) 255).0 e));
    same = λ b h. elim (ℕ_discrete i b) [
      | yes f ↦ ground arith
      | no ne ↦ let old = g.same b (omega arith) in ground arith
    ];
  }

  Spread-take :
      {i copied : ℕ} {children : ℕ → ℕ}
      → Spread i copied children
      → (ix i == 255) ≡ false
      → Spread (suc i) (suc copied) (update children i (ptr (ix i)))
  Spread-take {i} g e = record {
    count = omega (arith, g.count, tally-used 255 ix i (λ z. ground arith));
    same = λ b h. elim (ℕ_discrete i b) [
      | yes f ↦ ground arith
      | no ne ↦ let old = g.same b (omega arith) in ground arith
    ];
  }

  spread_skip :
      (d i copied : ℕ) (children : ℕ → ℕ)
      → (ix i == 255) ≡ true
      → spread ix ptr (suc d) i copied children
        ≡ spread ix ptr d (suc i) copied (update children i 0)
  unfolding spread
  spread_skip d i copied children e = rw (spread, e) refl

  spread_last :
      (d i copied : ℕ) (children : ℕ → ℕ)
      → (ix i == 255) ≡ false
      → (suc copied == 48) ≡ true
      → spread ix ptr (suc d) i copied children ≡ some (suc i, update children i (ptr (ix i)))
  unfolding spread
  spread_last d i copied children e f = rw (spread, e, f) refl

  spread_more :
      (d i copied : ℕ) (children : ℕ → ℕ)
      → (ix i == 255) ≡ false
      → (suc copied == 48) ≡ false
      → spread ix ptr (suc d) i copied children
        ≡ spread ix ptr d (suc i) (suc copied) (update children i (ptr (ix i)))
  unfolding spread
  spread_more d i copied children e f = rw (spread, e, f) refl

  spread-Spread :
      (d i copied : ℕ) (children : ℕ → ℕ)
      → d + i ≡ 256
      → tally 255 ix 256 ≡ 48
      → copied < 48
      → Spread i copied children
      → (k : ℕ) × (c : ℕ → ℕ) × (spread ix ptr d i copied children ≡ some (k, c))
        × (k ≤ 256)
        × Spread k 48 c
  spread-Spread zero i copied children e all few g = absurd (
      let f : i ≡ 256 = omega arith in
      let h : copied ≡ tally 255 ix 256 = rw f at g.count in omega arith)
  spread-Spread (suc d) i copied children e all few g = elim (Bool-cases (ix i == 255)) [
    | inl free ↦
        let (k, c, got, le, done) =
          spread-Spread d (suc i) copied _ (omega arith) all few (Spread-skip g free) in
        (k, c, spread_skip d i copied children free ∙ got, le, done)
    | inr used ↦
        let g' = Spread-take g used in
        elim (Bool-cases (suc copied == 48)) [
          | inl last ↦
              let g'' =
                subst (λ m. Spread (suc i) m (update children i (ptr (ix i))))
                  ((==_iff (suc copied) 48).0 last) g' in
              (suc i, _, spread_last d i copied children used last, omega arith, g'')
          | inr more ↦
              let (k, c, got, le, done) =
                spread-Spread d (suc i) (suc copied) _ (omega arith) all (ground arith) g' in
              (k, c, spread_more d i copied children used more ∙ got, le, done)
        ]
  ]

  Spread-zero : (children : ℕ → ℕ) → Spread 0 0 children
  unfolding tally
  Spread-zero children = record { count = refl; same = λ b h. absurd (omega arith) }

  -- After the last child there is none, and the rest is filled with `nullptr`.
  filled :
      (k b : ℕ) (c : ℕ → ℕ)
      → tally 255 ix 256 ≡ 48
      → k ≤ 256
      → Spread k 48 c
      → b < 256
      → fill_null c k (256 - k) b ≡ child_of b
  filled k b c all le g h = elim (dec_lt b k) [
    | yes lt ↦ ground (arith, fill_null-get c k (256 - k) b, g.same b lt)
    | no ge ↦
        let none_left = tally-rest 255 ix k b 256 (sym g.count ∙ sym all) (omega arith) h in
        ground (arith, fill_null-get c k (256 - k) b)
  ]

  -- As many bytes have a child as are mapped.
  tally-child_of :
      (n : ℕ)
      → ((b : ℕ) → b < n → ix b ≢ 255 → 0 < ptr (ix b))
      → tally 0 child_of n ≡ tally 255 ix n
  unfolding tally
  tally-child_of zero present = refl
  tally-child_of (suc n) present = elim (ℕ_discrete (ix n) 255) [
    | yes e ↦ ground (arith, tally-child_of n (λ b h m. present b (omega arith) m))
    | no ne ↦
        ground
          (arith, tally-child_of n (λ b h m. present b (omega arith) m), present n (omega arith) ne)
  ]

tally-eq : (u : ℕ) (f g : ℕ → ℕ) (n : ℕ) → ((b : ℕ) → b < n → f b ≡ g b) → tally u f n ≡ tally u g n
unfolding tally
tally-eq u f g zero same = refl
tally-eq u f g (suc n) same =
    ground (arith, tally-eq u f g n (λ b h. same b (omega arith)), same n (omega arith))

-- A child stored at a byte that had none, where the children are those of the old node.
child_of-IsAdded :
    (x : Inode48) (f : ℕ → ℕ) (b c : ℕ)
    → Inode48.IsValid x
    → ((a : ℕ) → a < 256 → f a ≡ child_of x.child_indexes x.pointer_array a)
    → b < 256
    → 0 < c
    → x.child_indexes b ≡ 255
    → IsAdded (Inode48.Maps x) b c (λ a d. (a < 256) × (0 < d) × (update f b c a ≡ d))
child_of-IsAdded x f b c v same lt pos free b' c' = elim (ℕ_discrete b b') [
  | yes e ↦ (
    λ (h, p, q). inl (sym e, ground arith),
    λ s. elim s [
      | inl (eb, ec) ↦ (omega arith, omega arith, ground arith)
      | inr (h, m, q) ↦ absurd (m (ground arith))
    ],
  )
  | no ne ↦ (
    λ (h, p, q). let old = same b' h in inr (h, (λ z. ground arith), ground arith),
    λ s. elim s [
      | inl (eb, ec) ↦ absurd (ne (sym eb))
      | inr (h, m, q) ↦
          let old = same b' h in let p = v.present b' h m in (h, omega arith, ground arith)
    ],
  )
]

-- For a valid node of 48 children and a leaf, whose key byte has no child there, the construction
-- of the node of 256 reaches the 48th child within the bytes; the new node is valid, and maps this
-- byte to the leaf and all else as the old node, whatever its memory held.
pub init_inode256-IsAdded :
    (raw : Inode256) (x : Inode48) (child : Leaf) (depth : ℕ)
    → Inode48.IsValid x
    → x.children_count ≡ Inode48.capacity
    → key_byte_at child depth < 256
    → 0 < child.address
    → x.child_indexes (key_byte_at child depth) ≡ Inode48.empty_child
    → (y : Inode256) × (init_inode256 raw x child depth ≡ some y)
      × Inode256.IsValid y
      × IsAdded (Inode48.Maps x) (key_byte_at child depth) child.address (Inode256.Maps y)
unfolding init_inode256
init_inode256-IsAdded raw x child depth v full lt pos free =
    let ix = x.child_indexes in
    let ptr = x.pointer_array in
    let b = key_byte_at child depth in
    let all : tally 255 ix 256 ≡ 48 = omega (arith, v.mapped, full) in
    let (k, c, got, le, done) =
      spread-Spread ix ptr 256 0 0 raw.children refl all (omega arith)
        (Spread-zero ix ptr raw.children) in
    let f = fill_null c k (256 - k) in
    let same : (a : ℕ) → a < 256 → f a ≡ child_of ix ptr a =
      λ a h. filled ix ptr k a c all le done h in
    let old : tally 0 f 256 ≡ 48 =
      omega (
        arith,
        tally-eq 0 f (child_of ix ptr) 256 same,
        tally-child_of ix ptr 256 v.present,
        all,
      ) in
    let new : tally 0 (update f b child.address) 256 ≡ 49 = omega (
      arith,
      tally-store 0 f 256 b child.address lt (ground (arith, same b lt)) (λ z. omega arith),
      old,
    ) in
    (
      record {
        key_prefix = x.key_prefix;
        children_count = 49;
        children = update f b child.address;
      },
      rw (init_inode256, got) refl,
      record { counted = rw new refl; least = omega (arith, new) },
      child_of-IsAdded x f b child.address v same lt pos free,
    )
