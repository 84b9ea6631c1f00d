-- ===== src/Node/Shrink/Seventeen.antt =====
-- From 17 children to 16.
use unodb.Base.{
  zero, suc, ℕ, ◌+◌, ◌≤◌, ◌<◌, ◌≡◌, ◌≢◌, ◌↔◌, inl, inr, refl, sym, ◌∙◌, some, true, false,
  Bool-cases, update, ◌==◌, ==_iff, arith,
}
use mathlib.Core.Path.{subst}
use native.Mathlib.Decide.{ℕ_discrete, dec_lt}
use unodb.Node.Spec.{IsRemoved}
use unodb.Node.Slots.{tally}
use unodb.Node.Slots.Laws.{tally-used, tally-unused, tally-rest, tally-clear}
use unodb.Node.Sorted.{Entry, IsKeyed}
use unodb.Node.Sorted.Entries.{IsPlace}
use unodb.Node.Sorted.Changed.{inserted}
use unodb.Node.Inode48
use unodb.Node.Inode48.{Inode48}
use unodb.Node.Inode16
use unodb.Node.Inode16.{Inode16}
use unodb.Node.Shrink.{gather, init_inode16}

module _ (ix ptr : ℕ → ℕ) (present : (b : ℕ) → b < 256 → ix b ≢ 255 → 0 < ptr (ix b)) where
  -- The children of the bytes below `i` have been taken over.
  record Gathered (i next : ℕ) (keys children : ℕ → ℕ) : Type 0 where
    count : next ≡ tally 255 ix i
    keyed : IsKeyed next keys children
    below : (j : ℕ) → j < next → keys j < i
    entries : (b c : ℕ) → Entry next keys children b c ↔ ((b < i) × (ix b ≢ 255) × (ptr (ix b) ≡ c))

  Gathered-skip :
      {i next : ℕ} {keys children : ℕ → ℕ}
      → Gathered i next keys children
      → ix i ≡ 255
      → Gathered (suc i) next keys children
  Gathered-skip {i} g e = record {
    count = g.count ∙ sym (tally-unused 255 ix i e);
    keyed = g.keyed;
    below = λ j h. omega (arith, g.below j h);
    entries = λ b c. (
      λ q. let (h, m, f) = (g.entries b c).0 q in (omega arith, m, f),
      λ (h, m, f).
          (g.entries b c).1 (
            elim (ℕ_discrete b i) [ yes same ↦ absurd (m (rw same e)) | no ne ↦ omega arith ],
            m,
            f,
          ),
    );
  }

  Gathered-take :
      {i next : ℕ} {keys children : ℕ → ℕ}
      → Gathered i next keys children
      → i < 256
      → ix i ≢ 255
      → Gathered (suc i) (suc next) (update keys next i) (update children next (ptr (ix i)))
  Gathered-take {i} {next} {keys} {children} g small m =
      let place : IsPlace next keys i next = record {
        le = omega arith;
        below = g.below;
        above = λ j h k. absurd (omega arith);
      } in
      let (keyed, added) =
        inserted {keys' = update keys next i} {children' = update children next (ptr (ix i))}
          g.keyed place small (present i small m) (λ j h. ground arith) (λ j h. ground arith)
          refl in
      record {
        count = omega (arith, g.count, tally-used 255 ix i m);
        keyed = keyed;
        below = λ j h. elim (ℕ_discrete next j) [
          | yes e ↦ ground arith
          | no ne ↦ ground (arith, g.below j (omega arith))
        ];
        entries = λ b c. (
          λ q. elim ((added b c).0 q) [
            | inl (eb, ec) ↦ (omega arith, (λ z. m (rw eb at z)), rw eb (sym ec))
            | inr old ↦ let (h, k, f) = (g.entries b c).0 old in (omega arith, k, f)
          ],
          λ (h, k, f). (added b c).1 (elim (ℕ_discrete b i) [
            | yes e ↦ inl (e, sym f ∙ rw e refl)
            | no ne ↦ inr ((g.entries b c).1 (omega arith, k, f))
          ]),
        );
      }

  gather_skip :
      (d i next : ℕ) (keys children : ℕ → ℕ)
      → (ix i == 255) ≡ true
      → gather ix ptr (suc d) i next keys children ≡ gather ix ptr d (suc i) next keys children
  unfolding gather
  gather_skip d i next keys children e = rw (gather, e) refl

  gather_last :
      (d i next : ℕ) (keys children : ℕ → ℕ)
      → (ix i == 255) ≡ false
      → (suc next == 16) ≡ true
      → gather ix ptr (suc d) i next keys children
        ≡ some (update keys next i, update children next (ptr (ix i)))
  unfolding gather
  gather_last d i next keys children e f = rw (gather, e, f) refl

  gather_more :
      (d i next : ℕ) (keys children : ℕ → ℕ)
      → (ix i == 255) ≡ false
      → (suc next == 16) ≡ false
      → gather ix ptr (suc d) i next keys children
        ≡ gather ix ptr d
            (suc i)
            (suc next)
            (update keys next i)
            (update children next (ptr (ix i)))
  unfolding gather
  gather_more d i next keys children e f = rw (gather, e, f) refl

  -- When all children have been taken over, no byte is left.
  Gathered-end :
      {i : ℕ} {keys children : ℕ → ℕ}
      → i ≤ 256
      → tally 255 ix 256 ≡ 16
      → Gathered i 16 keys children
      → Gathered 256 16 keys children
  Gathered-end {i} h all g = record {
    count = sym all;
    keyed = g.keyed;
    below = λ j k. omega (arith, g.below j k);
    entries = λ b c. (
      λ q. let (k, m, f) = (g.entries b c).0 q in (omega arith, m, f),
      λ (k, m, f). (g.entries b c).1 (
        elim (dec_lt b i) [
          | yes lt ↦ lt
          | no ge ↦ absurd (m (tally-rest 255 ix i b 256 (sym g.count ∙ sym all) (omega arith) k))
        ],
        m,
        f,
      ),
    );
  }

  gather-Gathered :
      (d i next : ℕ) (keys children : ℕ → ℕ)
      → d + i ≡ 256
      → tally 255 ix 256 ≡ 16
      → next < 16
      → Gathered i next keys children
      → (k : ℕ → ℕ) × (c : ℕ → ℕ) × (gather ix ptr d i next keys children ≡ some (k, c))
        × Gathered 256 16 k c
  gather-Gathered zero i next keys children e all few g = absurd (
      let f : i ≡ 256 = omega arith in
      let h : next ≡ tally 255 ix 256 = rw f at g.count in omega arith)
  gather-Gathered (suc d) i next keys children e all few g = elim (Bool-cases (ix i == 255)) [
    | inl free ↦
        let (k, c, got, done) =
          gather-Gathered d (suc i) next keys children (omega arith) all few
            (Gathered-skip g ((==_iff (ix i) 255).0 free)) in
        (k, c, gather_skip d i next keys children free ∙ got, done)
    | inr used ↦
        let g' = Gathered-take g (omega arith) (λ z. ground arith) in
        elim (Bool-cases (suc next == 16)) [
          | inl last ↦
              let g'' =
                subst
                  (λ m. Gathered (suc i) m (update keys next i) (update children next (ptr (ix i))))
                  ((==_iff (suc next) 16).0 last) g' in
              (
                _,
                _,
                gather_last d i next keys children used last,
                Gathered-end (omega arith) all g'',
              )
          | inr more ↦
              let (k, c, got, done) =
                gather-Gathered d (suc i) (suc next) _ _ (omega arith) all (ground arith) g' in
              (k, c, gather_more d i next keys children used more ∙ got, done)
        ]
  ]

  Gathered-zero : (keys children : ℕ → ℕ) → Gathered 0 0 keys children
  unfolding tally
  Gathered-zero keys children = record {
    count = refl;
    keyed = record {
      sorted = λ i j h k. absurd (omega arith);
      bytes = λ i h. absurd (omega arith);
      present = λ i h. absurd (omega arith);
    };
    below = λ j h. absurd (omega arith);
    entries = λ b c. (λ (i, h, k, l). absurd (omega arith), λ (h, k, l). absurd (omega arith));
  }

module _ (x : Inode48) (b : ℕ) (v : Inode48.IsValid x) where
  abbrev without : ℕ → ℕ
  without = update x.child_indexes b 255

  present_after : (a : ℕ) → a < 256 → without a ≢ 255 → 0 < x.pointer_array (without a)
  present_after a h m = elim (ℕ_discrete b a) [
    | yes e ↦ absurd (m (ground arith))
    | no ne ↦ let old = v.present a h (λ z. m (ground arith)) in ground arith
  ]

  -- Without the index of a byte, all other bytes lead where they led.
  without-IsRemoved :
      IsRemoved
        (Inode48.Maps x)
        b
        (λ a c. (a < 256) × (without a ≢ 255) × (x.pointer_array (without a) ≡ c))
  without-IsRemoved b' c' = elim (ℕ_discrete b b') [
    | yes e ↦ (λ (h, m, f). absurd (m (ground arith)), λ (ne, h). absurd (ne (sym e)))
    | no ne ↦ (
      λ (h, m, f). ((λ z. ne (sym z)), (h, (λ z. m (ground arith)), ground arith)),
      λ (ne', (h, m, f)). (h, (λ z. m (ground arith)), ground arith),
    )
  ]

-- For a valid node of 48 with 17 children and a byte that has one, the construction of the node of
-- sixteen reaches the 16th remaining child within the bytes; the new node is valid, maps all other
-- bytes as the old node and this byte to nothing, whatever its memory held, and the child of the
-- byte is reclaimed.
pub init_inode16-IsRemoved :
    (raw : Inode16) (x : Inode48) (b : ℕ)
    → Inode48.IsValid x
    → x.children_count ≡ Inode48.min_size
    → b < 256
    → x.child_indexes b ≢ Inode48.empty_child
    → (y : Inode16) × (c : ℕ) × (init_inode16 raw x b ≡ some (y, c))
      × Inode16.IsValid y
      × IsRemoved (Inode48.Maps x) b (Inode16.Maps y)
      × Inode48.Maps x b c
unfolding init_inode16 Inode48.remove_child_pointer
init_inode16-IsRemoved raw x b v least lt mapped =
    let all : tally 255 (without x b v) 256 ≡ 16 =
      omega (arith, v.mapped, least, tally-clear 255 x.child_indexes 256 b lt mapped) in
    let (k, c, got, done) =
      gather-Gathered (without x b v) x.pointer_array (present_after x b v) 256 0 0 raw.keys
        raw.children refl all (omega arith)
        (Gathered-zero (without x b v) x.pointer_array (present_after x b v) raw.keys
          raw.children) in
    (
      record { key_prefix = x.key_prefix; children_count = 16; keys = k; children = c },
      x.pointer_array (x.child_indexes b),
      rw (init_inode16, got) refl,
      record { keyed = done.keyed; least = omega arith; most = omega arith },
      λ b' c'.
          let (to, from) = without-IsRemoved x b v b' c' in
          let (fore, back) = done.entries b' c' in (λ q. to (fore q), λ q. back (from q)),
      (lt, mapped, refl),
    )
