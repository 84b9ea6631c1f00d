-- ===== src/Node/Shrink/FortyNine.antt =====
-- From 49 children to 48.
use unodb.Base.{
  zero, suc, ℕ, ◌+◌, ◌≤◌, ◌<◌, ◌≡◌, inl, inr, refl, sym, ◌∙◌, ◌↔◌, Bool-cases, update, ◌==◌, ==_iff,
  arith,
}
use mathlib.Core.Path.{subst}
use native.Mathlib.Decide.{ℕ_discrete, dec_lt}
use unodb.Node.Spec.{IsRemoved}
use unodb.Node.Slots.{tally}
use unodb.Node.Slots.Laws.{tally-le, tally-used, tally-unused, tally-rest, tally-clear}
use unodb.Node.Inode48
use unodb.Node.Inode48.{Inode48}
use unodb.Node.Inode48.Packed.{Leads, Packed, Packed-zero, Packed-IsValid, appended}
use unodb.Node.Inode256
use unodb.Node.Inode256.{Inode256}
use unodb.Node.Shrink.{collect, init_inode48}

module _ (f : ℕ → ℕ) where
  -- The children of the bytes below `i` have been taken over.
  record Collected (i n : ℕ) (ix ptr : ℕ → ℕ) : Type 0 where
    count : n ≡ tally 0 f i
    packed : Packed n ix ptr
    leads : (b c : ℕ) → Leads ix ptr b c ↔ ((b < i) × (b < 256) × (0 < c) × (f b ≡ c))

  Collected-zero : (ptr : ℕ → ℕ) → Collected 0 0 (λ b. 255) ptr
  unfolding tally
  Collected-zero ptr = record {
    count = refl;
    packed = Packed-zero ptr;
    leads = λ b c. (λ (h, m, e). absurd (m refl), λ (h, k, p, e). absurd (omega arith));
  }

  Collected-skip :
      {i n : ℕ} {ix ptr : ℕ → ℕ} → Collected i n ix ptr → f i ≡ 0 → Collected (suc i) n ix ptr
  Collected-skip {i} g e = record {
    count = g.count ∙ sym (tally-unused 0 f i e);
    packed = g.packed;
    leads = λ b c. (
      λ q. let (h, k, p, m) = (g.leads b c).0 q in (omega arith, k, p, m),
      λ (h, k, p, m). (g.leads b c).1 (elim (ℕ_discrete i b) [
        | yes same ↦ absurd (ground arith)
        | no ne ↦ (omega arith, k, p, m)
      ]),
    );
  }

  Collected-take :
      {i n : ℕ} {ix ptr : ℕ → ℕ}
      → Collected i n ix ptr
      → i < 256
      → n < 48
      → 0 < f i
      → Collected (suc i) (suc n) (update ix i n) (update ptr n (f i))
  Collected-take {i} {n} {ix} {ptr} g lt room pos =
      let free : ix i ≡ 255 = elim (ℕ_discrete (ix i) 255) [
        | yes e ↦ e
        | no ne ↦
            let (h, k, p, e) = (g.leads i (ptr (ix i))).0 (lt, ne, refl) in absurd (omega arith)
      ] in
      let (packed, added) =
        appended {ptr = ptr} {ptr' = update ptr n (f i)} g.packed i room lt free
          (λ j h. ground arith) (ground arith) in
      record {
        count = omega (arith, g.count, tally-used 0 f i (λ z. omega arith));
        packed = packed;
        leads = λ b c. (
          λ q. elim ((added b c).0 q) [
            | inl (eb, ec) ↦ (omega arith, omega arith, ground arith, ground arith)
            | inr old ↦ let (h, k, p, e) = (g.leads b c).0 old in (omega arith, k, p, e)
          ],
          λ (h, k, p, e). (added b c).1 (elim (ℕ_discrete b i) [
            | yes z ↦ inl (z, ground arith)
            | no ne ↦ inr ((g.leads b c).1 (omega arith, k, p, e))
          ]),
        );
      }

  -- When all children have been taken over, no byte is left.
  Collected-end :
      {i : ℕ} {ix ptr : ℕ → ℕ}
      → i ≤ 256
      → tally 0 f 256 ≡ 48
      → Collected i 48 ix ptr
      → Collected 256 48 ix ptr
  Collected-end {i} h all g = record {
    count = sym all;
    packed = g.packed;
    leads = λ b c. (
      λ q. let (l, k, p, e) = (g.leads b c).0 q in (k, k, p, e),
      λ (l, k, p, e). (g.leads b c).1 (
        elim (dec_lt b i) [
          | yes lt ↦ lt
          | no ge ↦
              let none_left = tally-rest 0 f i b 256 (sym g.count ∙ sym all) (omega arith) k in
              absurd (omega arith)
        ],
        k,
        p,
        e,
      ),
    );
  }

  collect-Collected :
      (d i n : ℕ) (ix ptr : ℕ → ℕ)
      → d + i ≡ 256
      → tally 0 f 256 ≡ 48
      → n < 48
      → Collected i n ix ptr
      → Collected 256 48 (collect f d i n ix ptr).0 (collect f d i n ix ptr).1
  unfolding collect
  collect-Collected zero i n ix ptr e all few g =
      let same : i ≡ 256 = omega arith in
      let h : n ≡ tally 0 f 256 = rw same at g.count in absurd (omega arith)
  collect-Collected (suc d) i n ix ptr e all few g = elim (Bool-cases (f i == 0)) [
    | inl free ↦
        rw (collect, free)
          (collect-Collected d (suc i) n ix ptr (omega arith) all few
            (Collected-skip g ((==_iff (f i) 0).0 free)))
    | inr used ↦
        let g' = Collected-take g (omega arith) few (ground arith) in
        elim (Bool-cases (suc n == 48)) [
          | inl last ↦
              rw (collect, used, last)
                (Collected-end (omega arith) all (
                  subst (λ m. Collected (suc i) m (update ix i n) (update ptr n (f i)))
                    ((==_iff (suc n) 48).0 last) g'))
          | inr more ↦
              rw (collect, used, more)
                (collect-Collected d (suc i) (suc n) _ _ (omega arith) all (ground arith) g')
        ]
  ]

-- The node of 48 that is made of a valid node of 256 with 49 children, without the child of a byte
-- that has one, is valid, maps all other bytes as the old node and this byte to nothing, whatever
-- its memory held, and reclaims the child of the byte.
pub init_inode48-IsRemoved :
    (raw : ℕ → ℕ) (x : Inode256) (b : ℕ)
    → Inode256.IsValid x
    → x.children_count ≡ Inode256.min_size
    → b < 256
    → 0 < x.children b
    → Inode48.IsValid (init_inode48 raw x b).0
      × IsRemoved (Inode256.Maps x) b (Inode48.Maps (init_inode48 raw x b).0)
      × Inode256.Maps x b (init_inode48 raw x b).1
unfolding init_inode48
init_inode48-IsRemoved raw x b v least lt mapped =
    let f = update x.children b 0 in
    let all : tally 0 f 256 ≡ 48 = omega (
      arith,
      v.counted,
      v.least,
      least,
      tally-le 0 x.children 256,
      tally-clear 0 x.children 256 b lt (λ z. omega arith),
    ) in
    let g = collect-Collected f 256 0 0 _ raw refl all (omega arith) (Collected-zero f raw) in
    (
      Packed-IsValid (init_inode48 raw x b).0 g.packed (omega arith) (λ j h k. absurd (omega arith))
          (omega arith),
      λ b' c'. (
        λ q.
            let (h, k, p, e) = (g.leads b' c').0 q in
            elim (ℕ_discrete b b') [
              | yes same ↦ absurd (ground arith)
              | no ne ↦ ((λ z. ne (sym z)), (k, p, ground arith))
            ],
        λ (ne, (k, p, e)). (g.leads b' c').1 (k, k, p, ground arith),
      ),
      (lt, mapped, refl),
    )
