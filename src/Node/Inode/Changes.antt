-- ===== src/Node/Inode/Changes.antt =====
-- Changing a node of any size.
use unodb.Base.{ℕ, ◌<◌, ◌≢◌, sym, ◌∙◌, inl, inr, update, arith}
use mathlib.Core.Path.{ap, subst}
use native.Mathlib.Decide.{ℕ_discrete}
use unodb.Node.Spec.{IsReplaced}
use unodb.Node.Slots.Laws.{tally-replace}
use unodb.Node.Sorted.{IsKeyed, Entry}
use unodb.Node.Sorted.Entries.{IsKeyed-index}
use unodb.Node.Inode4
use unodb.Node.Inode16
use unodb.Node.Inode48
use unodb.Node.Inode256
use unodb.Node.Inode.{Inode, n4, n16, n48, n256, set_child, Maps, IsValid, IsAt}

module _ {n : ℕ} {keys children : ℕ → ℕ} (w : IsKeyed n keys children) (i c : ℕ) (lt : i < n)
    (pos : 0 < c) where
  IsKeyed-update : IsKeyed n keys (update children i c)
  IsKeyed-update = record {
    sorted = w.sorted;
    bytes = w.bytes;
    present = λ j h. ground (arith, w.present j h);
  }

  Entry-update : IsReplaced (Entry n keys children) (keys i) c (Entry n keys (update children i c))
  Entry-update b' c' = (
    λ (j, h, k, f). elim (ℕ_discrete i j) [
      | yes e ↦ inl (rw e (sym k), ground arith)
      | no ne ↦ inr ((λ z. ne (sym (IsKeyed-index w j i h lt (k ∙ z)))), (j, h, k, ground arith))
    ],
    λ q. elim q [
      | inl (eb, ec) ↦ (i, lt, sym eb, ground arith)
      | inr (ne, (j, h, k, f)) ↦
          let other : i ≢ j = λ z. ne (sym k ∙ ap keys (sym z)) in (j, h, k, ground arith)
    ],
  )

module _ (x : Inode48.Inode48) (v : Inode48.IsValid x) (b c : ℕ) (lt : b < 256)
    (mapped : x.child_indexes b ≢ 255) (pos : 0 < c) where
  abbrev stored : Inode48.Inode48
  stored = record x { pointer_array = update x.pointer_array (x.child_indexes b) c }

  stored-IsValid : Inode48.IsValid stored
  stored-IsValid = record {
    inside = v.inside;
    present = λ a h m. let old = v.present a h m in ground arith;
    distinct = v.distinct;
    owner = λ j h p. elim (ℕ_discrete (x.child_indexes b) j) [
      | yes e ↦ (b, lt, e)
      | no ne ↦ v.owner j h (ground arith)
    ];
    counted =
        v.counted
        ∙ sym (
            tally-replace 0 x.pointer_array 48 (x.child_indexes b) c
              (λ z. omega (arith, v.present b lt mapped)) (λ z. omega arith));
    mapped = v.mapped;
    least = v.least;
  }

  stored-IsReplaced : IsReplaced (Inode48.Maps x) b c (Inode48.Maps stored)
  stored-IsReplaced b' c' = elim (ℕ_discrete b b') [
    | yes e ↦ (
      λ (h, m, f). inl (sym e, ground arith),
      λ q. elim q [
        | inl (eb, ec) ↦ (ground arith, (λ z. mapped (ap x.child_indexes e ∙ z)), ground arith)
        | inr (ne, h) ↦ absurd (ne (sym e))
      ],
    )
    | no ne ↦ (
      λ (h, m, f).
          let away : x.child_indexes b ≢ x.child_indexes b' =
            λ z. ne (v.distinct b b' lt h mapped z) in
          inr ((λ z. ne (sym z)), (h, m, ground arith)),
      λ q. elim q [
        | inl (eb, ec) ↦ absurd (ne (sym eb))
        | inr (ne', (h, m, f)) ↦
            let away : x.child_indexes b ≢ x.child_indexes b' =
              λ z. ne (v.distinct b b' lt h mapped z) in
            (h, m, ground arith)
      ],
    )
  ]

module _ (x : Inode256.Inode256) (v : Inode256.IsValid x) (b c : ℕ) (lt : b < 256)
    (present : 0 < x.children b) (pos : 0 < c) where
  abbrev stored256 : Inode256.Inode256
  stored256 = record x { children = update x.children b c }

  stored256-IsValid : Inode256.IsValid stored256
  stored256-IsValid =
      let same = tally-replace 0 x.children 256 b c (λ z. omega arith) (λ z. omega arith) in
      record { counted = rw same v.counted; least = rw same v.least }

  stored256-IsReplaced : IsReplaced (Inode256.Maps x) b c (Inode256.Maps stored256)
  stored256-IsReplaced b' c' = elim (ℕ_discrete b b') [
    | yes e ↦ (
      λ (h, p, f). inl (sym e, ground arith),
      λ q. elim q [
        | inl (eb, ec) ↦ (ground arith, ground arith, ground arith)
        | inr (ne, h) ↦ absurd (ne (sym e))
      ],
    )
    | no ne ↦ (
      λ (h, p, f). inr ((λ z. ne (sym z)), (h, p, ground arith)),
      λ q. elim q [
        | inl (eb, ec) ↦ absurd (ne (sym eb))
        | inr (ne', (h, p, f)) ↦ (h, p, ground arith)
      ],
    )
  ]

-- A store through the pointer to the child of a byte, which find_child gives, leaves a valid node
-- that maps this byte to the new child and all else as before.
pub set_child-IsReplaced :
    (x : Inode) (i b d c : ℕ)
    → IsValid x
    → IsAt x i b
    → Maps x b d
    → 0 < c
    → IsValid (set_child x i c) × IsReplaced (Maps x) b c (Maps (set_child x i c))
unfolding set_child
set_child-IsReplaced (n4 x) i b d c v (lt, e) m pos = (
  record { keyed = IsKeyed-update v.keyed i c lt pos; least = v.least; most = v.most },
  subst
      (λ k. IsReplaced (Inode4.Maps x) k c (Entry x.children_count x.keys (update x.children i c)))
      e (Entry-update v.keyed i c lt pos),
)
set_child-IsReplaced (n16 x) i b d c v (lt, e) m pos = (
  record { keyed = IsKeyed-update v.keyed i c lt pos; least = v.least; most = v.most },
  subst
      (λ k. IsReplaced (Inode16.Maps x) k c (Entry x.children_count x.keys (update x.children i c)))
      e (Entry-update v.keyed i c lt pos),
)
set_child-IsReplaced (n48 x) i b d c v e (lt, m, f) pos =
    subst
      (λ k.
        IsValid (set_child (n48 x) k c)
        × IsReplaced (Inode48.Maps x) b c (Maps (set_child (n48 x) k c)))
      (sym e) (stored-IsValid x v b c lt m pos, stored-IsReplaced x v b c lt m pos)
set_child-IsReplaced (n256 x) i b d c v e (lt, p, f) pos =
    subst
      (λ k.
        IsValid (set_child (n256 x) k c)
        × IsReplaced (Inode256.Maps x) b c (Maps (set_child (n256 x) k c)))
      (sym e)
      (
        stored256-IsValid x v b c lt (omega arith) pos,
        stored256-IsReplaced x v b c lt (omega arith) pos,
      )
