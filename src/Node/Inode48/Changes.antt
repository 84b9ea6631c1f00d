-- ===== src/Node/Inode48/Changes.antt =====
-- Adding a child to a node of 48 and removing one.
use unodb.Base.{ℕ, ◌+◌, ◌-◌, ◌%◌, ◌<◌, ◌≡◌, ◌≢◌, refl, sym, inl, inr, some, update, arith}
use native.Mathlib.Decide.{ℕ_discrete}
use unodb.Node.{Leaf, key_byte_at}
use unodb.Node.Spec.{IsAdded, IsRemoved}
use unodb.Node.Slots.Laws.{tally-store, tally-clear, first_empty}
use unodb.Node.Inode48.{
  Inode48, IsValid, Maps, min_size, capacity, empty_child, empty_slot, add_to_nonfull, remove,
  remove_child_pointer,
}

-- A child stored in an empty place, under a byte that has none.
module _ (x : Inode48) (v : IsValid x) (b c i : ℕ) (room : x.children_count < capacity)
    (byte : b < 256) (leaf : 0 < c) (new : (c' : ℕ) → ¬ Maps x b c') (lt : i < capacity)
    (empty : x.pointer_array i ≡ 0) where
  abbrev store : Inode48
  store = record x {
    child_indexes = update x.child_indexes b i;
    pointer_array = update x.pointer_array i c;
    children_count = (x.children_count + 1) % 256;
  }

  unused : x.child_indexes b ≡ empty_child
  unused = elim (ℕ_discrete (x.child_indexes b) empty_child) [
    | yes e ↦ e
    | no ne ↦ absurd (new _ (byte, ne, refl))
  ]

  elsewhere : (a : ℕ) → a < 256 → x.child_indexes a ≢ empty_child → x.child_indexes a ≢ i
  elsewhere a h m e =
      let p = v.present a h m in
      let q : x.pointer_array (x.child_indexes a) ≡ 0 = rw e empty in omega arith

  store-IsAdded : IsAdded (Maps x) b c (Maps store)
  store-IsAdded b' c' = elim (ℕ_discrete b b') [
    | yes e ↦ (
      λ q. inl (sym e, ground arith),
      λ q. elim q [
        | inl (_, f) ↦ (ground arith, (λ z. ground arith), ground arith)
        | inr h ↦ absurd (new c' (rw e h))
      ],
    )
    | no ne ↦ (
      λ (h, m, f).
          let m' : x.child_indexes b' ≢ empty_child = λ z. m (ground arith) in
          let away = elsewhere b' h m' in inr (h, m', ground arith),
      λ q. elim q [
        | inl (f, _) ↦ absurd (ne (sym f))
        | inr (h, m, f) ↦ let away = elsewhere b' h m in (h, (λ z. m (ground arith)), ground arith)
      ],
    )
  ]

  store-IsValid : IsValid store
  store-IsValid = record {
    inside = λ a h m. elim (ℕ_discrete b a) [
      | yes e ↦ ground arith
      | no ne ↦ let old = v.inside a h (λ z. m (ground arith)) in ground arith
    ];
    present = λ a h m. elim (ℕ_discrete b a) [
      | yes e ↦ ground arith
      | no ne ↦
          let m' : x.child_indexes a ≢ empty_child = λ z. m (ground arith) in
          let away = elsewhere a h m' in let old = v.present a h m' in ground arith
    ];
    distinct = λ a a' h h' m same. elim (ℕ_discrete b a) [
      | yes e ↦ elim (ℕ_discrete b a') [
        | yes e' ↦ omega arith
        | no ne' ↦ absurd (elsewhere a' h' (λ z. ground arith) (ground arith))
      ]
      | no ne ↦ elim (ℕ_discrete b a') [
        | yes e' ↦ absurd (elsewhere a h (λ z. m (ground arith)) (ground arith))
        | no ne' ↦ v.distinct a a' h h' (λ z. m (ground arith)) (ground arith)
      ]
    ];
    owner = λ j h p. elim (ℕ_discrete i j) [
      | yes e ↦ (b, byte, ground arith)
      | no ne ↦ let (a, ha, ea) = v.owner j h (ground arith) in (a, ha, ground (arith, unused))
    ];
    mapped = omega (
      arith,
      v.mapped,
      tally-store empty_child x.child_indexes 256 b i byte unused (λ z. omega arith),
    );
    counted =
        omega (
          arith,
          v.counted,
          tally-store 0 x.pointer_array capacity i c lt empty (λ z. omega arith),
        );
    least = omega (arith, v.least);
  }

  stored : IsValid store × IsAdded (Maps x) b c (Maps store)
  stored = (store-IsValid, store-IsAdded)

-- The place of a byte's child cleared.
module _ (x : Inode48) (v : IsValid x) (b : ℕ) (lt : b < 256)
    (mapped : x.child_indexes b ≢ empty_child) (more : min_size < x.children_count) where
  abbrev clear : Inode48
  clear = record x {
    pointer_array = update x.pointer_array (x.child_indexes b) 0;
    child_indexes = update x.child_indexes b empty_child;
    children_count = x.children_count - 1;
  }

  other_place : (a : ℕ) → a < 256 → b ≢ a → x.child_indexes b ≢ x.child_indexes a
  other_place a h ne e = ne (v.distinct b a lt h mapped e)

  clear-IsRemoved : IsRemoved (Maps x) b (Maps clear)
  clear-IsRemoved b' c' = elim (ℕ_discrete b b') [
    | yes e ↦ (λ (h, m, f). absurd (m (ground arith)), λ (ne, h). absurd (ne (sym e)))
    | no ne ↦ (
      λ (h, m, f).
          let away = other_place b' h ne in
          ((λ z. ne (sym z)), (h, (λ z. m (ground arith)), ground arith)),
      λ (ne', (h, m, f)).
          let away = other_place b' h ne in (h, (λ z. m (ground arith)), ground arith),
    )
  ]

  used : x.pointer_array (x.child_indexes b) ≢ 0
  used e = omega (arith, v.present b lt mapped)

  clear-IsValid : IsValid clear
  clear-IsValid = record {
    inside = λ a h m. elim (ℕ_discrete b a) [
      | yes e ↦ absurd (m (ground arith))
      | no ne ↦ let old = v.inside a h (λ z. m (ground arith)) in ground arith
    ];
    present = λ a h m. elim (ℕ_discrete b a) [
      | yes e ↦ absurd (m (ground arith))
      | no ne ↦
          let away = other_place a h ne in
          let old = v.present a h (λ z. m (ground arith)) in ground arith
    ];
    distinct = λ a a' h h' m same. elim (ℕ_discrete b a) [
      | yes e ↦ absurd (m (ground arith))
      | no ne ↦ elim (ℕ_discrete b a') [
        | yes e' ↦ absurd (m (ground arith))
        | no ne' ↦ v.distinct a a' h h' (λ z. m (ground arith)) (ground arith)
      ]
    ];
    owner = λ j h p. elim (ℕ_discrete (x.child_indexes b) j) [
      | yes e ↦ absurd (ground arith)
      | no ne ↦ let (a, ha, ea) = v.owner j h (ground arith) in (a, ha, ground arith)
    ];
    mapped = omega (arith, v.mapped, tally-clear empty_child x.child_indexes 256 b lt mapped);
    counted = omega (
      arith,
      v.counted,
      tally-clear 0 x.pointer_array capacity (x.child_indexes b) (v.inside b lt mapped) used,
    );
    least = omega arith;
  }

  cleared : IsValid clear × IsRemoved (Maps x) b (Maps clear)
  cleared = (clear-IsValid, clear-IsRemoved)

module _ (x : Inode48) (v : IsValid x) where
  module _ (child : Leaf) (depth : ℕ) (room : x.children_count < capacity)
      (byte : key_byte_at child depth < 256) (leaf : 0 < child.address)
      (new : (c : ℕ) → ¬ Maps x (key_byte_at child depth) c) where
    -- Adding a leaf to a valid node of 48 with fewer than 48 children, under a key byte that has
    -- no child, finds an empty place for it, and leaves a valid node that maps this byte to the
    -- leaf and all else as before.
    pub add_to_nonfull_in_forty_eight :
        (y : Inode48) × (add_to_nonfull x child depth x.children_count ≡ some y)
        × IsValid y
        × IsAdded (Maps x) (key_byte_at child depth) child.address (Maps y)
    unfolding add_to_nonfull empty_slot
    add_to_nonfull_in_forty_eight =
        let (i, got, lt, empty) = first_empty x.pointer_array capacity (omega (arith, v.counted)) in
        let (valid, added) =
          stored x v (key_byte_at child depth) child.address i room byte leaf new lt empty in
        (
          store x v (key_byte_at child depth) child.address i room byte leaf new lt empty,
          rw (add_to_nonfull, got) refl,
          valid,
          added,
        )

  module _ (child_index : ℕ) (lt : child_index < 256)
      (mapped : x.child_indexes child_index ≢ empty_child)
      (more : min_size < x.children_count) where
    -- Removing the child of a byte that has one from a valid node of 48 with more than 17 children
    -- leaves a valid node that maps all other bytes as before and this byte to nothing, and
    -- reclaims the child that the byte had.
    pub remove_in_forty_eight :
        IsValid (remove x child_index).0
        × IsRemoved (Maps x) child_index (Maps (remove x child_index).0)
        × Maps x child_index (remove x child_index).1
    unfolding remove remove_child_pointer
    remove_in_forty_eight =
        let (valid, gone) = cleared x v child_index lt mapped more in
        (valid, gone, (lt, mapped, refl))
