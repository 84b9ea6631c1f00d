-- ===== src/Node/Grow/Sixteen.antt =====
-- From sixteen children to 17.
use unodb.Base.{zero, suc, ℕ, ◌+◌, ◌≤◌, ◌<◌, ◌≡◌, inl, inr, refl, sym, ◌∙◌, ◌↔◌, update, arith}
use mathlib.Core.Path.{subst}
use native.Mathlib.Decide.{ℕ_discrete}
use unodb.Node.{Leaf, key_byte_at}
use unodb.Node.Spec.{IsAdded}
use unodb.Node.Sorted.{copy, Entry, IsKeyed}
use unodb.Node.Sorted.Arrays.{copy-get}
use unodb.Node.Inode16
use unodb.Node.Inode16.{Inode16}
use unodb.Node.Inode48
use unodb.Node.Inode48.{Inode48}
use unodb.Node.Inode48.Packed.{Leads, Packed, Packed-zero, Packed-IsValid, appended}
use unodb.Node.Grow.{index_keys, init_inode48}
use unodb.Node.Grow.Filled.{fill_null-get}

module _ (n : ℕ) (keys children : ℕ → ℕ) (keyed : IsKeyed n keys children) (small : n ≤ 48)
    (ptr : ℕ → ℕ) (same : (j : ℕ) → j < n → ptr j ≡ children j) where
  -- The first `i` keys have been entered.
  record Indexed (i : ℕ) (ix : ℕ → ℕ) : Type 0 where
    packed : Packed i ix ptr
    leads : (b c : ℕ) → Leads ix ptr b c ↔ Entry i keys children b c

  -- A later key byte leads nowhere yet.
  Indexed-free : {i : ℕ} {ix : ℕ → ℕ} → Indexed i ix → i < n → ix (keys i) ≡ 255
  Indexed-free {i} {ix} g h = elim (ℕ_discrete (ix (keys i)) 255) [
    | yes e ↦ e
    | no ne ↦
        let (j, lt, e, f) = (g.leads (keys i) (ptr (ix (keys i)))).0 (keyed.bytes i h, ne, refl) in
        absurd (omega (arith, keyed.sorted j i lt h))
  ]

  Indexed-next :
      {i : ℕ} {ix : ℕ → ℕ} → Indexed i ix → i < n → Indexed (suc i) (update ix (keys i) i)
  Indexed-next {i} {ix} g h =
      let (packed, added) =
        appended {ptr = ptr} {ptr' = ptr} g.packed (keys i) (omega arith) (keyed.bytes i h)
          (Indexed-free g h) (λ j k. refl) (omega (arith, same i h, keyed.present i h)) in
      record {
        packed = packed;
        leads = λ b c. (
          λ q. elim ((added b c).0 q) [
            | inl (eb, ec) ↦ (i, omega arith, sym eb, omega (arith, same i h, ec))
            | inr old ↦ let (j, lt, e, f) = (g.leads b c).0 old in (j, omega arith, e, f)
          ],
          λ (j, lt, e, f). (added b c).1 (elim (ℕ_discrete i j) [
            | yes z ↦ inl (ground arith, ground (arith, same i h))
            | no ne ↦ inr ((g.leads b c).1 (j, omega arith, e, f))
          ]),
        );
      }

  index_keys-Indexed :
      (d i : ℕ) (ix : ℕ → ℕ) → d + i ≡ n → Indexed i ix → Indexed n (index_keys keys d i ix)
  unfolding index_keys
  index_keys-Indexed zero i ix e g = let f : i ≡ n = omega arith in subst (λ m. Indexed m ix) f g
  index_keys-Indexed (suc d) i ix e g =
      index_keys-Indexed d (suc i) _ (omega arith) (Indexed-next g (omega arith))

  Indexed-zero : Indexed 0 (λ b. 255)
  Indexed-zero = record {
    packed = Packed-zero ptr;
    leads = λ b c. (λ (h, m, f). absurd (m refl), λ (i, h, e, f). absurd (omega arith));
  }

  keys-Indexed : Indexed n (index_keys keys n 0 (λ b. 255))
  keys-Indexed = index_keys-Indexed n 0 _ (omega arith) Indexed-zero

-- The node of 48 that is made of a valid node of sixteen children and a leaf, whose key byte has
-- no child there, is valid, and maps this byte to the leaf and all else as the old node, whatever
-- its memory held.
pub init_inode48-IsAdded :
    (raw : ℕ → ℕ) (x : Inode16) (child : Leaf) (depth : ℕ)
    → Inode16.IsValid x
    → x.children_count ≡ Inode16.capacity
    → key_byte_at child depth < 256
    → 0 < child.address
    → ((c : ℕ) → ¬ Inode16.Maps x (key_byte_at child depth) c)
    → Inode48.IsValid (init_inode48 raw x child depth)
      × IsAdded
          (Inode16.Maps x)
          (key_byte_at child depth)
          child.address
          (Inode48.Maps (init_inode48 raw x child depth))
unfolding init_inode48
init_inode48-IsAdded raw x child depth v full lt leaf new =
    let b = key_byte_at child depth in
    let y = init_inode48 raw x child depth in
    let keyed = subst (λ m. IsKeyed m x.keys x.children) full v.keyed in
    let get : (j : ℕ) → y.pointer_array j ≡ _ =
      λ j. fill_null-get (update (copy raw x.children 0 0 16) 16 child.address) 17 31 j in
    let same : (j : ℕ) → j < 16 → y.pointer_array j ≡ x.children j =
      λ j h. ground (arith, get j, copy-get raw x.children 0 0 16 j) in
    let g = keys-Indexed 16 x.keys x.children keyed (omega arith) y.pointer_array same in
    let last : y.pointer_array 16 ≡ child.address = ground (arith, get 16) in
    let ix = index_keys x.keys 16 0 (λ b. 255) in
    let free : ix b ≡ 255 = elim (ℕ_discrete (ix b) 255) [
      | yes e ↦ e
      | no ne ↦
          let (i, h, e, f) = (g.leads b (y.pointer_array (ix b))).0 (lt, ne, refl) in
          absurd (new _ (i, rw full h, e, f))
    ] in
    let (packed, added) =
      appended {ptr = y.pointer_array} {ptr' = y.pointer_array} g.packed b (omega arith) lt free
        (λ j h. refl) (rw last leaf) in
    (
      Packed-IsValid y packed (omega arith) (λ j h k. ground (arith, get j)) (omega arith),
      λ b' c'. (
        λ q. elim ((added b' c').0 q) [
          | inl (eb, ec) ↦ inl (eb, ec ∙ last)
          | inr old ↦ let (i, h, e, f) = (g.leads b' c').0 old in inr (i, rw full h, e, f)
        ],
        λ q. (added b' c').1 (elim q [
          | inl (eb, ec) ↦ inl (eb, ec ∙ sym last)
          | inr (i, h, e, f) ↦ inr ((g.leads b' c').1 (i, rw full at h, e, f))
        ]),
      ),
    )
