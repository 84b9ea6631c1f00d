-- ===== src/Node/Inode/Resize.antt =====
-- Adding a leaf to a node of any size and removing one, with and without a change of the size.
use unodb.Base.{
  update, ℕ, ◌<◌, ◌≡◌, ◌≢◌, ◌↔◌, refl, sym, some, some_inj, >>=-eq-some, Bool, true, false, ◌==◌,
  ==_iff, arith,
}
use mathlib.Core.Path.{ap, subst}
use native.Mathlib.Decide.{ℕ_discrete}
use unodb.Node.{Leaf, key_byte_at}
use unodb.Node.Pointer.{i4}
use unodb.Node.Spec.{IsAdded, IsRemoved}
use unodb.Node.Slots.Laws.{tally-le}
use unodb.Node.Inode4
use unodb.Node.Inode4.Changes as Changes4
use unodb.Node.Inode16
use unodb.Node.Inode16.Changes as Changes16
use unodb.Node.Inode48
use unodb.Node.Inode48.Changes as Changes48
use unodb.Node.Inode256
use unodb.Node.Inode256.Changes as Changes256
use unodb.Node.Grow
use unodb.Node.Grow.Four
use unodb.Node.Grow.Sixteen
use unodb.Node.Grow.FortyEight
use unodb.Node.Shrink
use unodb.Node.Shrink.Five
use unodb.Node.Shrink.Seventeen
use unodb.Node.Shrink.FortyNine
use unodb.Node.Inode.{
  Inode, n4, n16, n48, n256, Memory, get_key_prefix, set_key_prefix, get_children_count,
  is_min_size, type_of, add_to_nonfull, create_larger, remove, create_smaller, Maps, IsValid, IsAt,
}

-- What stays when the key prefix is changed.
pub set_key_prefix-IsValid :
    (x : Inode) (u : ℕ)
    → IsValid x
    → IsValid (set_key_prefix x u)
      × ((b c : ℕ) → Maps (set_key_prefix x u) b c ↔ Maps x b c)
      × (get_key_prefix (set_key_prefix x u) ≡ u)
set_key_prefix-IsValid (n4 x) u v =
    (record { keyed = v.keyed; least = v.least; most = v.most }, (λ b c. ((λ m. m), λ m. m)), refl)
set_key_prefix-IsValid (n16 x) u v =
    (record { keyed = v.keyed; least = v.least; most = v.most }, (λ b c. ((λ m. m), λ m. m)), refl)
set_key_prefix-IsValid (n48 x) u v = (
  record {
    inside = v.inside;
    present = v.present;
    distinct = v.distinct;
    owner = v.owner;
    counted = v.counted;
    mapped = v.mapped;
    least = v.least;
  },
  (λ b c. ((λ m. m), λ m. m)),
  refl,
)
set_key_prefix-IsValid (n256 x) u v =
    (record { counted = v.counted; least = v.least }, (λ b c. ((λ m. m), λ m. m)), refl)

-- `children_count == INode::capacity`, which is not asked of the largest node.
abbrev pub is_full : Inode → Bool
is_full (n4 x) = x.children_count == Inode4.capacity
is_full (n16 x) = x.children_count == Inode16.capacity
is_full (n48 x) = x.children_count == Inode48.capacity
is_full (n256 x) = false

-- A node that maps one more byte, with the same key prefix.
pub record IsGrown (x : Inode) (child : Leaf) (depth : ℕ) (y : Inode) : Type 0 where
  pub valid : IsValid y
  pub added : IsAdded (Maps x) (key_byte_at child depth) child.address (Maps y)
  pub prefix : get_key_prefix y ≡ get_key_prefix x

add48_prefix :
    (x y : Inode48.Inode48) (child : Leaf) (depth n : ℕ)
    → Inode48.add_to_nonfull x child depth n ≡ some y
    → y.key_prefix ≡ x.key_prefix
unfolding Inode48.add_to_nonfull
add48_prefix x y child depth n e = ground arith

grow256_prefix :
    (raw : Inode256.Inode256) (x : Inode48.Inode48) (y : Inode256.Inode256) (child : Leaf)
    (depth : ℕ)
    → Grow.init_inode256 raw x child depth ≡ some y
    → y.key_prefix ≡ x.key_prefix
unfolding Grow.init_inode256
grow256_prefix raw x y child depth e =
    let (r, _, f) =
      >>=-eq-some (Grow.spread x.child_indexes x.pointer_array 256 0 0 raw.children) _ e in
    sym (ap (λ z. z.key_prefix) (some_inj f))

module _ (child : Leaf) (depth : ℕ) (byte : key_byte_at child depth < 256)
    (leaf : 0 < child.address) where
  -- Adding a leaf to a valid node that is not full, under a key byte that has no child, succeeds
  -- and leaves a valid node that maps this byte to the leaf and all else as before, with the same
  -- key prefix.
  pub add_to_nonfull-IsGrown :
      (x : Inode)
      → IsValid x
      → is_full x ≡ false
      → ((c : ℕ) → ¬ Maps x (key_byte_at child depth) c)
      → (y : Inode) × (add_to_nonfull x child depth (get_children_count x) ≡ some y)
        × IsGrown x child depth y
  unfolding add_to_nonfull Inode4.add_to_nonfull Inode16.add_to_nonfull Inode256.add_to_nonfull
  add_to_nonfull-IsGrown (n4 x) v room new =
      let (valid, added) =
        Changes4.add_to_nonfull_in_four x v child depth (ground (arith, v.most)) byte leaf new in
      (_, refl, record { valid = valid; added = added; prefix = refl })
  add_to_nonfull-IsGrown (n16 x) v room new =
      let (valid, added) =
        Changes16.add_to_nonfull_in_sixteen x v child depth (ground (arith, v.most)) byte leaf
          new in
      (_, refl, record { valid = valid; added = added; prefix = refl })
  add_to_nonfull-IsGrown (n48 x) v room new =
      let most = tally-le 0 x.pointer_array 48 in
      let (y, got, valid, added) =
        Changes48.add_to_nonfull_in_forty_eight x v child depth (ground (arith, v.counted)) byte
          leaf new in
      (
        n48 y,
        rw got refl,
        record { valid = valid; added = added; prefix = add48_prefix x y child depth _ got },
      )
  add_to_nonfull-IsGrown (n256 x) v room new =
      let (valid, added) = Changes256.add_to_nonfull_in_all_bytes x v child depth byte leaf new in
      (_, refl, record { valid = valid; added = added; prefix = refl })

  -- For a valid node of at most 48 children that is full, and a leaf whose key byte has no child
  -- there, the next larger node is made; it is valid, maps this byte to the leaf and all else as
  -- the old node, whatever its memory held, and has the same key prefix.
  pub create_larger-IsGrown :
      (raw : Memory) (x : Inode)
      → IsValid x
      → is_full x ≡ true
      → ((c : ℕ) → ¬ Maps x (key_byte_at child depth) c)
      → (y : Inode) × (create_larger raw x child depth ≡ some y) × IsGrown x child depth y
  unfolding create_larger Grow.init_inode16 Grow.init_inode48
  create_larger-IsGrown raw (n4 x) v full new =
      let (valid, added) =
        Four.init_inode16-IsAdded raw.for16 x child depth v ((==_iff _ _).0 full) byte leaf new in
      (_, refl, record { valid = valid; added = added; prefix = refl })
  create_larger-IsGrown raw (n16 x) v full new =
      let (valid, added) =
        Sixteen.init_inode48-IsAdded raw.for48 x child depth v ((==_iff _ _).0 full) byte leaf
          new in
      (_, refl, record { valid = valid; added = added; prefix = refl })
  create_larger-IsGrown raw (n48 x) v full new =
      let unused : x.child_indexes (key_byte_at child depth) ≡ 255 =
        elim (ℕ_discrete (x.child_indexes (key_byte_at child depth)) 255) [
          | yes e ↦ e
          | no ne ↦ absurd (new _ (byte, ne, refl))
        ] in
      let (y, got, valid, added) =
        FortyEight.init_inode256-IsAdded raw.for256 x child depth v ((==_iff _ _).0 full) byte leaf
          unused in
      (
        n256 y,
        rw got refl,
        record {
          valid = valid;
          added = added;
          prefix = grow256_prefix raw.for256 x y child depth got;
        },
      )
  create_larger-IsGrown raw (n256 x) v full new = cc

-- A node that maps one byte less, with the same key prefix; the child of the byte is reclaimed.
pub record IsShrunk (x : Inode) (b : ℕ) (y : Inode) (reclaimed : ℕ) : Type 0 where
  pub valid : IsValid y
  pub removed : IsRemoved (Maps x) b (Maps y)
  pub prefix : get_key_prefix y ≡ get_key_prefix x
  pub freed : Maps x b reclaimed

shrink16_prefix :
    (raw : Inode16.Inode16) (x : Inode48.Inode48) (i : ℕ) (y : Inode16.Inode16) (c : ℕ)
    → Shrink.init_inode16 raw x i ≡ some (y, c)
    → y.key_prefix ≡ x.key_prefix
unfolding Shrink.init_inode16
shrink16_prefix raw x i y c e =
    let (r, _, f) =
      >>=-eq-some
        (Shrink.gather (update x.child_indexes i 255) x.pointer_array 256 0 0 raw.keys raw.children)
        _ e in
    sym (ap (λ z. z.0.key_prefix) (some_inj f))

module _ (i b c : ℕ) where
  -- Removing the child at the index of a byte that has one, from a valid node above the least
  -- size, leaves a valid node that maps all other bytes as before and this byte to nothing, with
  -- the same key prefix, and reclaims the child of the byte.
  pub remove-IsShrunk :
      (x : Inode)
      → IsValid x
      → IsAt x i b
      → Maps x b c
      → is_min_size x ≡ false
      → IsShrunk x b (remove x i).0 (remove x i).1
  unfolding remove Inode4.remove Inode16.remove Inode48.remove Inode256.remove
  remove-IsShrunk (n4 x) v (lt, e) m more =
      let (valid, removed, freed) = Changes4.remove_in_four x v i lt (ground (arith, v.least)) in
      record {
        valid = valid;
        removed =
            subst (λ k. IsRemoved (Inode4.Maps x) k (Inode4.Maps (Inode4.remove x i).0)) e removed;
        prefix = refl;
        freed = subst (λ k. Inode4.Maps x k (x.children i)) e freed;
      }
  remove-IsShrunk (n16 x) v (lt, e) m more =
      let (valid, removed, freed) =
        Changes16.remove_in_sixteen x v i lt (ground (arith, v.least)) in
      record {
        valid = valid;
        removed =
            subst (λ k. IsRemoved (Inode16.Maps x) k (Inode16.Maps (Inode16.remove x i).0)) e
              removed;
        prefix = refl;
        freed = subst (λ k. Inode16.Maps x k (x.children i)) e freed;
      }
  remove-IsShrunk (n48 x) v e (lt, m, f) more = rw e (
      let (valid, removed, freed) =
        Changes48.remove_in_forty_eight x v b lt m (ground (arith, v.least)) in
      record { valid = valid; removed = removed; prefix = refl; freed = freed })
  remove-IsShrunk (n256 x) v e (lt, p, f) more = rw e (
      let (valid, removed, freed) =
        Changes256.remove_in_all_bytes x v b lt (omega arith)
          (ground (arith, v.least, v.counted, tally-le 0 x.children 256)) in
      record { valid = valid; removed = removed; prefix = refl; freed = freed })

  -- For a valid node of the least size, other than a node of four, and an index of a byte that has
  -- a child, the next smaller node is made; it is valid, maps all other bytes as the old node and
  -- this byte to nothing, whatever its memory held, has the same key prefix, and the child of the
  -- byte is reclaimed.
  pub create_smaller-IsShrunk :
      (raw : Memory) (x : Inode)
      → IsValid x
      → IsAt x i b
      → Maps x b c
      → is_min_size x ≡ true
      → type_of x ≢ i4
      → (y : Inode) × (r : ℕ) × (create_smaller raw x i ≡ some (y, r)) × IsShrunk x b y r
  unfolding create_smaller Shrink.init_inode4 Shrink.init_inode48
  create_smaller-IsShrunk raw (n4 x) v at m least other = absurd (other refl)
  create_smaller-IsShrunk raw (n16 x) v (lt, e) m least other =
      let (valid, removed, freed) =
        Five.init_inode4-IsRemoved raw.for4 x i v ((==_iff _ _).0 least) lt in
      (
        _,
        _,
        refl,
        record {
          valid = valid;
          removed =
              subst
                (λ k.
                  IsRemoved (Inode16.Maps x) k (Inode4.Maps (Shrink.init_inode4 raw.for4 x i).0))
                e removed;
          prefix = refl;
          freed = subst (λ k. Inode16.Maps x k (x.children i)) e freed;
        },
      )
  create_smaller-IsShrunk raw (n48 x) v e (lt, m, f) least other =
      let (y, r, got, valid, removed, freed) =
        Seventeen.init_inode16-IsRemoved raw.for16 x b v ((==_iff _ _).0 least) lt m in
      (
        n16 y,
        r,
        rw (e, got) refl,
        record {
          valid = valid;
          removed = removed;
          prefix = shrink16_prefix raw.for16 x b y r got;
          freed = freed;
        },
      )
  create_smaller-IsShrunk raw (n256 x) v e (lt, p, f) least other =
      let (valid, removed, freed) =
        FortyNine.init_inode48-IsRemoved raw.for48 x b v ((==_iff _ _).0 least) lt (omega arith) in
      (
        n48 (Shrink.init_inode48 raw.for48 x b).0,
        (Shrink.init_inode48 raw.for48 x b).1,
        rw e refl,
        record { valid = valid; removed = removed; prefix = refl; freed = freed },
      )
