-- ===== src/Art/Remove/Leaves.antt =====
-- Removing a leaf from its parent.
use unodb.Base.{
  ℕ, ◌+◌, ◌<◌, ◌≡◌, ◌≢◌, ◌⊎◌, refl, sym, ◌∙◌, List, get_or, some, true, Bool-cases, inl, inr,
  ==_iff, arith,
}
use mathlib.Core.Path.{subst, ap}
use unodb.Node.KeyPrefix
use unodb.Node.Pointer.{tag_of, type, tag_ptr, ptr, i4}
use unodb.Node.Split.{leave_last_child}
use unodb.Node.Inode.{
  Inode, n4, n16, n48, n256, get_key_prefix, Maps, IsAt, type_of, is_min_size, create_smaller,
}
use unodb.Node.Inode
use unodb.Node.Inode.Resize.{IsShrunk, remove-IsShrunk, create_smaller-IsShrunk}
use unodb.Art.{Tree, inode, Slot}
use unodb.Art.Entries.{Reaches, Has, IsTree}
use unodb.Art.Entries.Dropped.{HasBeside-others, dropped-IsTree, dropped-Has, dropped-Reaches}
use unodb.Art.Insert.{Allocation, ok}
use unodb.Art.Insert.Spec.{IsAddress, tag_ptr-lem}
use unodb.Art.Remove.{shrink, remove_leaf}
use unodb.Art.Remove.Spec.{IsNew, IsUnused, IsWithout}
use unodb.Art.Remove.Last.{leave-IsLeft}

remove-type_of : (x : Inode) (i : ℕ) → type_of (Inode.remove x i).0 ≡ type_of x
unfolding Inode.remove
remove-type_of (n4 x) i = refl
remove-type_of (n16 x) i = refl
remove-type_of (n48 x) i = refl
remove-type_of (n256 x) i = refl

module _ (new : Allocation) (address : IsAddress new.inode_ptr) (k : List ℕ) (x : Inode)
    (sub : ℕ → Tree) (d node i c : ℕ) (tree : IsTree d (inode x sub))
    (tag : type node ≡ tag_of (type_of x)) (present : 0 < node)
    (unused : IsUnused new node (inode x sub)) (alone : ¬ Reaches node (inode x sub))
    (on : IsAt x i (get_or k (d + KeyPrefix.length (get_key_prefix x)) 0))
    (m : Maps x (get_or k (d + KeyPrefix.length (get_key_prefix x)) 0) c)
    (only : (a b : List ℕ) → Has (sub c) a b → a ≡ k) where
  abbrev b : ℕ
  b = get_or k (d + KeyPrefix.length (get_key_prefix x)) 0

  shrunk-IsWithout :
      (y : Inode) (r p : ℕ)
      → IsShrunk x b y r
      → type p ≡ tag_of (type_of y)
      → 0 < p
      → (p ≡ node) ⊎ IsNew new p
      → IsWithout new d (inode x sub) node k (record { ptr = p; tree = inode y sub })
  shrunk-IsWithout y r p g t pos place = record {
    tree = dropped-IsTree x y sub d b tree g.valid g.prefix g.removed;
    tag = t;
    present = pos;
    alone = λ h.
        let old = dropped-Reaches x y sub d b tree g.valid g.prefix g.removed p h in
        elim place [
          | inl same ↦ alone (subst (λ q. Reaches q (inode x sub)) same old)
          | inr fresh ↦ unused p (inr old) fresh
        ];
    held = λ q h. elim h [
      | inl e ↦ elim place [ inl same ↦ inl (inl (e ∙ same)) | inr fresh ↦ inr (ap ptr e ∙ fresh) ]
      | inr h' ↦ inl (inr (dropped-Reaches x y sub d b tree g.valid g.prefix g.removed q h'))
    ];
    entries = λ k' v'.
        let (to, from) = dropped-Has x y sub d b tree g.valid g.prefix g.removed k' v' in
        let (to', from') = HasBeside-others x sub d c k k' v' tree m only in
        (λ h. to' (to h), λ h. from (from' h));
  }

  smaller-IsWithout :
      is_min_size x ≡ true
      → type_of x ≢ i4
      → (y : Inode) (r : ℕ) → create_smaller new.raw x i ≡ some (y, r)
      → IsShrunk x b y r
      → IsWithout new d
          (inode x sub)
          node
          k
          (record { ptr = tag_ptr new.inode_ptr (type_of y); tree = inode y sub })
  smaller-IsWithout least ne y r got g =
      let (t, pos, back) = tag_ptr-lem new.inode_ptr (type_of y) address in
      shrunk-IsWithout y r (tag_ptr new.inode_ptr (type_of y)) g t pos (inr back)

  shrink-IsWithout-larger :
      type_of x ≢ i4
      → is_min_size x ≡ true
      → ((y : Inode) (r : ℕ)
          → create_smaller new.raw x i ≡ some (y, r)
          → shrink new x sub i
            ≡ ok (record { ptr = tag_ptr new.inode_ptr (type_of y); tree = inode y sub }))
      → (s : Slot) × (shrink new x sub i ≡ ok s) × IsWithout new d (inode x sub) node k s
  shrink-IsWithout-larger ne least run =
      let (y, r, got, g) = create_smaller-IsShrunk i b c new.raw x tree.0.valid on m least ne in
      (_, run y r got, smaller-IsWithout least ne y r got g)

pub shrink-IsWithout :
    (new : Allocation) (address : IsAddress new.inode_ptr) (k : List ℕ) (x : Inode) (sub : ℕ → Tree)
    (d node i c : ℕ)
    → IsTree d (inode x sub)
    → type node ≡ tag_of (type_of x)
    → 0 < node
    → IsUnused new node (inode x sub)
    → ¬ Reaches node (inode x sub)
    → IsAt x i (get_or k (d + KeyPrefix.length (get_key_prefix x)) 0)
    → Maps x (get_or k (d + KeyPrefix.length (get_key_prefix x)) 0) c
    → ((a b : List ℕ) → Has (sub c) a b → a ≡ k)
    → is_min_size x ≡ true
    → (s : Slot) × (shrink new x sub i ≡ ok s) × IsWithout new d (inode x sub) node k s
unfolding shrink leave_last_child tag_of
shrink-IsWithout new a k (n4 x) sub d node i c tree tag present unused alone on m only least =
    let b = get_or k (d + KeyPrefix.length x.key_prefix) 0 in
    let g = leave-IsLeft x sub d i b c tree ((==_iff _ _).0 least) on.0 on.1 _ refl in
    (
      _,
      refl,
      record {
        tree = g.tree;
        tag = g.tag;
        present = g.present;
        alone = g.alone;
        held = λ q h. inl (inr (g.held q h));
        entries = λ k' v'.
            let (to, from) = g.entries k' v' in
            let (to', from') = HasBeside-others (n4 x) sub d c k k' v' tree m only in
            (λ h. to' (to h), λ h. from (from' h));
      },
    )
shrink-IsWithout new a k (n16 x) sub d node i c tree tag present unused alone on m only least =
    shrink-IsWithout-larger new a k (n16 x) sub d node i c tree tag present unused alone on m only
      (λ e. let f = ap tag_of e in omega arith) least (λ y r got. rw got refl)
shrink-IsWithout new a k (n48 x) sub d node i c tree tag present unused alone on m only least =
    shrink-IsWithout-larger new a k (n48 x) sub d node i c tree tag present unused alone on m only
      (λ e. let f = ap tag_of e in omega arith) least (λ y r got. rw got refl)
shrink-IsWithout new a k (n256 x) sub d node i c tree tag present unused alone on m only least =
    shrink-IsWithout-larger new a k (n256 x) sub d node i c tree tag present unused alone on m only
      (λ e. let f = ap tag_of e in omega arith) least (λ y r got. rw got refl)

pub remove_leaf-IsWithout :
    (new : Allocation) (address : IsAddress new.inode_ptr) (k : List ℕ) (x : Inode) (sub : ℕ → Tree)
    (d node i c : ℕ)
    → IsTree d (inode x sub)
    → type node ≡ tag_of (type_of x)
    → 0 < node
    → IsUnused new node (inode x sub)
    → ¬ Reaches node (inode x sub)
    → IsAt x i (get_or k (d + KeyPrefix.length (get_key_prefix x)) 0)
    → Maps x (get_or k (d + KeyPrefix.length (get_key_prefix x)) 0) c
    → ((a b : List ℕ) → Has (sub c) a b → a ≡ k)
    → (s : Slot) × (remove_leaf new node x sub i ≡ ok s) × IsWithout new d (inode x sub) node k s
unfolding remove_leaf
remove_leaf-IsWithout new a k x sub d node i c tree tag present unused alone on m only =
    elim (Bool-cases (is_min_size x)) [
      | inl least ↦
          let (s, got, g) =
            shrink-IsWithout new a k x sub d node i c tree tag present unused alone on m only
              least in
          (s, rw (remove_leaf, least) got, g)
      | inr more ↦
          let g =
            remove-IsShrunk i (get_or k (d + KeyPrefix.length (get_key_prefix x)) 0) c x
              tree.0.valid on m more in
          (
            record { ptr = node; tree = inode (Inode.remove x i).0 sub },
            rw (remove_leaf, more) refl,
            shrunk-IsWithout new a k x sub d node i c tree tag present unused alone on m only
                (Inode.remove x i).0 (Inode.remove x i).1 node g
                (tag ∙ sym (ap tag_of (remove-type_of x i))) present (inl refl),
          )
    ]
