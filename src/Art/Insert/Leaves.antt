-- ===== src/Art/Insert/Leaves.antt =====
-- Storing a leaf in a node that has no child for its key byte.
use unodb.Art.Entries.Rebase.{inner_tag}
use unodb.Base.{
  ℕ, ◌+◌, ◌≤◌, ◌<◌, ◌≡◌, ◌⊎◌, refl, sym, ◌∙◌, List, length, get_or, update, some, some_inj,
  >>=-eq-some, Bool-cases, inl, inr,
}
use mathlib.Core.Path.{ap, subst}
use unodb.Node.{Leaf}
use unodb.Node.KeyPrefix
use unodb.Node.KeyPrefix.{byte_at}
use unodb.Node.Pointer.{tag_of, type, ptr, tag_ptr}
use unodb.Node.Inode48
use unodb.Node.Inode.{Inode, n4, n16, n48, n256, get_key_prefix, Maps, type_of, add_to_nonfull}
use unodb.Node.Inode.Resize.{is_full, IsGrown, add_to_nonfull-IsGrown, create_larger-IsGrown}
use unodb.Art.{Tree, leaf, inode, Slot}
use unodb.Art.Entries.{IsKey, IsTree, Reaches, Held}
use unodb.Art.Entries.Put.{put-Has, put-IsTree, put-Reaches, HasBeside-all, IsAdded-IsReplaced}
use unodb.Art.Insert.{Allocation, ok, max_size, add_leaf}
use unodb.Art.Insert.Spec.{
  IsAllocation, IsNew, IsUnused, IsInserted, make_db_leaf_ptr-ok, leaf_address, tag_ptr-lem,
}

pub add_to_nonfull-type_of :
    (x y : Inode) (child : Leaf) (depth n : ℕ)
    → add_to_nonfull x child depth n ≡ some y
    → type_of y ≡ type_of x
unfolding add_to_nonfull
add_to_nonfull-type_of (n4 x) y child depth n e = sym (ap type_of (some_inj e))
add_to_nonfull-type_of (n16 x) y child depth n e = sym (ap type_of (some_inj e))
add_to_nonfull-type_of (n48 x) y child depth n e =
    let (z, _, f) = >>=-eq-some (Inode48.add_to_nonfull x child depth n) _ e in
    sym (ap type_of (some_inj f))
add_to_nonfull-type_of (n256 x) y child depth n e = sym (ap type_of (some_inj e))

module _ (new : Allocation) (allocation : IsAllocation new) (k v : List ℕ) (key : IsKey k)
    (fits : length v ≤ max_size) (x : Inode) (sub : ℕ → Tree) (d node : ℕ)
    (tree : IsTree d (inode x sub)) (tag : type node ≡ tag_of (type_of x)) (present : 0 < node)
    (unused : IsUnused new node (inode x sub)) (alone : ¬ Reaches node (inode x sub))
    (prefixed : (i : ℕ)
      → i < KeyPrefix.length (get_key_prefix x)
      → get_or k (d + i) 0 ≡ byte_at (get_key_prefix x) i)
    (free : (c : ℕ) → ¬ Maps x (get_or k (d + KeyPrefix.length (get_key_prefix x)) 0) c) where
  abbrev depth : ℕ
  depth = d + KeyPrefix.length (get_key_prefix x)

  abbrev child : Leaf
  child = record { address = new.leaf_ptr; key_view = k }

  -- A grown node, wherever it is, makes a well-formed tree.
  grown-IsInserted :
      (y : Inode) (p : ℕ)
      → IsGrown x child depth y
      → type p ≡ tag_of (type_of y)
      → 0 < p
      → (p ≡ node) ⊎ IsNew new p
      → IsInserted new d
          (inode x sub)
          node
          k
          v
          (record { ptr = p; tree = inode y (update sub new.leaf_ptr (leaf k v)) })
  grown-IsInserted y p g t pos place =
      let b = get_or k depth 0 in
      let replaced = IsAdded-IsReplaced (Maps x) (Maps y) b new.leaf_ptr g.added free in
      let (leaf_tag, leaf_back) = leaf_address new.leaf_ptr allocation.leaf in
      let held : (q : ℕ)
          → Held q new.leaf_ptr (leaf k v)
          → ((c0 : ℕ) × Maps x b c0 × Held q c0 (sub c0)) ⊎ IsNew new q =
        λ q h. elim h [
          | inl e ↦ inr (inl (ap ptr e ∙ leaf_back))
          | inr no_child ↦ absurd no_child
        ] in
      let old : (q : ℕ) → Reaches q (inode x sub) → ¬ IsNew new q = λ q h. unused q (inr h) in
      record {
        tree =
            put-IsTree x y sub d b new.leaf_ptr (leaf k v) (IsNew new) tree g.valid g.prefix
              replaced held old key leaf_tag (λ k' v' (e, _). rw e (prefixed, refl)) (λ h. h);
        tag = t;
        present = pos;
        alone = λ h.
            elim (put-Reaches x y sub d b new.leaf_ptr (leaf k v) (λ q. q ≡ new.leaf_ptr) tree
              g.valid g.prefix replaced
              (λ q h'. elim h' [ inl e ↦ inr e | inr no_child ↦ absurd no_child ])
              (λ q h' e. unused q (inr h') (inl (ap ptr e ∙ leaf_back))) p h) [
                | inl r ↦ elim place [
                  | inl same ↦ alone (subst (λ q. Reaches q (inode x sub)) same r)
                  | inr fresh ↦ unused p (inr r) fresh
                ]
                | inr e ↦ inner_tag y (sym t ∙ ap type e ∙ leaf_tag)
              ];
        held = λ q h. elim h [
          | inl e ↦ elim place [
            | inl same ↦ inl (inl (e ∙ same))
            | inr fresh ↦ inr (subst (IsNew new) (sym e) fresh)
          ]
          | inr h' ↦
              elim (put-Reaches x y sub d b new.leaf_ptr (leaf k v) (IsNew new) tree g.valid
                g.prefix replaced held old q h') [ inl r ↦ inl (inr r) | inr fresh ↦ inr fresh ]
        ];
        entries = λ k' v'.
            let (to, from) =
              put-Has x y sub d b new.leaf_ptr (leaf k v) (IsNew new) tree g.valid g.prefix replaced
                held old k' v' in
            let (all, beside) = HasBeside-all x sub b k' v' free in
            (
              λ h. elim (to h) [ inl e ↦ inl e | inr h' ↦ inr (all h') ],
              λ q. from (elim q [ inl e ↦ inl e | inr h' ↦ inr (beside h') ]),
            );
      }

  pub add_leaf-IsInserted :
      (s : Slot) × (add_leaf new x sub node k v depth ≡ ok s)
      × IsInserted new d (inode x sub) node k v s
  unfolding add_leaf
  add_leaf-IsInserted =
      let made = make_db_leaf_ptr-ok new k v key fits in
      elim (Bool-cases (is_full x)) [
        | inl full ↦
            let (y, got, g) =
              create_larger-IsGrown child depth (key.1 depth) allocation.leaf.present new.raw x
                tree.0.valid full free in
            let (t, pos, place) = tag_ptr-lem new.inode_ptr (type_of y) allocation.inode in
            (
              record {
                ptr = tag_ptr new.inode_ptr (type_of y);
                tree = inode y (update sub new.leaf_ptr (leaf k v));
              },
              rw (made, full, got) refl,
              grown-IsInserted y (tag_ptr new.inode_ptr (type_of y)) g t pos (inr (inr place)),
            )
        | inr room ↦
            let (y, got, g) =
              add_to_nonfull-IsGrown child depth (key.1 depth) allocation.leaf.present x
                tree.0.valid room free in
            (
              record { ptr = node; tree = inode y (update sub new.leaf_ptr (leaf k v)) },
              rw (made, room, got) refl,
              grown-IsInserted y node g
                  (tag ∙ sym (ap tag_of (add_to_nonfull-type_of x y child depth _ got))) present
                  (inl refl),
            )
      ]
