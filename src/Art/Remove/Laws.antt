-- ===== src/Art/Remove/Laws.antt =====
-- `remove_internal` takes the key out of the tree, or leaves the tree without the key as it is.
use unodb.Base.{
  ℕ, suc, ◌+◌, ◌<◌, ◌≡◌, ◌≢◌, ◌⊎◌, refl, sym, ◌∙◌, List, get_or, drop, inl, inr, ltb, true, false,
  ltb→lt, Bool-cases, Option, none, some,
}
use mathlib.Core.Path.{ap, subst}
use unodb.Node.KeyPrefix
use unodb.Node.KeyPrefix.{get_u64, get_shared_length}
use unodb.Node.Pointer.{tag_of, type}
use unodb.Node.Inode.{Inode, get_key_prefix, Maps, IsAt, find_child, set_child}
use unodb.Node.Inode.Changes.{set_child-IsReplaced}
use unodb.Node.Inode.Reads.{Maps-pos}
use unodb.Art.{Tree, leaf, inode, Slot, node_type, matches}
use unodb.Art.Entries.{IsKey, Has, IsTree, Reaches, Held}
use unodb.Art.Entries.Keys.{matches_iff, Follows-shared}
use unodb.Art.Entries.Put.{put-Has, put-IsTree, put-Reaches, Has-split}
use unodb.Art.Get.{missing, child, leaves, goes, step}
use unodb.Art.Insert.{Allocation, Outcome, ok, ◌>>=◌, store_child, store_below}
use unodb.Art.Insert.Spec.{IsAddress}
use unodb.Art.Insert.Descent.{set_child-type_of, set_child-prefix}
use unodb.Art.Remove.{remove_from}
use unodb.Art.Remove.Spec.{IsNew, IsUnused, IsWithout, Removed, absent, removed}
use unodb.Art.Remove.Leaves.{remove_leaf-IsWithout}

pub Tree_cases :
    (t : Tree)
    → ((key : List ℕ) × (value : List ℕ) × (t ≡ leaf key value))
      ⊎ ((x : Inode) × (sub : ℕ → Tree) × (t ≡ inode x sub))
Tree_cases (leaf key value) = inl (key, value, refl)
Tree_cases (inode x sub) = inr (x, sub, refl)

pick_inode :
    {A : Type 0} (t : Tree) (f : List ℕ → List ℕ → A) (z : A) (y : Inode) (s : ℕ → Tree)
    → t ≡ inode y s
    → elim t [ leaf key value ↦ f key value | inode x sub ↦ z ] ≡ z
pick_inode (leaf key value) f z y s e = cc
pick_inode (inode x sub) f z y s e = refl

leaf_or_inode : {key value : List ℕ} {x : Inode} {sub : ℕ → Tree} → leaf key value ≢ inode x sub
leaf_or_inode e = cc

module _ (new : Allocation) (address : IsAddress new.inode_ptr) (k : List ℕ) (key : IsKey k)
    (x : Inode) (sub : ℕ → Tree) (node d : ℕ) (tree : IsTree d (inode x sub))
    (tag : type node ≡ tag_of (node_type (inode x sub))) (present : 0 < node)
    (unused : IsUnused new node (inode x sub)) (alone : ¬ Reaches node (inode x sub)) where
  abbrev l : ℕ
  l = KeyPrefix.length (get_key_prefix x)

  abbrev b : ℕ
  b = get_or k (d + KeyPrefix.length (get_key_prefix x)) 0

  -- A key of the tree is below the child of its byte.
  only_below : (c : ℕ) → Maps x b c → (w : List ℕ) → Has (inode x sub) k w → Has (sub c) k w
  only_below c m w h = elim ((Has-split x sub b c k w tree.0.valid m).0 h) [
    | inl h' ↦ h'
    | inr (b', c', ne, m', h') ↦
        let (_, _, follows) = tree.1 b' c' m' in absurd (ne (sym (follows k w h').1))
  ]

  pub remove_from-leaves :
      ltb
          (get_shared_length (get_key_prefix x) (get_u64 (drop d k)))
          (KeyPrefix.length (get_key_prefix x))
        ≡ true
      → Removed new d (inode x sub) node k (remove_from new k node (inode x sub) (drop d k))
  unfolding remove_from
  remove_from-leaves e =
      absent
        (λ w (b', c, m, h).
          let (_, _, follows) = tree.1 b' c m in
          Follows-shared (get_key_prefix x) d k tree.0.prefix key b' (follows k w h) (ltb→lt _ _ e))
        (rw (remove_from, e) refl)

  module _
      (e : ltb
          (get_shared_length (get_key_prefix x) (get_u64 (drop d k)))
          (KeyPrefix.length (get_key_prefix x))
        ≡ false)
      (at : get_or (drop (KeyPrefix.length (get_key_prefix x)) (drop d k)) 0 0
        ≡ get_or k (d + KeyPrefix.length (get_key_prefix x)) 0)
      (next : drop 1 (drop (KeyPrefix.length (get_key_prefix x)) (drop d k))
        ≡ drop (suc (d + KeyPrefix.length (get_key_prefix x))) k) where
    pub remove_from-missing :
        find_child x (get_or k (d + KeyPrefix.length (get_key_prefix x)) 0) ≡ none
        → ((c : ℕ) → ¬ Maps x (get_or k (d + KeyPrefix.length (get_key_prefix x)) 0) c)
        → Removed new d (inode x sub) node k (remove_from new k node (inode x sub) (drop d k))
    unfolding remove_from
    remove_from-missing f free =
        absent
          (λ w (b', c, m, h).
            let (_, _, follows) = tree.1 b' c m in
            free c (subst (λ a. Maps x a c) (sym (follows k w h).1) m))
          (rw (remove_from, e, at, f) refl)

    module _ (i c : ℕ)
        (f : find_child x (get_or k (d + KeyPrefix.length (get_key_prefix x)) 0) ≡ some (i, c))
        (on : IsAt x i (get_or k (d + KeyPrefix.length (get_key_prefix x)) 0))
        (m : Maps x (get_or k (d + KeyPrefix.length (get_key_prefix x)) 0) c) where
      -- The child is a leaf.
      pub remove_from-leaf :
          (key' value : List ℕ)
          → sub c ≡ leaf key' value
          → Removed new d (inode x sub) node k (remove_from new k node (inode x sub) (drop d k))
      unfolding remove_from
      remove_from-leaf key' value is_leaf = elim (Bool-cases (matches key' k)) [
        | inl same ↦
            let here = (matches_iff key' k).0 same in
            let (s, got, g) =
              remove_leaf-IsWithout new address k x sub d node i c tree tag present unused alone on
                m (λ a a' h. let (q, _) = subst (λ z. Has z a a') is_leaf h in q ∙ sym here) in
            removed s value (b, c, m, subst (λ z. Has z k value) (sym is_leaf) (here, refl)) g
              (rw (remove_from, e, at, f, is_leaf, same, got) refl)
        | inr other ↦
            absent
              (λ w h.
                let (q, _) = subst (λ z. Has z k w) is_leaf (only_below c m w h) in
                let q' = (matches_iff key' k).1 q in cc)
              (rw (remove_from, e, at, f, is_leaf, other) refl)
      ]

      stored-IsWithout :
          (s : Slot)
          → IsWithout new (suc (d + l)) (sub c) c k s
          → IsWithout new d (inode x sub) node k (store_child node x sub i s)
      stored-IsWithout s g =
          let (valid, replaced) = set_child-IsReplaced x i b c s.ptr tree.0.valid on m g.present in
          let held : (p : ℕ)
              → Held p s.ptr s.tree
              → ((c0 : ℕ) × Maps x b c0 × Held p c0 (sub c0)) ⊎ IsNew new p =
            λ p h. elim (g.held p h) [ inl h' ↦ inl (c, m, h') | inr fresh ↦ inr fresh ] in
          let old : (p : ℕ) → Reaches p (inode x sub) → ¬ IsNew new p = λ p h. unused p (inr h) in
          let y = set_child x i s.ptr in
          let (_, _, follows) = tree.1 b c m in
          record {
            tree =
                put-IsTree x y sub d b s.ptr s.tree (IsNew new) tree valid
                  (set_child-prefix x i s.ptr) replaced held old g.tree g.tag
                  (λ k' v' h. follows k' v' ((g.entries k' v').0 h).1) g.alone;
            tag = tag ∙ sym (ap tag_of (set_child-type_of x i s.ptr));
            present = present;
            alone = λ h.
                elim (put-Reaches x y sub d b s.ptr s.tree (IsNew new) tree valid
                  (set_child-prefix x i s.ptr) replaced held old node h) [
                    | inl r ↦ alone r
                    | inr fresh ↦ unused node (inl refl) fresh
                  ];
            held = λ p h. elim h [
              | inl q ↦ inl (inl q)
              | inr h' ↦
                  elim (put-Reaches x y sub d b s.ptr s.tree (IsNew new) tree valid
                    (set_child-prefix x i s.ptr) replaced held old p h') [
                      | inl r ↦ inl (inr r)
                      | inr fresh ↦ inr fresh
                    ]
            ];
            entries = λ k' v'.
                let (to, from) =
                  put-Has x y sub d b s.ptr s.tree (IsNew new) tree valid
                    (set_child-prefix x i s.ptr) replaced held old k' v' in
                let (to', from') = Has-split x sub b c k' v' tree.0.valid m in
                let (to'', from'') = g.entries k' v' in
                (
                  λ h. elim (to h) [
                    | inl h' ↦ let (ne, h'') = to'' h' in (ne, from' (inl h''))
                    | inr (b', c', ne, m', h') ↦
                        let (_, _, follows') = tree.1 b' c' m' in
                        (
                          λ same.
                              ne (sym (follows' k' v' h').1 ∙ ap (λ q. get_or q (d + l) 0) same),
                          from' (inr (b', c', ne, m', h')),
                        )
                  ],
                  λ (ne, h).
                      from
                        (elim (to' h) [ inl h' ↦ inl (from'' (ne, h')) | inr beside ↦ inr beside ]),
                );
          }

      -- The child is an internal node.
      remove_from-goes :
          (y : Inode) (s : ℕ → Tree)
          → sub c ≡ inode y s
          → remove_from new k node (inode x sub) (drop d k) ≡ (
              remove_from new k c (sub c) (drop (suc (d + l)) k) >>= λ r.
              ok (store_below node x sub i r))
      unfolding remove_from
      remove_from-goes y s inner =
          rw (remove_from, e, at, f) (pick_inode (sub c) _ _ y s inner ∙ rw next refl)

      pub remove_from-below :
          (y : Inode) (s : ℕ → Tree) (o : Outcome (Option Slot))
          → sub c ≡ inode y s
          → remove_from new k c (sub c) (drop (suc (d + KeyPrefix.length (get_key_prefix x))) k) ≡ o
          → Removed new (suc (d + KeyPrefix.length (get_key_prefix x))) (sub c) c k o
          → Removed new d (inode x sub) node k (remove_from new k node (inode x sub) (drop d k))
      remove_from-below y s o inner same (absent nowhere ended) =
          absent (λ w h. nowhere w (only_below c m w h))
            (remove_from-goes y s inner ∙ rw (same, ended) refl)
      remove_from-below y s o inner same (removed z w h g ended) =
          removed (store_child node x sub i z) w (b, c, m, h) (stored-IsWithout z g)
            (remove_from-goes y s inner ∙ rw (same, ended) refl)

pub remove_from-Removed :
    (new : Allocation) (address : IsAddress new.inode_ptr) (k : List ℕ) (key : IsKey k) (x : Inode)
    (sub : ℕ → Tree) (node d : ℕ)
    → IsTree d (inode x sub)
    → type node ≡ tag_of (node_type (inode x sub))
    → 0 < node
    → IsUnused new node (inode x sub)
    → ¬ Reaches node (inode x sub)
    → Removed new d (inode x sub) node k (remove_from new k node (inode x sub) (drop d k))
remove_from-Removed new a k key x sub node d = descend (inode x sub) node d x sub refl
  where
    descend :
        (t : Tree) (node d : ℕ) (x : Inode) (sub : ℕ → Tree)
        → t ≡ inode x sub
        → IsTree d t
        → type node ≡ tag_of (node_type t)
        → 0 < node
        → IsUnused new node t
        → ¬ Reaches node t
        → Removed new d t node k (remove_from new k node t (drop d k))
    descend (leaf key' value) node d x sub e tree tag present unused alone =
        absurd (leaf_or_inode e)
    descend (inode x sub) node d x' sub' e tree tag present unused alone =
        let l = KeyPrefix.length (get_key_prefix x) in
        elim (step d x k tree.0 key) [
          | leaves out ↦
              remove_from-leaves new a k key x sub node d tree tag present unused alone out
          | goes inside at next (missing f free) ↦
              remove_from-missing new a k key x sub node d tree tag present unused alone inside at
                next f free
          | goes inside at next (child i c f on m) ↦
              let (under, tag', follows) = tree.1 (get_or k (d + l) 0) c m in
              let unused' : IsUnused new c (sub c) =
                λ p h. unused p (inr (get_or k (d + l) 0, c, m, h)) in
              elim (Tree_cases (sub c)) [
                | inl (key', value, q) ↦
                    remove_from-leaf new a k key x sub node d tree tag present unused alone inside
                      at next i c f on m key' value q
                | inr (y, s, q) ↦
                    remove_from-below new a k key x sub node d tree tag present unused alone inside
                      at next i c f on m y s _ q refl
                      (descend (sub c) c (suc (d + l)) y s q under tag'
                        (Maps-pos x (get_or k (d + l) 0) c tree.0.valid m) unused'
                        (tree.2.apart (get_or k (d + l) 0) c m))
              ]
        ]
