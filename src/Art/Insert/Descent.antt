-- ===== src/Art/Insert/Descent.antt =====
-- The steps of the loop of `insert_internal`: what it stores at a leaf, at a split, or below a child.
use Prim.Native.Nat.Ordering.{lt, eq, gt}
use Prim.Native.Nat.{Ordering}
use unodb.Base.{
  ℕ, suc, ◌+◌, ◌-◌, ◌≤◌, ◌<◌, ◌≡◌, ◌≢◌, ◌⊎◌, refl, sym, ◌∙◌, List, [], length, get_or, drop, inl,
  inr, ltb, true, false, ltb→lt, Bool-cases, Option, none, some, arith,
}
use mathlib.Core.Path.{ap, subst}
use native.Mathlib.Decide.{dec_lt, ℕ_discrete}
use unodb.Encode.Bytes.{compare_keys}
use unodb.Node.KeyPrefix
use unodb.Node.KeyPrefix.{byte_at, get_u64, get_shared_length}
use unodb.Node.Pointer.{tag_of, type}
use unodb.Node.Inode.{Inode, n4, n16, n48, n256, get_key_prefix, Maps, set_child, IsAt, find_child}
use unodb.Node.Inode.Changes.{set_child-IsReplaced}
use unodb.Art.{Tree, leaf, inode, Slot, node_type, matches}
use unodb.Art.Entries.{IsKey, Has, IsTree, Reaches, Held}
use unodb.Art.Entries.Keys.{compare_keys-eq, matches_iff, shared_all, Follows-shared}
use unodb.Art.Entries.Put.{put-Has, put-IsTree, put-Reaches, Has-split}
use unodb.Art.Insert.{
  Allocation, Outcome, ok, ◌>>=◌, max_size, split_leaf, insert_from, store_child, store_below,
  stored,
}
use unodb.Art.Insert.Spec.{IsAllocation, IsUnused, IsNew, IsInserted, Inserted, exists, added}
use unodb.Art.Insert.Leaves.{add_leaf-IsInserted}
use unodb.Art.Insert.Splits.{split_leaf-IsInserted, split_prefix-IsInserted}

unequal : {A : Type 0} (o : Ordering) (s e : A) → o ≢ eq → elim o [ lt ↦ s | eq ↦ e | gt ↦ s ] ≡ s
unequal lt s e ne = refl
unequal eq s e ne = absurd (ne refl)
unequal gt s e ne = refl

pub set_child-type_of :
    (x : Inode) (i c : ℕ)
    → node_type (inode (set_child x i c) (λ p. leaf [] [])) ≡ node_type (inode x (λ p. leaf [] []))
unfolding set_child
set_child-type_of (n4 x) i c = refl
set_child-type_of (n16 x) i c = refl
set_child-type_of (n48 x) i c = refl
set_child-type_of (n256 x) i c = refl

pub set_child-prefix : (x : Inode) (i c : ℕ) → get_key_prefix (set_child x i c) ≡ get_key_prefix x
unfolding set_child
set_child-prefix (n4 x) i c = refl
set_child-prefix (n16 x) i c = refl
set_child-prefix (n48 x) i c = refl
set_child-prefix (n256 x) i c = refl

module _ (new : Allocation) (allocation : IsAllocation new) (k v : List ℕ) (key : IsKey k)
    (fits : length v ≤ max_size) where
  abbrev pub Agrees : ℕ → Tree → Type 0
  Agrees d t = (k' v' : List ℕ) → Has t k' v' → (i : ℕ) → i < d → get_or k' i 0 ≡ get_or k i 0

  pub insert_from-leaf :
      (node d : ℕ) (existing value : List ℕ)
      → IsTree d (leaf existing value)
      → type node ≡ tag_of (node_type (leaf existing value))
      → 0 < node
      → IsUnused new node (leaf existing value)
      → Agrees d (leaf existing value)
      → Inserted new d
          (leaf existing value)
          node
          k
          v
          (insert_from new k v node (leaf existing value) (drop d k) d)
  unfolding insert_from
  insert_from-leaf node d existing value key' tag present unused agree =
      elim (Bool-cases (matches existing k)) [
        | inl e ↦
            exists value ((matches_iff existing k).0 e, refl)
              (rw (insert_from, (compare_keys-eq k existing).1 ((matches_iff existing k).0 e)) refl)
        | inr e ↦
            let ne : k ≢ existing = λ same. let f = (matches_iff existing k).1 same in cc in
            let (s, got, inserted) =
              split_leaf-IsInserted new allocation k v key fits d node existing value key'
                (λ same. ne (sym same)) (λ i small. agree existing value (refl, refl) i small) tag
                present unused in
            added s (λ w (same, _). ne same) inserted
              (unequal (compare_keys k existing)
                  (stored (split_leaf new k v node existing value (drop d k) d)) (ok none)
                  (λ same. ne ((compare_keys-eq k existing).0 same))
                ∙ rw got refl)
      ]

  module _ (x : Inode) (sub : ℕ → Tree) (node d : ℕ) (tree : IsTree d (inode x sub))
      (tag : type node ≡ tag_of (node_type (inode x sub))) (present : 0 < node)
      (unused : IsUnused new node (inode x sub)) (alone : ¬ Reaches node (inode x sub))
      (agree : Agrees d (inode x sub)) where
    abbrev u : ℕ
    u = get_key_prefix x

    abbrev l : ℕ
    l = KeyPrefix.length (get_key_prefix x)

    abbrev b : ℕ
    b = get_or k (d + KeyPrefix.length (get_key_prefix x)) 0

    pub insert_from-leaves :
        ltb (get_shared_length u (get_u64 (drop d k))) l ≡ true
        → Inserted new d
            (inode x sub)
            node
            k
            v
            (insert_from new k v node (inode x sub) (drop d k) d)
    unfolding insert_from
    insert_from-leaves e =
        let less = ltb→lt _ _ e in
        let (s, got, inserted) =
          split_prefix-IsInserted new allocation k v key fits d node x sub tree tag present unused
            alone less in
        added s
          (λ w (b', c, m, h).
            let (_, _, follows) = tree.1 b' c m in
            Follows-shared u d k tree.0.prefix key b' (follows k w h) less)
          inserted (rw (insert_from, e, got) refl)

    module _ (e : ltb (get_shared_length u (get_u64 (drop d k))) l ≡ false)
        (at : get_or (drop l (drop d k)) 0 0 ≡ b)
        (next : drop 1 (drop l (drop d k)) ≡ drop (suc (d + l)) k) where
      pub insert_from-missing :
          find_child x b ≡ none
          → ((c : ℕ) → ¬ Maps x b c)
          → Inserted new d
              (inode x sub)
              node
              k
              v
              (insert_from new k v node (inode x sub) (drop d k) d)
      unfolding insert_from
      insert_from-missing f free =
          let (s, got, inserted) =
            add_leaf-IsInserted new allocation k v key fits x sub d node tree tag present unused
              alone (shared_all u d k tree.0.prefix key e) free in
          added s
            (λ w (b', c, m, h).
              let (_, _, follows) = tree.1 b' c m in
              free c (subst (λ a. Maps x a c) (sym (follows k w h).1) m))
            inserted (rw (insert_from, e, at, f, got) refl)

      module _ (i c : ℕ) (f : find_child x b ≡ some (i, c)) (on : IsAt x i b) (m : Maps x b c) where
        abbrev pub below : Outcome (Option Slot)
        below = insert_from new k v c (sub c) (drop (suc (d + l)) k) (suc (d + l))

        insert_from-goes :
            insert_from new k v node (inode x sub) (drop d k) d
            ≡ (below >>= λ r. ok (store_below node x sub i r))
        unfolding insert_from
        insert_from-goes =
            let step : d + l + 1 ≡ suc (d + l) = omega arith in
            rw (insert_from, e, at, f, next, step) refl

        stored-IsInserted :
            (s : Slot)
            → IsInserted new (suc (d + l)) (sub c) c k v s
            → IsInserted new d (inode x sub) node k v (store_child node x sub i s)
        stored-IsInserted s g =
            let (valid, replaced) =
              set_child-IsReplaced x i b c s.ptr tree.0.valid on m g.present in
            let held : (p : ℕ)
                → Held p s.ptr s.tree
                → ((c0 : ℕ) × Maps x b c0 × Held p c0 (sub c0)) ⊎ IsNew new p =
              λ p h. elim (g.held p h) [ inl h' ↦ inl (c, m, h') | inr fresh ↦ inr fresh ] in
            let old : (p : ℕ) → Reaches p (inode x sub) → ¬ IsNew new p = λ p h. unused p (inr h) in
            let y = set_child x i s.ptr in
            let (_, _, follows) = tree.1 b c m in
            record {
              tree =
                  put-IsTree x y sub d b s.ptr s.tree (IsNew new) tree valid
                    (set_child-prefix x i s.ptr) replaced held old g.tree g.tag
                    (λ k' v' h. elim ((g.entries k' v').0 h) [
                      | inl (same, _) ↦ rw same (shared_all u d k tree.0.prefix key e, refl)
                      | inr old ↦ follows k' v' old
                    ])
                    g.alone;
              tag = tag ∙ sym (ap tag_of (set_child-type_of x i s.ptr));
              present = present;
              alone = λ h.
                  elim (put-Reaches x y sub d b s.ptr s.tree (IsNew new) tree valid
                    (set_child-prefix x i s.ptr) replaced held old node h) [
                      | inl r ↦ alone r
                      | inr fresh ↦ unused node (inl refl) fresh
                    ];
              held = λ p h. elim h [
                | inl e ↦ inl (inl e)
                | inr h' ↦
                    elim (put-Reaches x y sub d b s.ptr s.tree (IsNew new) tree valid
                      (set_child-prefix x i s.ptr) replaced held old p h') [
                        | inl r ↦ inl (inr r)
                        | inr fresh ↦ inr fresh
                      ]
              ];
              entries = λ k' v'.
                  let (to, from) =
                    put-Has x y sub d b s.ptr s.tree (IsNew new) tree valid
                      (set_child-prefix x i s.ptr) replaced held old k' v' in
                  let (to', from') = Has-split x sub b c k' v' tree.0.valid m in
                  let (to'', from'') = g.entries k' v' in
                  (
                    λ h. elim (to h) [
                      | inl h' ↦ elim (to'' h') [ inl q ↦ inl q | inr old ↦ inr (from' (inl old)) ]
                      | inr beside ↦ inr (from' (inr beside))
                    ],
                    λ q. from (elim q [
                      | inl q' ↦ inl (from'' (inl q'))
                      | inr h ↦ elim (to' h) [
                        | inl old ↦ inl (from'' (inr old))
                        | inr beside ↦ inr beside
                      ]
                    ]),
                  );
            }

        pub insert_from-below :
            (o : Outcome (Option Slot))
            → below ≡ o
            → Inserted new (suc (d + l)) (sub c) c k v o
            → Inserted new d
                (inode x sub)
                node
                k
                v
                (insert_from new k v node (inode x sub) (drop d k) d)
        insert_from-below o same (exists w h ended) =
            exists w (b, c, m, h) (insert_from-goes ∙ rw (same, ended) refl)
        insert_from-below o same (added s fresh g ended) =
            added (store_child node x sub i s)
              (λ w h. elim ((Has-split x sub b c k w tree.0.valid m).0 h) [
                | inl h' ↦ fresh w h'
                | inr (b', c', ne, m', h') ↦
                    let (_, _, follows) = tree.1 b' c' m' in ne (sym (follows k w h').1)
              ])
              (stored-IsInserted s g) (insert_from-goes ∙ rw (same, ended) refl)

        pub below-Agrees : Agrees (suc (d + l)) (sub c)
        below-Agrees k' v' h j small =
            let (_, _, follows) = tree.1 b c m in
            elim (dec_lt j d) [
              | yes lo ↦ agree k' v' (b, c, m, h) j lo
              | no ge ↦ elim (ℕ_discrete j (d + l)) [
                | yes last ↦ rw last (follows k' v' h).1
                | no other ↦
                    let w : d + (j - d) ≡ j = omega arith in
                    subst (λ n. get_or k' n 0 ≡ get_or k n 0) w
                      ((follows k' v' h).0 (j - d) (omega arith)
                        ∙ sym (shared_all u d k tree.0.prefix key e (j - d) (omega arith)))
              ]
            ]
