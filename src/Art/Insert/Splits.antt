-- ===== src/Art/Insert/Splits.antt =====
-- A new node of four over a node and a new leaf.
use unodb.Base.{
  ℕ, suc, ◌+◌, ◌≤◌, ◌<◌, ◌≡◌, ◌≢◌, ◌↔◌, refl, sym, ◌∙◌, List, length, get_or, drop, update, inl,
  inr, arith,
}
use mathlib.Core.Path.{ap}
use unodb.Node.{Leaf}
use unodb.Node.KeyPrefix
use unodb.Node.KeyPrefix.{byte_at, make_u64, get_u64, get_shared_length, cut, IsPrefix}
use unodb.Node.KeyPrefix.Laws.{cut-IsPrefix, take-IsPrefix}
use unodb.Node.KeyPrefix.Make.{get_or-drop}
use unodb.Node.Pointer.{tag_of, type, ptr, tag_ptr, i4}
use unodb.Node.Sorted.Changed.{IsPair}
use unodb.Node.Inode4
use unodb.Node.Inode4.{Inode4, add_two_to_empty}
use unodb.Node.Inode4.Changes.{add_two_to_empty-Maps}
use unodb.Node.Split.{init_leaves, init_split}
use unodb.Node.Split.Laws.{init_split-IsPair}
use unodb.Node.Inode.{Inode, n4, get_key_prefix, set_key_prefix, type_of}
use unodb.Art.{Tree, leaf, inode, Slot, node_type}
use unodb.Art.Entries.{IsKey, Has, IsTree, Reaches, Held, key_size}
use unodb.Art.Entries.Keys.{make_u64-IsFork, shared_bytes, shared_other}
use unodb.Art.Entries.Put.{update-same, update-other}
use unodb.Art.Entries.Pair.{IsBelow, pair-Has, pair-Reaches, pair-IsTree}
use unodb.Art.Entries.Rebase.{
  inner_tag, rebase-Has, rebase-Reaches, rebase-IsTree, type_of-set_key_prefix,
}
use unodb.Art.Insert.{Allocation, ok, max_size, split_leaf, split_prefix}
use unodb.Art.Insert.Spec.{
  IsAllocation, IsNew, IsUnused, IsInserted, make_db_leaf_ptr-ok, leaf_address, tag_ptr-lem,
}

module _ (new : Allocation) (allocation : IsAllocation new) (k v : List ℕ) (key : IsKey k)
    (fits : length v ≤ max_size) (d node : ℕ) where
  -- The new node of four, over a tree and the new leaf.
  paired-IsInserted :
      (y : Inode4) (b : ℕ) (t old : Tree)
      → Inode4.IsValid y
      → IsPair b node (get_or k (d + KeyPrefix.length y.key_prefix) 0) new.leaf_ptr (Inode4.Maps y)
      → IsPrefix y.key_prefix
      → d + KeyPrefix.length y.key_prefix < key_size
      → IsBelow d y.key_prefix b node t
      → ((i : ℕ) → i < KeyPrefix.length y.key_prefix → get_or k (d + i) 0 ≡ byte_at y.key_prefix i)
      → ((k' v' : List ℕ) → Has t k' v' ↔ Has old k' v')
      → ((p : ℕ) → Reaches p t → Reaches p old)
      → IsUnused new node old
      → IsInserted new d old node k v (record {
        ptr = tag_ptr new.inode_ptr i4;
        tree = inode (n4 y) (update (λ p. t) new.leaf_ptr (leaf k v));
      })
  paired-IsInserted y b t old valid pair prefix short below prefixed same reached unused =
      let b2 = get_or k (d + KeyPrefix.length y.key_prefix) 0 in
      let sub = update (λ p. t) new.leaf_ptr (leaf k v) in
      let (leaf_tag, leaf_back) = leaf_address new.leaf_ptr allocation.leaf in
      let apart : new.leaf_ptr ≢ node =
        λ e. unused node (inl refl) (inl (ap ptr (sym e) ∙ leaf_back)) in
      let held : (p : ℕ) → Held p node t → Held p node old =
        λ p h. elim h [ inl e ↦ inl e | inr h' ↦ inr (reached p h') ] in
      let fresh : (p : ℕ) → Held p new.leaf_ptr (leaf k v) → IsNew new p =
        λ p h. elim h [ inl e ↦ inl (ap ptr e ∙ leaf_back) | inr no_child ↦ absurd no_child ] in
      let first = update-other (λ p. t) new.leaf_ptr node (leaf k v) apart in
      let second = update-same (λ p. t) new.leaf_ptr (leaf k v) in
      let (tag, pos, back) = tag_ptr-lem new.inode_ptr i4 allocation.inode in
      let below2 : IsBelow d y.key_prefix b2 new.leaf_ptr (leaf k v) = record {
        under = key;
        tag = leaf_tag;
        alone = λ h. h;
        follows = λ k' v' (e, _). rw e (prefixed, refl);
      } in
      record {
        tree =
            pair-IsTree (n4 y) sub d b node b2 new.leaf_ptr t (leaf k v) valid pair first second
              prefix short (λ p h h'. unused p (held p h) (fresh p h')) below below2;
        tag = tag;
        present = pos;
        alone = λ h.
            let root = tag_ptr new.inode_ptr i4 in
            elim (pair-Reaches (n4 y) sub d b node b2 new.leaf_ptr t (leaf k v) valid pair first
              second root h) [
                | inl g ↦ unused root (held root g) (inr back)
                | inr g ↦ elim g [
                  | inl e ↦ inner_tag (n4 y) (sym tag ∙ ap type e ∙ leaf_tag)
                  | inr no_child ↦ no_child
                ]
              ];
        held = λ p h. elim h [
          | inl e ↦ inr (inr (ap ptr e ∙ back))
          | inr h' ↦
              elim (pair-Reaches (n4 y) sub d b node b2 new.leaf_ptr t (leaf k v) valid pair first
                second p h') [ inl g ↦ inl (held p g) | inr g ↦ inr (fresh p g) ]
        ];
        entries = λ k' v'.
            let (to, from) =
              pair-Has (n4 y) sub d b node b2 new.leaf_ptr t (leaf k v) valid pair first second k'
                v' in
            (
              λ h. elim (to h) [ inl h' ↦ inr ((same k' v').0 h') | inr e ↦ inl e ],
              λ q. from (elim q [ inl e ↦ inr e | inr h' ↦ inl ((same k' v').1 h') ]),
            );
      }

  pub split_leaf-IsInserted :
      (existing value : List ℕ)
      → IsKey existing
      → existing ≢ k
      → ((i : ℕ) → i < d → get_or existing i 0 ≡ get_or k i 0)
      → type node ≡ tag_of (node_type (leaf existing value))
      → 0 < node
      → IsUnused new node (leaf existing value)
      → (s : Slot) × (split_leaf new k v node existing value (drop d k) d ≡ ok s)
        × IsInserted new d (leaf existing value) node k v s
  unfolding split_leaf init_leaves add_two_to_empty
  split_leaf-IsInserted existing value key' ne agree tag present unused =
      let fork = make_u64-IsFork existing k d key' key ne agree in
      let u = make_u64 existing (get_u64 (drop d k)) d in
      let l = KeyPrefix.length u in
      let y = init_leaves new.raw.for4 existing (drop d k) d node new.leaf_ptr in
      let made = make_db_leaf_ptr-ok new k v key fits in
      let this : Inode4 = record new.raw.for4 { key_prefix = u; children_count = 2 } in
      let swap : l + d ≡ d + l = omega arith in
      let at = get_or-drop d k l in
      let (valid, pair) =
        add_two_to_empty-Maps this (get_or existing (l + d) 0) node (get_or (drop d k) l 0)
          new.leaf_ptr refl (rw (swap, at) fork.differ) (key'.1 (l + d)) (rw at (key.1 (d + l)))
          present allocation.leaf.present in
      (
        _,
        rw made refl,
        paired-IsInserted y (get_or existing (d + l) 0) (leaf existing value) (leaf existing value)
            valid (rw (sym at) (rw (sym swap) pair)) fork.prefix fork.short
            (record {
              under = key';
              tag = tag;
              alone = λ h. h;
              follows = λ k' v' (e, _). rw e (fork.first, refl);
            })
            fork.second (λ k' v'. ((λ h. h), λ h. h)) (λ p h. h) unused,
      )

  pub split_prefix-IsInserted :
      (x : Inode) (sub : ℕ → Tree)
      → IsTree d (inode x sub)
      → type node ≡ tag_of (type_of x)
      → 0 < node
      → IsUnused new node (inode x sub)
      → ¬ Reaches node (inode x sub)
      → get_shared_length (get_key_prefix x) (get_u64 (drop d k))
        < KeyPrefix.length (get_key_prefix x)
      → (s : Slot) × (split_prefix new k v node x sub
            (get_shared_length (get_key_prefix x) (get_u64 (drop d k)))
            d
          ≡ ok s)
        × IsInserted new d (inode x sub) node k v s
  unfolding split_prefix init_split add_two_to_empty
  split_prefix-IsInserted x sub tree tag present unused alone less =
      let u = get_key_prefix x in
      let n = get_shared_length u (get_u64 (drop d k)) in
      let child : Leaf = record { address = new.leaf_ptr; key_view = k } in
      let made = make_db_leaf_ptr-ok new k v key fits in
      let y = (init_split new.raw.for4 node u n d child).0 in
      let u' = cut u (n + 1) in
      let (valid, pair, len, len') =
        init_split-IsPair new.raw.for4 node u n d child tree.0.prefix less (key.1 (d + n))
          (λ e. shared_other u d k tree.0.prefix key less (sym e)) present
          allocation.leaf.present in
      let (cut_valid, cut_len, cut_bytes) = cut-IsPrefix u (n + 1) tree.0.prefix (omega arith) in
      let (take_valid, take_len, take_bytes) = take-IsPrefix u n (omega (arith, tree.0.prefix.1)) in
      let bytes : (k' v' : List ℕ)
          → Has (inode x sub) k' v'
          → (i : ℕ) → i < KeyPrefix.length u
          → get_or k' (d + i) 0 ≡ byte_at u i =
        λ k' v' (b, c, m, h). let (_, _, follows) = tree.1 b c m in (follows k' v' h).0 in
      let moved =
        rebase-IsTree x sub d (suc (d + n)) u' tree cut_valid (omega (arith, less))
          (λ k' v' h i small.
            let e : suc (d + n) + i ≡ d + (n + 1 + i) = omega arith in
            ap (λ j. get_or k' j 0) e
            ∙ bytes k' v' h (n + 1 + i) (omega arith)
            ∙ sym (cut_bytes i (omega arith))) in
      let same = rebase-Has x sub d (suc (d + n)) u' tree in
      (
        _,
        rw made refl,
        paired-IsInserted y (byte_at u n) (inode (set_key_prefix x u') sub) (inode x sub) valid
            (rw len pair) take_valid (omega (arith, tree.0.short, take_len))
            (record {
              under = rw take_len moved;
              tag = tag ∙ sym (ap tag_of (type_of-set_key_prefix x u'));
              alone = λ h. alone (rebase-Reaches x sub d (suc (d + n)) u' tree node h);
              follows = λ k' v' h. (
                λ i small.
                    bytes k' v' ((same k' v').0 h) i (omega (arith, take_len))
                    ∙ sym (take_bytes i (omega (arith, take_len))),
                rw take_len (bytes k' v' ((same k' v').0 h) n less),
              );
            })
            (λ i small.
              shared_bytes u d k tree.0.prefix key i (omega (arith, take_len))
              ∙ sym (take_bytes i (omega (arith, take_len))))
            same (rebase-Reaches x sub d (suc (d + n)) u' tree) unused,
      )
