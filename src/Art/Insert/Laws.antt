-- ===== src/Art/Insert/Laws.antt =====
-- `insert_internal` adds the key and the value, or leaves the tree with a key that is there already.
use unodb.Base.{
  ℕ, suc, ◌+◌, ◌≤◌, ◌<◌, ◌≡◌, ◌↔◌, ◌⊎◌, refl, sym, ◌∙◌, List, length, get_or, drop, inl, inr, true,
  false, Bool, Option, none, some, some_inj, arith,
}
use mathlib.Core.Path.{ap, subst}
use unodb.Node.KeyPrefix
use unodb.Node.Pointer.{tag_of, type, ptr}
use unodb.Node.Inode.{get_key_prefix}
use unodb.Node.Inode.Reads.{Maps-pos}
use unodb.Art.{Tree, leaf, inode, Slot, Db, node_type}
use unodb.Art.Entries.{Reaches, IsRoot, IsKey, Has, IsTree, IsDb, Stores, Held, HeldIn}
use unodb.Art.Get.{missing, child, leaves, goes, step}
use unodb.Art.Insert.{Allocation, Outcome, ok, max_size, insert_from, insert_internal}
use unodb.Art.Insert.Spec.{
  IsAllocation, IsNew, IsUnused, Inserted, exists, added, make_db_leaf_ptr-ok, leaf_address,
}
use unodb.Art.Insert.Descent.{
  Agrees, insert_from-leaf, insert_from-leaves, insert_from-missing, insert_from-below,
  below-Agrees,
}

pub insert_from-Inserted :
    (new : Allocation) (allocation : IsAllocation new) (k v : List ℕ) (key : IsKey k)
    (fits : length v ≤ max_size) (t : Tree) (node d : ℕ)
    → IsTree d t
    → type node ≡ tag_of (node_type t)
    → 0 < node
    → IsUnused new node t
    → ¬ Reaches node t
    → Agrees new allocation k v key fits d t
    → Inserted new d t node k v (insert_from new k v node t (drop d k) d)
insert_from-Inserted new a k v key fits (leaf existing value) node d tree tag present unused alone
      agree =
    insert_from-leaf new a k v key fits node d existing value tree tag present unused agree
insert_from-Inserted new a k v key fits (inode x sub) node d tree tag present unused alone agree =
    let l = KeyPrefix.length (get_key_prefix x) in
    elim (step d x k tree.0 key) [
      | leaves e ↦
          insert_from-leaves new a k v key fits x sub node d tree tag present unused alone agree e
      | goes e at next (missing f free) ↦
          insert_from-missing new a k v key fits x sub node d tree tag present unused alone agree e
            at next f free
      | goes e at next (child i c f on m) ↦
          let (under, tag', follows) = tree.1 (get_or k (d + l) 0) c m in
          insert_from-below new a k v key fits x sub node d tree tag present unused alone agree e at
            next i c f on m _ refl
            (insert_from-Inserted new a k v key fits (sub c) c (suc (d + l)) under tag'
              (Maps-pos x (get_or k (d + l) 0) c tree.0.valid m)
              (λ p h. unused p (inr (get_or k (d + l) 0, c, m, h)))
              (tree.2.apart (get_or k (d + l) 0) c m)
              (below-Agrees new a k v key fits x sub node d tree tag present unused alone agree e at
                next i c f on m))
    ]

-- The database with one more entry. Its pointers are old ones or lead to the new nodes.
pub record HasInserted (new : Allocation) (db : Db) (k v : List ℕ) (db' : Db) : Type 0 where
  pub valid : IsDb db'
  pub entries : (k' v' : List ℕ) → Stores db' k' v' ↔ (((k' ≡ k) × (v' ≡ v)) ⊎ Stores db k' v')
  pub held : (p : ℕ) → HeldIn p db' → HeldIn p db ⊎ IsNew new p

-- The addresses are not in use in the database.
abbrev pub IsUnusedIn : Allocation → Db → Type 0
IsUnusedIn new db = (s : Slot) → db.root ≡ some s → IsUnused new s.ptr s.tree

-- What `insert_internal` ends with: no change, or a new entry.
abbrev pub InsertOutcome : Allocation → Db → List ℕ → List ℕ → Outcome (Db × Bool) → Type 0
InsertOutcome new db k v o =
    ((w : List ℕ) × Stores db k w × (o ≡ ok (db, false)))
    ⊎ (((w : List ℕ) → ¬ Stores db k w)
        × (db' : Db) × (o ≡ ok (db', true))
        × HasInserted new db k v db')

module _ (new : Allocation) (k v : List ℕ) (allocation : IsAllocation new) (key : IsKey k)
    (fits : length v ≤ max_size) where
  root_outcome :
      (s : Slot) (o : Outcome (Option Slot))
      → IsDb (record { root = some s })
      → insert_from new k v s.ptr s.tree k 0 ≡ o
      → Inserted new 0 s.tree s.ptr k v o
      → InsertOutcome new
          (record { root = some s })
          k
          v
          (insert_internal new (record { root = some s }) k v)
  unfolding insert_internal
  root_outcome s o w same (exists u h ended) = inl (u, (s, refl, h), rw (same, ended) refl)
  root_outcome s o w same (added s' fresh g ended) = inr (
    λ u (z, e, h). fresh u (subst (λ q. Has q.tree k u) (sym (some_inj e)) h),
    record { root = some s' },
    rw (same, ended) refl,
    record {
      valid = λ z e. subst IsRoot (some_inj e) (g.tree, g.tag, g.present, g.alone);
      entries = λ k' v'. (
        λ (z, e, h).
            elim ((g.entries k' v').0 (subst (λ q. Has q.tree k' v') (sym (some_inj e)) h)) [
              | inl q ↦ inl q
              | inr old ↦ inr (s, refl, old)
            ],
        λ q. (
          s',
          refl,
          (g.entries k' v').1 (elim q [
            | inl q' ↦ inl q'
            | inr (z, e, h) ↦ inr (subst (λ q. Has q.tree k' v') (sym (some_inj e)) h)
          ]),
        ),
      );
      held = λ p (z, e, h).
          elim (g.held p (subst (λ q. Held p q.ptr q.tree) (sym (some_inj e)) h)) [
            | inl old ↦ inl (s, refl, old)
            | inr fresh ↦ inr fresh
          ];
    },
  )

  root_cases :
      (o : Option Slot)
      → IsDb (record { root = o })
      → IsUnusedIn new (record { root = o })
      → InsertOutcome new (record { root = o }) k v (insert_internal new (record { root = o }) k v)
  unfolding insert_internal
  root_cases none w unused =
      let s : Slot = record { ptr = new.leaf_ptr; tree = leaf k v } in
      inr (
        λ u (z, e, h). cc,
        record { root = some s },
        rw (make_db_leaf_ptr-ok new k v key fits) refl,
        record {
          valid = λ z e.
              subst IsRoot (some_inj e) (
                key,
                (leaf_address new.leaf_ptr allocation.leaf).0,
                allocation.leaf.present,
                λ h. h,
              );
          entries = λ k' v'. (
            λ (z, e, h). inl (subst (λ q. Has q.tree k' v') (sym (some_inj e)) h),
            λ q. elim q [ inl q' ↦ (s, refl, q') | inr (z, e, h) ↦ cc ],
          );
          held = λ p (z, e, h). elim (subst (λ q. Held p q.ptr q.tree) (sym (some_inj e)) h) [
            | inl same ↦ inr (inl (ap ptr same ∙ (leaf_address new.leaf_ptr allocation.leaf).1))
            | inr no_child ↦ absurd no_child
          ];
        },
      )
  root_cases (some s) w unused =
      let (tree, tag, present, alone) = w s refl in
      root_outcome s _ w refl (
        insert_from-Inserted new allocation k v key fits s.tree s.ptr 0 tree tag present
          (unused s refl) alone (λ k' v' h i small. absurd (omega arith)))

  pub insert_internal-Inserted :
      (db : Db)
      → IsDb db
      → IsUnusedIn new db
      → InsertOutcome new db k v (insert_internal new db k v)
  insert_internal-Inserted db w unused = root_cases db.root w unused
