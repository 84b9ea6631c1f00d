-- ===== src/Art/Remove/Root.antt =====
-- `remove_internal` takes the key out of the database, or leaves it as it is.
use unodb.Base.{
  ℕ, ◌≡◌, ◌≢◌, ◌↔◌, ◌⊎◌, refl, sym, ◌∙◌, List, inl, inr, true, false, Bool, Bool-cases, Option,
  none, some, some_inj,
}
use mathlib.Core.Path.{subst}
use unodb.Node.Inode.{Inode}
use unodb.Art.{Tree, leaf, inode, Slot, Db, matches}
use unodb.Art.Entries.{IsRoot, IsKey, Has, IsDb, Stores, Held, HeldIn}
use unodb.Art.Entries.Keys.{matches_iff}
use unodb.Art.Insert.{Allocation, Outcome, ok}
use unodb.Art.Insert.Spec.{IsAddress}
use unodb.Art.Remove.{remove_from, remove_internal}
use unodb.Art.Remove.Spec.{IsNew, IsUnused, Removed, absent, removed}
use unodb.Art.Remove.Laws.{remove_from-Removed}

-- The database without the key. Its pointers are old ones or lead to the new node.
pub record HasRemoved (new : Allocation) (db : Db) (k : List ℕ) (db' : Db) : Type 0 where
  pub valid : IsDb db'
  pub entries : (k' v' : List ℕ) → Stores db' k' v' ↔ ((k' ≢ k) × Stores db k' v')
  pub held : (p : ℕ) → HeldIn p db' → HeldIn p db ⊎ IsNew new p

-- The address is not in use in the database.
abbrev pub IsUnusedIn : Allocation → Db → Type 0
IsUnusedIn new db = (s : Slot) → db.root ≡ some s → IsUnused new s.ptr s.tree

-- What `remove_internal` ends with: no change, or one entry less.
abbrev pub RemoveOutcome : Allocation → Db → List ℕ → Outcome (Db × Bool) → Type 0
RemoveOutcome new db k o =
    (((w : List ℕ) → ¬ Stores db k w) × (o ≡ ok (db, false)))
    ⊎ ((w : List ℕ) × Stores db k w × (db' : Db) × (o ≡ ok (db', true)) × HasRemoved new db k db')

module _ (new : Allocation) (k : List ℕ) (address : IsAddress new.inode_ptr) (key : IsKey k) where
  leaf_outcome :
      (ptr : ℕ) (key' value : List ℕ)
      → RemoveOutcome new
          (record { root = some (record { ptr = ptr; tree = leaf key' value }) })
          k
          (remove_internal new
            (record { root = some (record { ptr = ptr; tree = leaf key' value }) })
            k)
  unfolding remove_internal
  leaf_outcome ptr key' value = elim (Bool-cases (matches key' k)) [
    | inl e ↦
        let here = (matches_iff key' k).0 e in
        inr (
          value,
          (_, refl, (here, refl)),
          record { root = none },
          rw (remove_internal, e) refl,
          record {
            valid = λ s q. cc;
            entries = λ k' v'. (
              λ (s, q, h). cc,
              λ (ne, (s, q, h)).
                  absurd (ne ((subst (λ z. Has z.tree k' v') (sym (some_inj q)) h).0 ∙ sym here)),
            );
            held = λ p (s, q, h). cc;
          },
        )
    | inr e ↦ inl (
      λ w (s, q, h).
          let f = (matches_iff key' k).1 (subst (λ z. Has z.tree k w) (sym (some_inj q)) h).0 in cc,
      rw (remove_internal, e) refl,
    )
  ]

  module _ (ptr : ℕ) (x : Inode) (sub : ℕ → Tree) where
    abbrev here : Slot
    here = record { ptr = ptr; tree = inode x sub }

    inode_outcome :
        (o : Outcome (Option Slot))
        → remove_from new k ptr (inode x sub) k ≡ o
        → Removed new 0 (inode x sub) ptr k o
        → RemoveOutcome new
            (record { root = some here })
            k
            (remove_internal new (record { root = some here }) k)
    unfolding remove_internal
    inode_outcome o same (absent nowhere ended) = inl (
      λ w (s, q, h). nowhere w (subst (λ z. Has z.tree k w) (sym (some_inj q)) h),
      rw (remove_internal, same, ended) refl,
    )
    inode_outcome o same (removed s w h g ended) = inr (
      w,
      (here, refl, h),
      record { root = some s },
      rw (remove_internal, same, ended) refl,
      record {
        valid = λ z q. subst IsRoot (some_inj q) (g.tree, g.tag, g.present, g.alone);
        entries = λ k' v'. (
          λ (z, q, h').
              let (ne, old) =
                (g.entries k' v').0 (subst (λ a. Has a.tree k' v') (sym (some_inj q)) h') in
              (ne, (here, refl, old)),
          λ (ne, (z, q, h')). (
            s,
            refl,
            (g.entries k' v').1 (ne, subst (λ a. Has a.tree k' v') (sym (some_inj q)) h'),
          ),
        );
        held = λ p (z, q, h').
            elim (g.held p (subst (λ a. Held p a.ptr a.tree) (sym (some_inj q)) h')) [
              | inl old ↦ inl (here, refl, old)
              | inr fresh ↦ inr fresh
            ];
      },
    )

  some_outcome :
      (ptr : ℕ) (t : Tree)
      → IsDb (record { root = some (record { ptr = ptr; tree = t }) })
      → IsUnused new ptr t
      → RemoveOutcome new
          (record { root = some (record { ptr = ptr; tree = t }) })
          k
          (remove_internal new (record { root = some (record { ptr = ptr; tree = t }) }) k)
  some_outcome ptr (leaf key' value) w unused = leaf_outcome ptr key' value
  some_outcome ptr (inode x sub) w unused =
      let (tree, tag, present, alone) = w (record { ptr = ptr; tree = inode x sub }) refl in
      inode_outcome ptr x sub _ refl
        (remove_from-Removed new address k key x sub ptr 0 tree tag present unused alone)

  root_outcome :
      (o : Option Slot)
      → IsDb (record { root = o })
      → IsUnusedIn new (record { root = o })
      → RemoveOutcome new (record { root = o }) k (remove_internal new (record { root = o }) k)
  unfolding remove_internal
  root_outcome none w unused = inl (λ v (s, q, h). cc, refl)
  root_outcome (some s) w unused = some_outcome s.ptr s.tree w (unused s refl)

  pub remove_internal-Removed :
      (db : Db) → IsDb db → IsUnusedIn new db → RemoveOutcome new db k (remove_internal new db k)
  remove_internal-Removed db w unused = root_outcome db.root w unused
