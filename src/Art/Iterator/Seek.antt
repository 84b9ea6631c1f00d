-- ===== src/Art/Iterator/Seek.antt =====
-- `seek` of a key that is there.
use unodb.Base.{
  ℕ, suc, ◌+◌, ◌≡◌, refl, sym, ◌∙◌, List, get_or, drop, Option, some, Bool, true, false, ltb,
  ltb→lt,
}
use mathlib.Core.Path.{ap, subst}
use unodb.Node.{IterResult}
use unodb.Node.KeyPrefix
use unodb.Node.KeyPrefix.{get_u64, get_shared_length}
use unodb.Node.Inode.{Inode, get_key_prefix, find_child, Maps}
use unodb.Node.Inode.Reads.{Maps_unique}
use unodb.Art.{Tree, leaf, inode, Slot, Db, get_internal}
use unodb.Art.Entries.{IsKey, Has, IsTree, IsDb}
use unodb.Art.Entries.Keys.{compare_keys-eq, Follows-shared}
use unodb.Art.Get.{missing, child, leaves, goes, step, get_internal_iff}
use unodb.Art.Iterator.{Iterator, push, push_leaf, seek_from, seek, end_iterator}
use unodb.Art.Iterator.Path.{Leads, IsOnEntry}
use unodb.Art.Iterator.Laws.{IsOn}

module _ (r : Tree) (fwd : Bool) (k v : List ℕ) (key : IsKey k) where
  -- The result is a match, on the entry.
  abbrev IsMatch : Option (Iterator × Bool) → Type 0
  IsMatch o = (it : Iterator) × (o ≡ some (it, true)) × IsOnEntry r it.stack k v

  seek_from-goes :
      (x : Inode) (sub : ℕ → Tree) (d node i c : ℕ) (it : Iterator)
      → ltb
          (get_shared_length (get_key_prefix x) (get_u64 (drop d k)))
          (KeyPrefix.length (get_key_prefix x))
        ≡ false
      → get_or (drop (KeyPrefix.length (get_key_prefix x)) (drop d k)) 0 0
        ≡ get_or k (d + KeyPrefix.length (get_key_prefix x)) 0
      → drop 1 (drop (KeyPrefix.length (get_key_prefix x)) (drop d k))
        ≡ drop (suc (d + KeyPrefix.length (get_key_prefix x))) k
      → find_child x (get_or k (d + KeyPrefix.length (get_key_prefix x)) 0) ≡ some (i, c)
      → seek_from fwd k (inode x sub) node (drop d k) it
        ≡ seek_from fwd k (sub c) c (drop (suc (d + KeyPrefix.length (get_key_prefix x))) k) (
            push it node (inode x sub) (record {
              key_byte = get_or k (d + KeyPrefix.length (get_key_prefix x)) 0;
              child_index = i;
              prefix = get_key_prefix x;
            }))
  unfolding seek_from
  seek_from-goes x sub d node i c it e at next f =
      let f' = ap (find_child x) at ∙ f in rw (seek_from, e, f', next) (rw at refl)

  seek_from-IsMatch :
      (t : Tree) (d node : ℕ) (it : Iterator)
      → IsTree d t
      → Has t k v
      → Leads r it.stack d t
      → IsMatch (seek_from fwd k t node (drop d k) it)
  unfolding seek_from
  seek_from-IsMatch (leaf key' value) d node it tree (same, same') leads = (
    push_leaf it node (leaf key' value),
    rw (seek_from, (compare_keys-eq k key').1 same) refl,
    (d, rw (same, same') refl, rw (same, same') leads),
  )
  seek_from-IsMatch (inode x sub) d node it tree (b, c', m', h) leads =
      let (_, _, follows) = tree.1 b c' m' in
      let l = KeyPrefix.length (get_key_prefix x) in
      elim (step d x k tree.0 key) [
        | leaves e ↦ absurd (
            Follows-shared (get_key_prefix x) d k tree.0.prefix key b (follows k v h)
              (ltb→lt _ _ e))
        | goes e at next (missing f free) ↦
            absurd (free c' (subst (λ a. Maps x a c') (sym (follows k v h).1) m'))
        | goes e at next (child i c f on m) ↦
            let (under, _, _) = tree.1 (get_or k (d + l) 0) c m in
            let here =
              subst (λ p. Has (sub p) k v)
                (Maps_unique x (get_or k (d + l) 0) c' c tree.0.valid
                  (subst (λ a. Maps x a c') (sym (follows k v h).1) m') m)
                h in
            let e2 : IterResult = record {
              key_byte = get_or k (d + l) 0;
              child_index = i;
              prefix = get_key_prefix x;
            } in
            subst IsMatch (sym (seek_from-goes x sub d node i c it e at next f)) (
              seek_from-IsMatch (sub c) (suc (d + l)) c (push it node (inode x sub) e2) under here
                (x, sub, c, d, refl, on, m, refl, refl, leads))
      ]

  seek_run :
      (db : Db) (s : Slot) (o : Option (Iterator × Bool))
      → db.root ≡ some s
      → seek_from fwd k s.tree s.ptr k end_iterator ≡ o
      → seek fwd k db ≡ o
  unfolding seek
  seek_run db s o is e = rw (seek, is) e

-- In a well-formed database, seek of a key that has a value ends, in both directions, on the entry
-- of this key, and reports a match.
pub seek-IsOn :
    (db : Db) (fwd : Bool) (k v : List ℕ)
    → IsDb db
    → IsKey k
    → get_internal db k ≡ some v
    → (it : Iterator) × (seek fwd k db ≡ some (it, true)) × IsOn db it k v
seek-IsOn db fwd k v valid key got =
    let (s, is, has) = (get_internal_iff db k v valid key).0 got in
    let (it, run, on) =
      seek_from-IsMatch s.tree fwd k v key s.tree 0 s.ptr end_iterator (valid s is).0 has
        (refl, refl) in
    (it, seek_run s.tree fwd k v key db s _ is run, (s, is, on))
