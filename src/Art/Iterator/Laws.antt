-- ===== src/Art/Iterator/Laws.antt =====
-- `first`, `last`, `next` and `prior` against the order of the keys that are stored.
use unodb.Base.{
  ℕ, ◌≡◌, ◌≢◌, ◌⊎◌, refl, sym, ◌∙◌, List, [], ◌∷◌, Option, none, some, some_inj, inl, inr, arith,
}
use mathlib.Core.Path.{subst}
use unodb.Node.KeyPrefix
use unodb.Art.{Tree, leaf, Slot, Db}
use unodb.Art.Entries.{Has, IsTree, IsDb, Stores}
use unodb.Art.Iterator.{
  Iterator, StackEntry, end_iterator, traversal, advance, keybuf_pop, first, last, next, prior,
  current, from_root,
}
use unodb.Art.Iterator.Direction.{Direction, forward, backward}
use unodb.Art.Iterator.Path.{IsOnEntry, IsAhead}
use unodb.Art.Iterator.Walk.{IsNext, traversal-IsFirst, advance-IsNext}

-- The iterator's stack is a path from the root to the leaf with the entry.
abbrev pub IsOn : Db → Iterator → List ℕ → List ℕ → Type 0
IsOn db it k v = (s : Slot) × (db.root ≡ some s) × IsOnEntry s.tree it.stack k v

module _ (D : Direction) where
  -- The result is on the first stored entry, or at the end where nothing is stored.
  abbrev pub IsEnd : Db → Option Iterator → Type 0
  IsEnd db o =
      ((o ≡ some end_iterator) × ((k v : List ℕ) → ¬ Stores db k v))
      ⊎ ((it : Iterator) × (k : List ℕ) × (v : List ℕ) × (o ≡ some it)
          × IsOn db it k v
          × Stores db k v
          × ((k' v' : List ℕ) → Stores db k' v' → k ≢ k' → D.Key k k'))

  -- The result is on the first stored entry ahead of the key, or at the end where there is none.
  abbrev pub IsNeighbour : Db → List ℕ → Option Iterator → Type 0
  IsNeighbour db k o =
      ((it : Iterator) × (o ≡ some it)
        × (it.stack ≡ [])
        × ((k' v' : List ℕ) → Stores db k' v' → ¬ D.Key k k'))
      ⊎ ((it : Iterator) × (k1 : List ℕ) × (v1 : List ℕ) × (o ≡ some it)
          × IsOn db it k1 v1
          × Stores db k1 v1
          × D.Key k k1
          × ((k' v' : List ℕ) → Stores db k' v' → D.Key k k' → k1 ≢ k' → D.Key k1 k'))

  root-IsEnd :
      (o : Option Slot)
      → IsDb (record { root = o })
      → IsEnd (record { root = o }) (from_root (traversal D.first) (record { root = o }))
  root-IsEnd none valid = inl (refl, λ k v (s, e, h). cc)
  root-IsEnd (some s) valid =
      let (tree, _, _, _) = valid s refl in
      let (it, k, v, run, at, has, least) =
        traversal-IsFirst D s.tree s.tree 0 s.ptr end_iterator tree
          (λ k v k' v' h h' j small. absurd (omega arith)) (refl, refl) in
      inr (
        it,
        k,
        v,
        run,
        (s, refl, at),
        (s, refl, has),
        λ k' v' (z, e, h) ne. least k' v' (subst (λ q. Has q.tree k' v') (sym (some_inj e)) h) ne,
      )

  pub from_root-IsEnd : (db : Db) → IsDb db → IsEnd db (from_root (traversal D.first) db)
  from_root-IsEnd db valid = root-IsEnd db.root valid

  -- A step from the leaf on the top of a stack pops it first.
  stack-IsNext :
      (r : Tree) (root : IsTree 0 r) (stack : List StackEntry) (buf k v : List ℕ)
      → IsOnEntry r stack k v
      → IsNext D r root (leaf k v) (advance D.first D.step stack buf)
  unfolding advance
  stack-IsNext r root [] buf k v on = absurd on
  stack-IsNext r root (e ∷ stack) buf k v (d, is, leads) =
      subst (IsNext D r root (leaf k v)) (sym (rw (advance, is) refl)) (
        advance-IsNext D r root stack d (leaf k v) (keybuf_pop buf (KeyPrefix.length e.prefix))
          leads)

  root-IsNeighbour :
      (db : Db) (s : Slot) (it : Iterator) (k v : List ℕ)
      → IsDb db
      → db.root ≡ some s
      → IsOnEntry s.tree it.stack k v
      → IsNeighbour db k (advance D.first D.step it.stack it.keybuf)
  root-IsNeighbour db s it k v valid is on =
      let (tree, _, _, _) = valid s is in
      let inside : (k' v' : List ℕ) → Stores db k' v' → Has s.tree k' v' =
        λ k' v' (z, e, h). subst (λ q. Has q.tree k' v') (some_inj (sym e ∙ is)) h in
      let whole : (k' : List ℕ) → D.Key k k' → IsAhead D s.tree tree (leaf k v) k' =
        λ k' h a a' (e, _). subst (λ q. D.Key q k') (sym e) h in
      elim (stack-IsNext s.tree tree it.stack it.keybuf k v on) [
        | inl (it', e, empty, nothing) ↦
            inl (it', e, empty, λ k' v' h less. nothing k' v' (inside k' v' h) (whole k' less))
        | inr (it', k1, v1, e, at, has, ahead, least) ↦ inr (
          it',
          k1,
          v1,
          e,
          (s, is, at),
          (s, is, has),
          ahead k v (refl, refl),
          λ k' v' h less ne. least k' v' (inside k' v' h) (whole k' less) ne,
        )
      ]

  pub advance-IsNeighbour :
      (db : Db) (it : Iterator) (k v : List ℕ)
      → IsDb db
      → IsOn db it k v
      → IsNeighbour db k (advance D.first D.step it.stack it.keybuf)
  advance-IsNeighbour db it k v valid (s, is, on) = root-IsNeighbour db s it k v valid is on

-- An iterator on an entry gives its key and value.
stack_current :
    (r : Tree) (stack : List StackEntry) (buf k v : List ℕ)
    → IsOnEntry r stack k v
    → current (record { stack = stack; keybuf = buf }) ≡ some (k, v)
unfolding current
stack_current r [] buf k v on = absurd on
stack_current r (e ∷ stack) buf k v (d, is, leads) = rw (current, is) refl

pub current-IsOn :
    (db : Db) (it : Iterator) (k v : List ℕ) → IsOn db it k v → current it ≡ some (k, v)
current-IsOn db it k v (s, is, on) = stack_current s.tree it.stack it.keybuf k v on

-- In a well-formed database, first is on the entry with the least key and last on that with the
-- greatest, and both give the end iterator where the database has no entry.
pub first_last_lem : (db : Db) → IsDb db → IsEnd forward db (first db) × IsEnd backward db (last db)
first_last_lem db valid = (from_root-IsEnd forward db valid, from_root-IsEnd backward db valid)

-- From an entry of a well-formed database, next comes to the entry with the least greater key and
-- prior to that with the greatest lesser key, and each gives an empty stack where there is no such
-- entry.
pub next_prior_lem :
    (db : Db) (it : Iterator) (k v : List ℕ)
    → IsDb db
    → IsOn db it k v
    → IsNeighbour forward db k (next it) × IsNeighbour backward db k (prior it)
next_prior_lem db it k v valid on = (
  advance-IsNeighbour forward db it k v valid on,
  advance-IsNeighbour backward db it k v valid on,
)
