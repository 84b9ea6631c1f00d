-- ===== src/Art/Iterator/Walk.antt =====
-- The traversal to an end of a tree, and the step to the neighbouring entry.
use unodb.Base.{ℕ, suc, ◌+◌, ◌≡◌, ◌≢◌, ◌⊎◌, refl, sym, List, [], ◌∷◌, Option, some, inl, inr}
use mathlib.Core.Path.{subst}
use native.Mathlib.Decide.{ℕ_discrete}
use unodb.Node.KeyPrefix
use unodb.Node.Inode.{Inode, get_key_prefix, get_child, Maps}
use unodb.Node.Inode.Reads.{get_child-Maps, Maps_unique, Maps-lt}
use unodb.Art.{Tree, leaf, inode}
use unodb.Art.Entries.{Has, IsTree}
use unodb.Art.Entries.Inhabited.{inhabited}
use unodb.Art.Iterator.{StackEntry, Iterator, traversal, advance, push, push_leaf, keybuf_pop}
use unodb.Art.Iterator.Direction.{Direction}
use unodb.Art.Iterator.Path.{
  Leads, IsOnEntry, IsAlike, child-IsAlike, children-ahead, IsAhead, Leads-IsTree, position,
}

module _ (D : Direction) (r : Tree) where
  -- An iterator on the first entry of a tree.
  abbrev pub IsFirst : Tree → Option Iterator → Type 0
  IsFirst t o =
      (it : Iterator) × (k : List ℕ) × (v : List ℕ) × (o ≡ some it)
      × IsOnEntry r it.stack k v
      × Has t k v
      × ((k' v' : List ℕ) → Has t k' v' → k ≢ k' → D.Key k k')

  pub traversal-IsFirst :
      (t : Tree) (d node : ℕ) (it : Iterator)
      → IsTree d t
      → IsAlike d t
      → Leads r it.stack d t
      → IsFirst t (traversal D.first t node it)
  unfolding traversal
  traversal-IsFirst (leaf key value) d node it tree alike leads = (
    push_leaf it node (leaf key value),
    key,
    value,
    refl,
    (d, refl, leads),
    (refl, refl),
    λ k' v' (e, _) ne. absurd (ne (sym e)),
  )
  traversal-IsFirst (inode x sub) d node it tree alike leads =
      let (e, c, got, (on, m), least) = D.first_child x tree.0.valid in
      let child : get_child x e.child_index ≡ c =
        get_child-Maps x e.child_index e.key_byte c tree.0.valid on m in
      let (under, _, _) = tree.1 e.key_byte c m in
      let leads' : Leads r (push it node (inode x sub) e).stack
          (suc (d + KeyPrefix.length (get_key_prefix x))) (sub c) =
        (x, sub, c, d, refl, on, m, refl, refl, leads) in
      let (it', k, v, run, at, has, first) =
        traversal-IsFirst (sub c) (suc (d + KeyPrefix.length (get_key_prefix x))) c
          (push it node (inode x sub) e) under (child-IsAlike x sub d e.key_byte c tree alike m)
          leads' in
      (
        it',
        k,
        v,
        rw (traversal, got, child) run,
        at,
        (e.key_byte, c, m, has),
        λ k' v' (b', c', m', h') ne. elim (ℕ_discrete e.key_byte b') [
          | yes same ↦
              first k' v'
                (subst (λ p. Has (sub p) k' v')
                  (Maps_unique x e.key_byte c' c tree.0.valid
                    (subst (λ a. Maps x a c') (sym same) m') m)
                  h')
                ne
          | no other ↦
              children-ahead x sub d e.key_byte c tree alike m D b' c' k v k' v' m' has h'
                (least b' c' m' other)
        ],
      )

module _ (D : Direction) (r : Tree) (root : IsTree 0 r) where
  -- An iterator on the first entry ahead of a tree, or at the end where there is none.
  abbrev pub IsNext : Tree → Option Iterator → Type 0
  IsNext t o =
      ((it : Iterator) × (o ≡ some it)
        × (it.stack ≡ [])
        × ((k' v' : List ℕ) → Has r k' v' → ¬ IsAhead D r root t k'))
      ⊎ ((it : Iterator) × (k : List ℕ) × (v : List ℕ) × (o ≡ some it)
          × IsOnEntry r it.stack k v
          × Has r k v
          × IsAhead D r root t k
          × ((k' v' : List ℕ) → Has r k' v' → IsAhead D r root t k' → k ≢ k' → D.Key k k'))

  module _ (x : Inode) (sub : ℕ → Tree) (d b c : ℕ) (stack : List StackEntry)
      (leads : Leads r stack d (inode x sub)) (m : Maps x b c) where
    abbrev tree : IsTree d (inode x sub)
    tree = (Leads-IsTree D r root stack d (inode x sub) leads).0

    abbrev alike : IsAlike d (inode x sub)
    alike = (Leads-IsTree D r root stack d (inode x sub) leads).1

    -- A key ahead of a child is below a later byte or ahead of the node.
    IsAhead-cases :
        (k' v' : List ℕ)
        → Has r k' v'
        → IsAhead D r root (sub c) k'
        → ((b' : ℕ) × (c' : ℕ) × Maps x b' c' × Has (sub c') k' v' × D.Byte b b')
          ⊎ IsAhead D r root (inode x sub) k'
    IsAhead-cases k' v' h ahead =
        let (k0, v0, h0) = inhabited (sub c) _ (tree.1 b c m).0 in
        elim (position D r root stack d (inode x sub) leads k' v' h) [
          | inl (b', c', m', h') ↦ elim (ℕ_discrete b b') [
            | yes same ↦ absurd (
                D.irrefl (
                  ahead k' v' (
                    subst (λ p. Has (sub p) k' v')
                      (Maps_unique x b c' c tree.0.valid (subst (λ a. Maps x a c') (sym same) m') m)
                      h')))
            | no ne ↦ elim (D.either b b' ne) [
              | inl hi ↦ inl (b', c', m', h', hi)
              | inr lo ↦ absurd (
                  D.irrefl (
                    D.trans
                      (children-ahead x sub d b' c' tree alike m' D b c k' v' k0 v0 m h' h0 lo)
                      (ahead k0 v0 h0)))
            ]
          ]
          | inr (inl behind) ↦
              absurd (D.irrefl (D.trans (behind k0 v0 (b, c, m, h0)) (ahead k0 v0 h0)))
          | inr (inr all) ↦ inr all
        ]

    -- Where no byte is later, what is ahead of the node is ahead of the child.
    outer-IsNext :
        (o : Option Iterator)
        → ((b' c' : ℕ) → Maps x b' c' → ¬ D.Byte b b')
        → IsNext (inode x sub) o
        → IsNext (sub c) o
    outer-IsNext o nothing (inl (it, e, empty, last)) = inl (
      it,
      e,
      empty,
      λ k' v' h ahead. elim (IsAhead-cases k' v' h ahead) [
        | inl (b', c', m', h', less) ↦ nothing b' c' m' less
        | inr all ↦ last k' v' h all
      ],
    )
    outer-IsNext o nothing (inr (it, k, v, e, at, has, ahead, least)) = inr (
      it,
      k,
      v,
      e,
      at,
      has,
      (λ a a' h. ahead a a' (b, c, m, h)),
      λ k' v' h ahead' ne. elim (IsAhead-cases k' v' h ahead') [
        | inl (b', c', m', h', less) ↦ absurd (nothing b' c' m' less)
        | inr all ↦ least k' v' h all ne
      ],
    )

    -- The first entry below the next byte is the next one.
    sibling-IsNext :
        (o : Option Iterator) (b2 c2 : ℕ)
        → Maps x b2 c2
        → D.Byte b b2
        → ((b' c' : ℕ) → Maps x b' c' → D.Byte b b' → b2 ≢ b' → D.Byte b2 b')
        → IsFirst D r (sub c2) o
        → IsNext (sub c) o
    sibling-IsNext o b2 c2 m2 less least (it, k, v, e, at, has, first) =
        let (_, _, part) = Leads-IsTree D r root stack d (inode x sub) leads in
        inr (
          it,
          k,
          v,
          e,
          at,
          part k v (b2, c2, m2, has),
          (λ a a' h. children-ahead x sub d b c tree alike m D b2 c2 a a' k v m2 h has less),
          λ k' v' h ahead ne. elim (IsAhead-cases k' v' h ahead) [
            | inl (b', c', m', h', less') ↦ elim (ℕ_discrete b2 b') [
              | yes same ↦
                  first k' v'
                    (subst (λ p. Has (sub p) k' v')
                      (Maps_unique x b2 c' c2 tree.0.valid (subst (λ a. Maps x a c') (sym same) m')
                        m2)
                      h')
                    ne
              | no other ↦
                  children-ahead x sub d b2 c2 tree alike m2 D b' c' k v k' v' m' has h'
                    (least b' c' m' less' other)
            ]
            | inr all ↦ all k v (b2, c2, m2, has)
          ],
        )

  pub advance-IsNext :
      (stack : List StackEntry) (d : ℕ) (t : Tree) (buf : List ℕ)
      → Leads r stack d t
      → IsNext t (advance D.first D.step stack buf)
  unfolding advance
  advance-IsNext [] d t buf (e, z) = inl (
    record { stack = []; keybuf = buf },
    refl,
    refl,
    λ k' v' h ahead. D.irrefl (ahead k' v' (rw e h)),
  )
  advance-IsNext (e ∷ stack) d t buf (x, sub, c, d0, is, on, m, below, depth, up) =
      let (tree, alike, part) = Leads-IsTree D r root stack d0 (inode x sub) up in
      let popped = keybuf_pop buf (KeyPrefix.length e.prefix) in
      rw (sym below)
        (elim (D.next_child x e.child_index e.key_byte tree.0.valid on
          (Maps-lt x e.key_byte c tree.0.valid m)) [
            | inl (over, nothing) ↦ subst (IsNext (sub c)) (sym (rw (advance, is, over) refl)) (
                outer-IsNext x sub d0 e.key_byte c stack up m _ nothing
                  (advance-IsNext stack d0 (inode x sub) popped up))
            | inr (e2, c2, got, (on2, m2), less, least) ↦
                let child : get_child x e2.child_index ≡ c2 =
                  get_child-Maps x e2.child_index e2.key_byte c2 tree.0.valid on2 m2 in
                let it2 =
                  push (record { stack = stack; keybuf = popped }) e.node (inode x sub) e2 in
                let (under, _, _) = tree.1 e2.key_byte c2 m2 in
                subst (IsNext (sub c)) (sym (rw (advance, is, got, child) refl)) (
                  sibling-IsNext x sub d0 e.key_byte c stack up m _ e2.key_byte c2 m2 less least (
                    traversal-IsFirst D r (sub c2) (suc (d0 + KeyPrefix.length (get_key_prefix x)))
                      c2 it2 under (child-IsAlike x sub d0 e2.key_byte c2 tree alike m2)
                      (x, sub, c2, d0, refl, on2, m2, refl, refl, up)))
          ])
