-- ===== src/Art/Delete/Once.antt =====
-- The deletion of a tree frees no node twice.
use unodb.Base.{
  ℕ, zero, suc, ◌<◌, ◌≡◌, ◌↔◌, refl, sym, ◌∙◌, List, [], ◌∷◌, ◌++◌, Option, none, some, inl, inr,
  arith,
}
use mathlib.Core.Path.{ap, subst}
use native.Mathlib.Decide.{ℕ_discrete}
use unodb.Node.{nullptr}
use unodb.Node.Sorted.Entries.{IsKeyed-index}
use unodb.Node.Inode.{Inode, n4, n16, n48, n256, Maps, IsValid}
use unodb.Node.Inode48
use unodb.Art.{Tree, leaf, inode, Slot, Db}
use unodb.Art.Entries.{IsTree, IsDb, IsRoot, Held, HeldIn, Reaches}
use unodb.Art.Delete.{
  delete_each, delete_present, delete_children, delete_subtree, delete_root_subtree, clear,
}
use unodb.Art.Delete.Laws.{
  Frees, Frees-append, delete_each_iff, delete_present_iff, delete_present-empty,
  delete_present-full, delete_children_iff, delete_subtree_iff, root_iff,
}

-- No pointer stands twice in the list.
abbrev pub IsOnce : List ℕ → Type 0
IsOnce [] = Unit {0}
IsOnce (p ∷ l) = (¬ Frees l p) × IsOnce l

IsOnce-append :
    (l m : List ℕ) → IsOnce l → IsOnce m → ((p : ℕ) → Frees l p → ¬ Frees m p) → IsOnce (l ++ m)
IsOnce-append [] m once once' apart = once'
IsOnce-append (q ∷ l) m (first, once) once' apart = (
  λ h. elim ((Frees-append l m q).0 h) [ inl h' ↦ first h' | inr h' ↦ apart q (inl refl) h' ],
  IsOnce-append l m once once' (λ p h. apart p (inr h)),
)

module _ (f : ℕ → List ℕ) (g : ℕ → ℕ) where
  delete_each-IsOnce :
      (n : ℕ)
      → ((i : ℕ) → i < n → IsOnce (f (g i)))
      → ((i j p : ℕ) → i < j → j < n → Frees (f (g i)) p → ¬ Frees (f (g j)) p)
      → IsOnce (delete_each f g n)
  unfolding delete_each
  delete_each-IsOnce zero once apart = tt
  delete_each-IsOnce (suc n) once apart =
      IsOnce-append (delete_each f g n) (f (g n))
        (delete_each-IsOnce n (λ i small. once i (omega arith))
          (λ i j p less small. apart i j p less (omega arith)))
        (once n (omega arith))
        (λ p h h'.
          let (i, small, freed) = (delete_each_iff f g p n).0 h in
          apart i n p small (omega arith) freed h')

  delete_present-IsOnce :
      (n : ℕ)
      → ((i : ℕ) → i < n → 0 < g i → IsOnce (f (g i)))
      → ((i j p : ℕ) → i < j → j < n → 0 < g i → 0 < g j → Frees (f (g i)) p → ¬ Frees (f (g j)) p)
      → IsOnce (delete_present f g n)
  unfolding delete_present
  delete_present-IsOnce zero once apart = tt
  delete_present-IsOnce (suc n) once apart =
      let before =
        delete_present-IsOnce n (λ i small. once i (omega arith))
          (λ i j p less small. apart i j p less (omega arith)) in
      elim (ℕ_discrete (g n) nullptr) [
        | yes e ↦ subst IsOnce (sym (delete_present-empty f g 0 n e)) before
        | no ne ↦
            let full : 0 < g n = omega arith in
            subst IsOnce (sym (delete_present-full f g 0 n full)) (
              IsOnce-append (delete_present f g n) (f (g n)) before (once n (omega arith) full)
                (λ p h h'.
                  let (i, small, full', freed) = (delete_present_iff f g p n).0 h in
                  apart i n p small (omega arith) full' full freed h'))
      ]

-- Children that free different nodes, each of them once.
delete_children-IsOnce :
    (f : ℕ → List ℕ) (x : Inode)
    → IsValid x
    → ((b c : ℕ) → Maps x b c → IsOnce (f c))
    → ((a b c c' p : ℕ) → Maps x a c → Maps x b c' → Frees (f c) p → Frees (f c') p → a ≡ b)
    → IsOnce (delete_children f x)
delete_children-IsOnce f (n4 x) v once apart =
    delete_each-IsOnce f x.children x.children_count
      (λ i small. once (x.keys i) (x.children i) (i, small, refl, refl))
      (λ i j p less small h h'.
        let at : i < x.children_count = omega arith in
        let same =
          apart (x.keys i) (x.keys j) (x.children i) (x.children j) p (i, at, refl, refl)
            (j, small, refl, refl) h h' in
        let e = IsKeyed-index v.keyed i j at small same in omega arith)
delete_children-IsOnce f (n16 x) v once apart =
    delete_each-IsOnce f x.children x.children_count
      (λ i small. once (x.keys i) (x.children i) (i, small, refl, refl))
      (λ i j p less small h h'.
        let at : i < x.children_count = omega arith in
        let same =
          apart (x.keys i) (x.keys j) (x.children i) (x.children j) p (i, at, refl, refl)
            (j, small, refl, refl) h h' in
        let e = IsKeyed-index v.keyed i j at small same in omega arith)
delete_children-IsOnce f (n48 x) v once apart =
    let at : (i : ℕ)
        → i < Inode48.capacity
        → 0 < x.pointer_array i
        → (b : ℕ) × (x.child_indexes b ≡ i) × Maps (n48 x) b (x.pointer_array i) =
      λ i small full.
        let (b, byte, here) = v.owner i small full in
        (b, here, (byte, omega (arith, here, small), ap x.pointer_array here)) in
    delete_present-IsOnce f x.pointer_array Inode48.capacity
      (λ i small full. let (b, here, m) = at i small full in once b (x.pointer_array i) m)
      (λ i j p less small full full' h h'.
        let (b, here, m) = at i (omega arith) full in
        let (b', here', m') = at j small full' in
        let same = apart b b' (x.pointer_array i) (x.pointer_array j) p m m' h h' in
        let e = sym here ∙ ap x.child_indexes same ∙ here' in omega (arith, e))
delete_children-IsOnce f (n256 x) v once apart =
    delete_present-IsOnce f x.children 256
      (λ i small full. once i (x.children i) (small, full, refl))
      (λ i j p less small full full' h h'.
        let same =
          apart i j (x.children i) (x.children j) p (omega arith, full, refl) (small, full', refl) h
            h' in
        omega arith)

delete_subtree-IsOnce :
    (t : Tree) (d node : ℕ) → IsTree d t → ¬ Reaches node t → IsOnce (delete_subtree t node)
unfolding delete_subtree
delete_subtree-IsOnce (leaf key value) d node tree alone = ((λ h. h), tt)
delete_subtree-IsOnce (inode x sub) d node (n, below, owner) alone =
    let f = λ (c : ℕ). delete_subtree (sub c) c in
    let frees : (b c p : ℕ) → Maps x b c → Frees (f c) p → Held p c (sub c) = λ b c p m h.
      let (under, _, _) = below b c m in (delete_subtree_iff (sub c) _ c p under).0 h in
    IsOnce-append (delete_children f x) (node ∷ [])
      (delete_children-IsOnce f x n.valid
        (λ b c m.
          let (under, _, _) = below b c m in
          delete_subtree-IsOnce (sub c) _ c under (owner.apart b c m))
        (λ a b c c' p m m' h h'.
          owner.disjoint a b c c' p m m' (frees a c p m h) (frees b c' p m' h')))
      ((λ h. h), tt)
      (λ p h last.
        let (b, c, m, freed) = (delete_children_iff f x p n.valid).0 h in
        elim last [
          | inl e ↦ alone (subst (λ q. Reaches q (inode x sub)) e (b, c, m, frees b c p m freed))
          | inr bad ↦ bad
        ])

root-IsOnce :
    (o : Option Slot)
    → ((s : Slot) → o ≡ some s → IsRoot s)
    → IsOnce (delete_root_subtree (record { root = o }))
unfolding delete_root_subtree
root-IsOnce none valid = tt
root-IsOnce (some s) valid =
    let (tree, _, _, alone) = valid s refl in delete_subtree-IsOnce s.tree 0 s.ptr tree alone

-- Clearing a well-formed database frees every node that its pointers lead to, and nothing else,
-- each once, and leaves a database without pointers.
pub clear-IsOnce :
    (db : Db)
    → IsDb db
    → ((p : ℕ) → Frees (clear db).0 p ↔ HeldIn p db)
      × IsOnce (clear db).0
      × ((p : ℕ) → ¬ HeldIn p (clear db).1)
unfolding clear
clear-IsOnce db valid = (
  λ p. root_iff db.root p (λ s is. (valid s is).0),
  root-IsOnce db.root valid,
  λ p (s, is, held). cc,
)
