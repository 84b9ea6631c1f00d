-- ===== src/Art/Entries/Dropped.antt =====
-- A well-formed tree without what is under one byte.
use unodb.Base.{ℕ, ◌+◌, ◌≡◌, ◌≢◌, ◌↔◌, sym, ◌∙◌, List, inl, inr, get_or}
use mathlib.Core.Path.{ap}
use unodb.Node.KeyPrefix
use unodb.Node.Spec.{IsRemoved}
use unodb.Node.Inode.{Inode, get_key_prefix, Maps, IsValid}
use unodb.Art.{Tree, inode}
use unodb.Art.Entries.{Has, IsTree, Reaches}
use unodb.Art.Entries.Put.{HasBeside, Has-split}

-- Where a byte leads to a leaf with the key, the other entries are those under other bytes.
pub HasBeside-others :
    (x : Inode) (sub : ℕ → Tree) (d c : ℕ) (k k' v' : List ℕ)
    → IsTree d (inode x sub)
    → Maps x (get_or k (d + KeyPrefix.length (get_key_prefix x)) 0) c
    → ((a b : List ℕ) → Has (sub c) a b → a ≡ k)
    → HasBeside x sub (get_or k (d + KeyPrefix.length (get_key_prefix x)) 0) k' v'
      ↔ ((k' ≢ k) × Has (inode x sub) k' v')
HasBeside-others x sub d c k k' v' tree m only = (
  λ (b, c', ne, m', h).
      let (_, _, follows) = tree.1 b c' m' in
      (
        λ same. ne (
            sym (follows k' v' h).1
            ∙ ap (λ q. get_or q (d + KeyPrefix.length (get_key_prefix x)) 0) same),
        (b, c', m', h),
      ),
  λ (ne, h). elim ((Has-split x sub _ c k' v' tree.0.valid m).0 h) [
    | inl h' ↦ absurd (ne (only k' v' h'))
    | inr beside ↦ beside
  ],
)

module _ (x y : Inode) (sub : ℕ → Tree) (d b : ℕ) (tree : IsTree d (inode x sub))
    (valid : IsValid y) (prefix : get_key_prefix y ≡ get_key_prefix x)
    (maps : IsRemoved (Maps x) b (Maps y)) where
  pub dropped-IsTree : IsTree d (inode y sub)
  dropped-IsTree = (
    record { valid = valid; prefix = rw prefix tree.0.prefix; short = rw prefix tree.0.short },
    λ b' c m. rw prefix (tree.1 b' c ((maps b' c).0 m).1),
    record {
      disjoint = λ a a' c c' p m m' h h'.
          tree.2.disjoint a a' c c' p ((maps a c).0 m).1 ((maps a' c').0 m').1 h h';
      apart = λ b' c m. tree.2.apart b' c ((maps b' c).0 m).1;
    },
  )

  pub dropped-Has : (k v : List ℕ) → Has (inode y sub) k v ↔ HasBeside x sub b k v
  dropped-Has k v = (
    λ (b', c, m, h). let (ne, m') = (maps b' c).0 m in (b', c, ne, m', h),
    λ (b', c, ne, m, h). (b', c, (maps b' c).1 (ne, m), h),
  )

  pub dropped-Reaches : (p : ℕ) → Reaches p (inode y sub) → Reaches p (inode x sub)
  dropped-Reaches p (b', c, m, h) = (b', c, ((maps b' c).0 m).1, h)
