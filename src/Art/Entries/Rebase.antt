-- ===== src/Art/Entries/Rebase.antt =====
-- A well-formed tree whose root has another key prefix at another depth.
use unodb.Base.{ℕ, ◌+◌, ◌<◌, ◌≡◌, ◌≢◌, arith, ◌↔◌, refl, List, get_or}
use unodb.Node.Pointer
use unodb.Node.Pointer.{tag_of}
use unodb.Node.KeyPrefix
use unodb.Node.KeyPrefix.{byte_at, IsPrefix}
use unodb.Node.Inode.{Inode, n4, n16, n48, n256, get_key_prefix, set_key_prefix, type_of}
use unodb.Node.Inode.Resize.{set_key_prefix-IsValid}
use unodb.Art.{Tree, inode}
use unodb.Art.Entries.{Has, IsTree, Reaches}

pub type_of-set_key_prefix : (x : Inode) (u : ℕ) → type_of (set_key_prefix x u) ≡ type_of x
type_of-set_key_prefix (n4 x) u = refl
type_of-set_key_prefix (n16 x) u = refl
type_of-set_key_prefix (n48 x) u = refl
type_of-set_key_prefix (n256 x) u = refl

-- A leaf's pointer is none to an internal node.
pub inner_tag : (x : Inode) → tag_of (type_of x) ≢ tag_of Pointer.leaf
unfolding tag_of
inner_tag (n4 x) = omega arith
inner_tag (n16 x) = omega arith
inner_tag (n48 x) = omega arith
inner_tag (n256 x) = omega arith

module _ (x : Inode) (sub : ℕ → Tree) (d d' u : ℕ) (tree : IsTree d (inode x sub)) where
  pub rebase-Has : (k v : List ℕ) → Has (inode (set_key_prefix x u) sub) k v ↔ Has (inode x sub) k v
  rebase-Has k v =
      let (valid, maps, prefix) = set_key_prefix-IsValid x u tree.0.valid in
      (λ (b, c, m, h). (b, c, (maps b c).0 m, h), λ (b, c, m, h). (b, c, (maps b c).1 m, h))

  pub rebase-Reaches :
      (p : ℕ) → Reaches p (inode (set_key_prefix x u) sub) → Reaches p (inode x sub)
  rebase-Reaches p (b, c, m, h) =
      let (valid, maps, prefix) = set_key_prefix-IsValid x u tree.0.valid in
      (b, c, (maps b c).0 m, h)

  module _ (prefixed : IsPrefix u)
      (sum : d' + KeyPrefix.length u ≡ d + KeyPrefix.length (get_key_prefix x))
      (bytes : (k v : List ℕ)
        → Has (inode x sub) k v
        → (i : ℕ) → i < KeyPrefix.length u
        → get_or k (d' + i) 0 ≡ byte_at u i) where
    pub rebase-IsTree : IsTree d' (inode (set_key_prefix x u) sub)
    rebase-IsTree =
        let (valid, maps, prefix) = set_key_prefix-IsValid x u tree.0.valid in
        (
          record {
            valid = valid;
            prefix = rw prefix prefixed;
            short = rw (prefix, sum) tree.0.short;
          },
          λ b c m.
              let m' = (maps b c).0 m in
              let (under, tag, follows) = tree.1 b c m' in
              rw (prefix, sum) (under, tag, λ k v h. (bytes k v (b, c, m', h), (follows k v h).1)),
          record {
            disjoint = λ a b c c' p m m' h h'.
                tree.2.disjoint a b c c' p ((maps a c).0 m) ((maps b c').0 m') h h';
            apart = λ b c m. tree.2.apart b c ((maps b c).0 m);
          },
        )
