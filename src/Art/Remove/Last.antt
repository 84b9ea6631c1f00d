-- ===== src/Art/Remove/Last.antt =====
-- A node of four with two children, one of which is removed: the other takes its place.
use unodb.Base.{
  ℕ, suc, ◌+◌, ◌-◌, ◌<◌, ◌≡◌, ◌≢◌, ◌↔◌, refl, sym, ◌∙◌, List, get_or, inl, inr, Bool-cases, ◌==◌,
  ==_iff, if◌then◌else◌, arith,
}
use mathlib.Core.Path.{ap, subst}
use native.Mathlib.Decide.{dec_lt, ℕ_discrete}
use unodb.Node.KeyPrefix
use unodb.Node.KeyPrefix.{byte_at, prepend}
use unodb.Node.KeyPrefix.Laws.{prepend-IsPrefix}
use unodb.Node.Pointer
use unodb.Node.Pointer.{NodeType, tag_of, type}
use unodb.Node.Inode4
use unodb.Node.Inode4.{Inode4}
use unodb.Node.Sorted.Entries.{IsKeyed-index}
use unodb.Node.Split.{leave_last_child}
use unodb.Node.Inode.{Inode, n4, get_key_prefix}
use unodb.Node.Inode.Reads.{Maps-pos}
use unodb.Art.{Tree, leaf, inode, node_type}
use unodb.Art.Entries.{Has, IsTree, Reaches, Held, Follows}
use unodb.Art.Entries.Put.{HasBeside}
use unodb.Art.Entries.Rebase.{
  rebase-IsTree, rebase-Has, rebase-Reaches, type_of-set_key_prefix, inner_tag,
}
use unodb.Art.Remove.{prefix_of, with_prefix}

-- The other index.
abbrev other : ℕ → ℕ
other i = if i == 0 then 1 else 0

other_lem :
    (i : ℕ) → i < 2 → (other i < 2) × ((j : ℕ) → j < 2 → j ≢ i → j ≡ other i) × (other i ≢ i)
other_lem i h = elim (ℕ_discrete i 0) [
  | yes e ↦ rw e (omega arith, λ j hj ne. omega arith, omega arith)
  | no ne ↦
      let one : i ≡ 1 = omega arith in rw one (omega arith, λ j hj ne'. omega arith, omega arith)
]

-- What is put in the place of the node and its tree, for a tree `z` that the pointer leads to.
pub record IsLeft (d : ℕ) (x : Inode) (sub : ℕ → Tree) (b p : ℕ) (z : Tree) : Type 0 where
  pub tree : IsTree d z
  pub tag : type p ≡ tag_of (node_type z)
  pub present : 0 < p
  pub alone : ¬ Reaches p z
  pub held : (q : ℕ) → Held q p z → Reaches q (inode x sub)
  pub entries : (k v : List ℕ) → Has z k v ↔ HasBeside x sub b k v

module _ (x : Inode4) (sub : ℕ → Tree) (d i b c : ℕ) (tree : IsTree d (inode (n4 x) sub))
    (two : x.children_count ≡ 2) (inside : i < x.children_count) (key_byte : x.keys i ≡ b) where
  abbrev j : ℕ
  j = other i

  there : Inode4.Maps x (x.keys (other i)) (x.children (other i))
  there = let (lt2, only, ne) = other_lem i (omega arith) in (other i, omega arith, refl, refl)

  others : (b' c' : ℕ) → b' ≢ b → Inode4.Maps x b' c' → (b' ≡ x.keys j) × (c' ≡ x.children j)
  others b' c' ne (n, h, e, f) =
      let (lt2, only, apart) = other_lem i (omega arith) in
      let same : n ≡ j = only n (omega arith) (λ q. ne (sym e ∙ ap x.keys q ∙ key_byte)) in
      (sym e ∙ ap x.keys same, sym f ∙ ap x.children same)

  other_byte : x.keys j ≢ b
  other_byte e =
      let (lt2, only, ne) = other_lem i (omega arith) in
      ne (IsKeyed-index tree.0.valid.keyed j i (omega arith) inside (e ∙ sym key_byte))

  -- The entries below the child that is left are those that are not under the byte.
  leave-Has : (k v : List ℕ) → Has (sub (x.children j)) k v ↔ HasBeside (n4 x) sub b k v
  leave-Has k v = (
    λ h. (x.keys j, x.children j, other_byte, there, h),
    λ (b', c', ne, m, h). subst (λ q. Has (sub q) k v) (others b' c' ne m).1 h,
  )

  leave_prefix :
      (u : ℕ)
      → type (x.children j) ≢ tag_of Pointer.leaf
      → (leave_last_child x i u).1 ≡ prepend u x.key_prefix (x.keys j)
  unfolding leave_last_child
  leave_prefix u ne = elim (Bool-cases (type (x.children j) == tag_of Pointer.leaf)) [
    | inl e ↦ absurd (ne ((==_iff _ _).0 e))
    | inr e ↦ rw e refl
  ]

  module _ (y : Inode) (s : ℕ → Tree) (below : sub (x.children j) ≡ inode y s) where
    abbrev u : ℕ
    u = prepend (get_key_prefix y) x.key_prefix (x.keys j)

    abbrev Above : Tree → Type 0
    Above z =
        IsTree (suc (d + KeyPrefix.length x.key_prefix)) z
        × (type (x.children j) ≡ tag_of (node_type z))
        × ((k v : List ℕ) → Has z k v → Follows d x.key_prefix (x.keys j) k)

    above : Above (inode y s)
    above = subst Above below (tree.1 (x.keys j) (x.children j) there)

    joined_bytes :
        (k v : List ℕ)
        → Has (inode y s) k v
        → (n : ℕ) → n < KeyPrefix.length u
        → get_or k (d + n) 0 ≡ byte_at u n
    joined_bytes k v h n small =
        let (under, tag, follows) = above in
        let m = KeyPrefix.length x.key_prefix in
        let (valid, len, before, at, behind) =
          prepend-IsPrefix (get_key_prefix y) x.key_prefix (x.keys j) under.0.prefix tree.0.prefix
            (omega (arith, under.0.short)) (small_byte) in
        elim (dec_lt n m) [
          | yes lo ↦ (follows k v h).0 n lo ∙ sym (before n lo)
          | no ge ↦ elim (ℕ_discrete n m) [
            | yes e ↦ rw e ((follows k v h).1 ∙ sym at)
            | no ne ↦
                let (b', c', m', h') = h in
                let (_, _, follows') = under.1 b' c' m' in
                let w : suc m + (n - suc m) ≡ n = omega arith in
                let w' : suc (d + m) + (n - suc m) ≡ d + n = omega arith in
                subst (λ a. get_or k a 0 ≡ byte_at u n) w'
                  ((follows' k v h').0 (n - suc m) (omega arith)
                    ∙ sym (behind (n - suc m) (omega arith))
                    ∙ ap (byte_at u) w)
          ]
        ]
      where
        small_byte : x.keys j < 256
        small_byte =
            let (lt2, only, ne) = other_lem i (omega arith) in
            tree.0.valid.keyed.bytes j (omega arith)

  pub leave-IsLeft :
      (z : Tree)
      → sub (x.children j) ≡ z
      → IsLeft d (n4 x) sub b (x.children j) (with_prefix z (leave_last_child x i (prefix_of z)).1)
  leave-IsLeft (leaf key value) e =
      let (under, tag, follows) = tree.1 (x.keys j) (x.children j) there in
      record {
        tree = subst (IsTree (suc (d + KeyPrefix.length x.key_prefix))) e under;
        tag = subst (λ z. type (x.children j) ≡ tag_of (node_type z)) e tag;
        present = Maps-pos (n4 x) (x.keys j) (x.children j) tree.0.valid there;
        alone = λ h. h;
        held = λ q h. (x.keys j, x.children j, there, subst (Held q (x.children j)) (sym e) h);
        entries = λ k v. subst (λ z. Has z k v ↔ HasBeside (n4 x) sub b k v) e (leave-Has k v);
      }
  leave-IsLeft (inode y s) e =
      let (under, tag, follows) = above y s e in
      let p = prepend (get_key_prefix y) x.key_prefix (x.keys j) in
      let (lt2, only, ne) = other_lem i (omega arith) in
      let (valid, len, before, at, behind) =
        prepend-IsPrefix (get_key_prefix y) x.key_prefix (x.keys j) under.0.prefix tree.0.prefix
          (omega (arith, under.0.short)) (tree.0.valid.keyed.bytes j (omega arith)) in
      let d' = suc (d + KeyPrefix.length x.key_prefix) in
      rw (leave_prefix (get_key_prefix y) (λ q. inner_tag y (sym tag ∙ q))) (record {
        tree = rebase-IsTree y s d' d p under valid (omega arith) (joined_bytes y s e);
        tag = tag ∙ sym (ap tag_of (type_of-set_key_prefix y p));
        present = Maps-pos (n4 x) (x.keys j) (x.children j) tree.0.valid there;
        alone = λ h. tree.2.apart (x.keys j) (x.children j) there (
            subst (Reaches (x.children j)) (sym e)
              (rebase-Reaches y s d' d p under (x.children j) h));
        held = λ q h. (
          x.keys j,
          x.children j,
          there,
          subst (Held q (x.children j)) (sym e)
              (elim h [ inl g ↦ inl g | inr g ↦ inr (rebase-Reaches y s d' d p under q g) ]),
        );
        entries = λ k v.
            let (to, from) =
              subst (λ z. Has z k v ↔ HasBeside (n4 x) sub b k v) e (leave-Has k v) in
            let (to', from') = rebase-Has y s d' d p under k v in
            (λ h. to (to' h), λ h. from' (from h));
      })
