-- ===== src/Art/Iterator/Path.antt =====
-- The path that the stack of an iterator stands for, and where other keys are beside it.
use unodb.Base.{ℕ, suc, ◌+◌, ◌-◌, ◌<◌, ◌≡◌, ◌⊎◌, sym, ◌∙◌, List, [], ◌∷◌, get_or, inl, inr, arith}
use mathlib.Core.Path.{subst}
use native.Mathlib.Decide.{dec_lt, ℕ_discrete}
use unodb.Node.KeyPrefix
use unodb.Node.Inode.{Inode, get_key_prefix, Maps, IsAt}
use unodb.Node.Inode.Reads.{Maps_unique}
use unodb.Art.{Tree, leaf, inode}
use unodb.Art.Entries.{Has, IsTree}
use unodb.Art.Entries.Inhabited.{Has-IsKey}
use unodb.Art.Iterator.{StackEntry}
use unodb.Art.Iterator.Direction.{Direction}

-- The stack leads from the root `r` to the tree `t` at depth `d`.
abbrev pub Leads : Tree → List StackEntry → ℕ → Tree → Type 0
Leads r [] d t = (t ≡ r) × (d ≡ 0)
Leads r (e ∷ stack) d t =
    (x : Inode) × (sub : ℕ → Tree) × (c : ℕ) × (d0 : ℕ) × (e.tree ≡ inode x sub)
    × IsAt x e.child_index e.key_byte
    × Maps x e.key_byte c
    × (sub c ≡ t)
    × (d ≡ suc (d0 + KeyPrefix.length (get_key_prefix x)))
    × Leads r stack d0 (inode x sub)

-- The stack leads to the leaf on its top, which has the entry.
abbrev pub IsOnEntry : Tree → List StackEntry → List ℕ → List ℕ → Type 0
IsOnEntry r [] k v = ⊥
IsOnEntry r (e ∷ stack) k v = (d : ℕ) × (e.tree ≡ leaf k v) × Leads r stack d (leaf k v)

-- The keys of a tree share their first bytes.
abbrev pub IsAlike : ℕ → Tree → Type 0
IsAlike d t =
    (k v k' v' : List ℕ) → Has t k v → Has t k' v' → (j : ℕ) → j < d → get_or k j 0 ≡ get_or k' j 0

module _ (x : Inode) (sub : ℕ → Tree) (d b c : ℕ) (tree : IsTree d (inode x sub))
    (alike : IsAlike d (inode x sub)) (m : Maps x b c) where
  pub child-IsAlike : IsAlike (suc (d + KeyPrefix.length (get_key_prefix x))) (sub c)
  child-IsAlike k v k' v' h h' j small =
      let (_, _, follows) = tree.1 b c m in
      let (same, at) = follows k v h in
      let (same', at') = follows k' v' h' in
      elim (dec_lt j d) [
        | yes lo ↦ alike k v k' v' (b, c, m, h) (b, c, m, h') j lo
        | no ge ↦ elim (ℕ_discrete j (d + KeyPrefix.length (get_key_prefix x))) [
          | yes last ↦ rw last (at ∙ sym at')
          | no ne ↦
              let w : d + (j - d) ≡ j = omega arith in
              subst (λ n. get_or k n 0 ≡ get_or k' n 0) w
                (same (j - d) (omega arith) ∙ sym (same' (j - d) (omega arith)))
        ]
      ]

  -- Keys below different children are in the order of the bytes of these.
  pub children-ahead :
      (D : Direction) (b' c' : ℕ) (k v k' v' : List ℕ)
      → Maps x b' c'
      → Has (sub c) k v
      → Has (sub c') k' v'
      → D.Byte b b'
      → D.Key k k'
  children-ahead D b' c' k v k' v' m' h h' less =
      let (under, _, follows) = tree.1 b c m in
      let (under', _, follows') = tree.1 b' c' m' in
      let (same, at) = follows k v h in
      let (same', at') = follows' k' v' h' in
      let n = d + KeyPrefix.length (get_key_prefix x) in
      D.ahead n (Has-IsKey (sub c) _ k v under h) (Has-IsKey (sub c') _ k' v' under' h')
        tree.0.short
        (λ j small. elim (dec_lt j d) [
          | yes lo ↦ alike k v k' v' (b, c, m, h) (b', c', m', h') j lo
          | no ge ↦
              let w : d + (j - d) ≡ j = omega arith in
              subst (λ a. get_or k a 0 ≡ get_or k' a 0) w
                (same (j - d) (omega arith) ∙ sym (same' (j - d) (omega arith)))
        ])
        (subst (λ a. D.Byte a (get_or k' n 0)) (sym at) (subst (D.Byte b) (sym at') less))

module _ (D : Direction) (r : Tree) (root : IsTree 0 r) where
  -- A key that is behind, or ahead of, all keys of a tree.
  abbrev pub IsBehind : Tree → List ℕ → Type 0
  IsBehind t k' = (k v : List ℕ) → Has t k v → D.Key k' k

  abbrev pub IsAhead : Tree → List ℕ → Type 0
  IsAhead t k' = (k v : List ℕ) → Has t k v → D.Key k k'

  -- What a stack leads to is well-formed and part of the tree.
  pub Leads-IsTree :
      (stack : List StackEntry) (d : ℕ) (t : Tree)
      → Leads r stack d t
      → IsTree d t × IsAlike d t × ((k v : List ℕ) → Has t k v → Has r k v)
  Leads-IsTree [] d t (e, z) =
      rw (e, z) (root, (λ k v k' v' h h' j small. absurd (omega arith)), λ k v h. h)
  Leads-IsTree (e ∷ stack) d t (x, sub, c, d0, is, on, m, below, depth, up) =
      let (tree, alike, part) = Leads-IsTree stack d0 (inode x sub) up in
      let (under, _, _) = tree.1 e.key_byte c m in
      rw (sym below, depth)
        (
          under,
          child-IsAlike x sub d0 e.key_byte c tree alike m,
          λ k v h. part k v (e.key_byte, c, m, h),
        )

  -- A key of the whole tree is in the tree that the stack leads to, or beside it.
  pub position :
      (stack : List StackEntry) (d : ℕ) (t : Tree)
      → Leads r stack d t
      → (k v : List ℕ) → Has r k v
      → Has t k v ⊎ (IsBehind t k ⊎ IsAhead t k)
  position [] d t (e, z) k v h = inl (rw e h)
  position (e ∷ stack) d t (x, sub, c, d0, is, on, m, below, depth, up) k v h =
      let (tree, alike, part) = Leads-IsTree stack d0 (inode x sub) up in
      rw (sym below) (elim (position stack d0 (inode x sub) up k v h) [
        | inl (b', c', m', h') ↦ elim (ℕ_discrete b' e.key_byte) [
          | yes same ↦ inl (
              subst (λ p. Has (sub p) k v)
                (Maps_unique x e.key_byte c' c tree.0.valid (subst (λ a. Maps x a c') same m') m)
                h')
          | no ne ↦ elim (D.either b' e.key_byte ne) [
            | inl lo ↦ inr (
                inl (λ a a' g.
                  children-ahead x sub d0 b' c' tree alike m' D e.key_byte c k v a a' m h' g lo))
            | inr hi ↦ inr (
                inr (λ a a' g.
                  children-ahead x sub d0 e.key_byte c tree alike m D b' c' a a' k v m' g h' hi))
          ]
        ]
        | inr (inl behind) ↦ inr (inl (λ a a' g. behind a a' (e.key_byte, c, m, g)))
        | inr (inr ahead) ↦ inr (inr (λ a a' g. ahead a a' (e.key_byte, c, m, g)))
      ])
