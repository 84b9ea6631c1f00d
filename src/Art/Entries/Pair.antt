-- ===== src/Art/Entries/Pair.antt =====
-- A new node of four over two trees.
use unodb.Base.{ℕ, suc, ◌+◌, ◌<◌, ◌≡◌, ◌↔◌, ◌⊎◌, refl, sym, ◌∙◌, List, inl, inr}
use mathlib.Core.Path.{ap, subst}
use unodb.Node.KeyPrefix
use unodb.Node.KeyPrefix.{IsPrefix}
use unodb.Node.Pointer.{tag_of, type}
use unodb.Node.Sorted.Changed.{IsPair}
use unodb.Node.Inode.{Inode, get_key_prefix, Maps, IsValid}
use unodb.Art.{Tree, inode, node_type}
use unodb.Art.Entries.{Has, Follows, IsTree, Reaches, Held, key_size}

-- A tree that a byte leads to below a prefix.
pub record IsBelow (d u b c : ℕ) (t : Tree) : Type 0 where
  pub under : IsTree (suc (d + KeyPrefix.length u)) t
  pub tag : type c ≡ tag_of (node_type t)
  pub alone : ¬ Reaches c t
  pub follows : (k v : List ℕ) → Has t k v → Follows d u b k

module _ (y : Inode) (sub : ℕ → Tree) (d b1 c1 b2 c2 : ℕ) (t1 t2 : Tree) (valid : IsValid y)
    (pair : IsPair b1 c1 b2 c2 (Maps y)) (first : sub c1 ≡ t1) (second : sub c2 ≡ t2) where
  held : (p b c c' : ℕ) (t : Tree) → c ≡ c' → sub c' ≡ t → Held p c (sub c) → Held p c' t
  held p b c c' t e f h = subst (Held p c') f (subst (λ q. Held p q (sub q)) e h)

  pub pair-Has : (k v : List ℕ) → Has (inode y sub) k v ↔ (Has t1 k v ⊎ Has t2 k v)
  pair-Has k v = (
    λ (b, c, m, h). elim ((pair b c).0 m) [
      | inl (eb, ec) ↦ inl (subst (λ z. Has z k v) (ap sub ec ∙ first) h)
      | inr (eb, ec) ↦ inr (subst (λ z. Has z k v) (ap sub ec ∙ second) h)
    ],
    λ q. elim q [
      | inl h ↦ (b1, c1, (pair b1 c1).1 (inl (refl, refl)), subst (λ z. Has z k v) (sym first) h)
      | inr h ↦ (b2, c2, (pair b2 c2).1 (inr (refl, refl)), subst (λ z. Has z k v) (sym second) h)
    ],
  )

  pub pair-Reaches : (p : ℕ) → Reaches p (inode y sub) → Held p c1 t1 ⊎ Held p c2 t2
  pair-Reaches p (b, c, m, h) = elim ((pair b c).0 m) [
    | inl (eb, ec) ↦ inl (held p b c c1 t1 ec first h)
    | inr (eb, ec) ↦ inr (held p b c c2 t2 ec second h)
  ]

  module _ (prefix : IsPrefix (get_key_prefix y))
      (short : d + KeyPrefix.length (get_key_prefix y) < key_size)
      (apart : (p : ℕ) → Held p c1 t1 → ¬ Held p c2 t2)
      (below1 : IsBelow d (get_key_prefix y) b1 c1 t1)
      (below2 : IsBelow d (get_key_prefix y) b2 c2 t2) where
    pair-disjoint :
        (a1 a2 e1 e2 p : ℕ)
        → Maps y a1 e1
        → Maps y a2 e2
        → Held p e1 (sub e1)
        → Held p e2 (sub e2)
        → a1 ≡ a2
    pair-disjoint a1 a2 e1 e2 p m1 m2 h1 h2 = elim ((pair a1 e1).0 m1) [
      | inl (eb1, ec1) ↦ elim ((pair a2 e2).0 m2) [
        | inl (eb2, ec2) ↦ eb1 ∙ sym eb2
        | inr (eb2, ec2) ↦
            absurd (apart p (held p a1 e1 c1 t1 ec1 first h1) (held p a2 e2 c2 t2 ec2 second h2))
      ]
      | inr (eb1, ec1) ↦ elim ((pair a2 e2).0 m2) [
        | inl (eb2, ec2) ↦
            absurd (apart p (held p a2 e2 c1 t1 ec2 first h2) (held p a1 e1 c2 t2 ec1 second h1))
        | inr (eb2, ec2) ↦ eb1 ∙ sym eb2
      ]
    ]

    pair-apart : (b c : ℕ) → Maps y b c → ¬ Reaches c (sub c)
    pair-apart b c m h = elim ((pair b c).0 m) [
      | inl (eb, ec) ↦
          below1.alone
            (subst (λ z. Reaches c1 z) (ap sub ec ∙ first) (subst (λ q. Reaches q (sub c)) ec h))
      | inr (eb, ec) ↦
          below2.alone
            (subst (λ z. Reaches c2 z) (ap sub ec ∙ second) (subst (λ q. Reaches q (sub c)) ec h))
    ]

    abbrev Below : ℕ → ℕ → Tree → Type 0
    Below b c z =
        IsTree (suc (d + KeyPrefix.length (get_key_prefix y))) z
        × (type c ≡ tag_of (node_type z))
        × ((k v : List ℕ) → Has z k v → Follows d (get_key_prefix y) b k)

    pub pair-IsTree : IsTree d (inode y sub)
    pair-IsTree = (
      record { valid = valid; prefix = prefix; short = short },
      λ b c m. elim ((pair b c).0 m) [
        | inl (eb, ec) ↦
            subst (Below b c) (sym (ap sub ec ∙ first))
              (rw (eb, ec) (below1.under, below1.tag, below1.follows))
        | inr (eb, ec) ↦
            subst (Below b c) (sym (ap sub ec ∙ second))
              (rw (eb, ec) (below2.under, below2.tag, below2.follows))
      ],
      record { disjoint = pair-disjoint; apart = pair-apart },
    )
