-- ===== src/Art/Entries/Put.antt =====
-- A well-formed tree with another subtree under one byte.
use unodb.Base.{ℕ, suc, ◌+◌, ◌≡◌, ◌≢◌, ◌↔◌, ◌⊎◌, refl, sym, ◌∙◌, List, inl, inr, update, arith}
use mathlib.Core.Path.{ap, subst}
use native.Mathlib.Decide.{ℕ_discrete}
use unodb.Node.KeyPrefix
use unodb.Node.Pointer.{tag_of, type}
use unodb.Node.Spec.{IsReplaced, IsAdded}
use unodb.Node.Inode.{Inode, get_key_prefix, Maps, IsValid}
use unodb.Node.Inode.Reads.{Maps_unique}
use unodb.Art.{Tree, inode, node_type}
use unodb.Art.Entries.{Has, Follows, IsTree, Reaches, Held}

-- The entries of a node that are under other bytes than `b`.
abbrev pub HasBeside : Inode → (ℕ → Tree) → ℕ → List ℕ → List ℕ → Type 0
HasBeside x sub b k v = (b' : ℕ) × (c : ℕ) × (b' ≢ b) × Maps x b' c × Has (sub c) k v

pub update-same : (sub : ℕ → Tree) (c : ℕ) (t : Tree) → update sub c t c ≡ t
update-same sub c t = ground arith

pub update-other : (sub : ℕ → Tree) (c p : ℕ) (t : Tree) → c ≢ p → update sub c t p ≡ sub p
update-other sub c p t ne = ground arith

-- The entries of a node are those below the child of a byte and those under the other bytes.
pub Has-split :
    (x : Inode) (sub : ℕ → Tree) (b c : ℕ) (k v : List ℕ)
    → IsValid x
    → Maps x b c
    → Has (inode x sub) k v ↔ (Has (sub c) k v ⊎ HasBeside x sub b k v)
Has-split x sub b c k v w m = (
  λ (b', c', m', h). elim (ℕ_discrete b' b) [
    | yes e ↦
        inl (
          subst (λ p. Has (sub p) k v) (Maps_unique x b c' c w (subst (λ a. Maps x a c') e m') m) h)
    | no ne ↦ inr (b', c', ne, m', h)
  ],
  λ q. elim q [ inl h ↦ (b, c, m, h) | inr (b', c', ne, m', h) ↦ (b', c', m', h) ],
)

-- Where the byte has no child, all entries are beside it.
pub HasBeside-all :
    (x : Inode) (sub : ℕ → Tree) (b : ℕ) (k v : List ℕ)
    → ((c : ℕ) → ¬ Maps x b c)
    → HasBeside x sub b k v ↔ Has (inode x sub) k v
HasBeside-all x sub b k v free = (
  λ (b', c, ne, m, h). (b', c, m, h),
  λ (b', c, m, h). (b', c, (λ e. free c (subst (λ a. Maps x a c) e m)), m, h),
)

module _ (x y : Inode) (sub : ℕ → Tree) (d b c : ℕ) (t : Tree) (New : ℕ → Type 0)
    (tree : IsTree d (inode x sub)) (valid : IsValid y)
    (prefix : get_key_prefix y ≡ get_key_prefix x) (maps : IsReplaced (Maps x) b c (Maps y))
    (held : (p : ℕ) → Held p c t → ((c0 : ℕ) × Maps x b c0 × Held p c0 (sub c0)) ⊎ New p)
    (old : (p : ℕ) → Reaches p (inode x sub) → ¬ New p) where
  -- What is held below another byte is not held by the new child.
  apart : (b' c' p : ℕ) → Maps x b' c' → Held p c' (sub c') → Held p c t → b' ≡ b
  apart b' c' p m h h' = elim (held p h') [
    | inl (c0, m0, h0) ↦ tree.2.disjoint b' b c' c0 p m m0 h h0
    | inr fresh ↦ absurd (old p (b', c', m, h) fresh)
  ]

  beside : (b' c' : ℕ) → b' ≢ b → Maps x b' c' → update sub c t c' ≡ sub c'
  beside b' c' ne m =
      update-other sub c c' t
        (λ e. ne (apart b' c c (subst (Maps x b') (sym e) m) (inl refl) (inl refl)))

  -- A child of the new node is the new one or is as before.
  abbrev Cases : (Tree → Type 0) → ℕ → ℕ → Type 0
  Cases P b' c' = ((b' ≡ b) × (c' ≡ c) × P t) ⊎ ((b' ≢ b) × Maps x b' c' × P (sub c'))

  cases :
      (P : ℕ → Tree → Type 0) (b' c' : ℕ)
      → Maps y b' c'
      → P c' (update sub c t c')
      → Cases (P c') b' c'
  cases P b' c' m h = elim ((maps b' c').0 m) [
    | inl (eb, ec) ↦ inl (eb, ec, subst (P c') (ap (update sub c t) ec ∙ update-same sub c t) h)
    | inr (ne, m') ↦ inr (ne, m', subst (P c') (beside b' c' ne m') h)
  ]

  pub put-Has :
      (k v : List ℕ) → Has (inode y (update sub c t)) k v ↔ (Has t k v ⊎ HasBeside x sub b k v)
  put-Has k v = (
    λ (b', c', m, h). elim (cases (λ p z. Has z k v) b' c' m h) [
      | inl (eb, ec, h') ↦ inl h'
      | inr (ne, m', h') ↦ inr (b', c', ne, m', h')
    ],
    λ q. elim q [
      | inl h ↦ (
        b,
        c,
        (maps b c).1 (inl (refl, refl)),
        subst (λ z. Has z k v) (sym (update-same sub c t)) h,
      )
      | inr (b', c', ne, m', h) ↦ (
        b',
        c',
        (maps b' c').1 (inr (ne, m')),
        subst (λ z. Has z k v) (sym (beside b' c' ne m')) h,
      )
    ],
  )

  pub put-Reaches : (p : ℕ) → Reaches p (inode y (update sub c t)) → Reaches p (inode x sub) ⊎ New p
  put-Reaches p (b', c', m, h) = elim (cases (λ q z. Held p q z) b' c' m h) [
    | inl (eb, ec, h') ↦ elim (held p (subst (λ q. Held p q t) ec h')) [
      | inl (c0, m0, h0) ↦ inl (b, c0, m0, h0)
      | inr fresh ↦ inr fresh
    ]
    | inr (ne, m', h') ↦ inl (b', c', m', h')
  ]

  put-disjoint :
      (a1 a2 c1 c2 p : ℕ)
      → Maps y a1 c1
      → Maps y a2 c2
      → Held p c1 (update sub c t c1)
      → Held p c2 (update sub c t c2)
      → a1 ≡ a2
  put-disjoint a1 a2 c1 c2 p m1 m2 h1 h2 = elim (cases (λ q z. Held p q z) a1 c1 m1 h1) [
    | inl (e1, f1, g1) ↦ elim (cases (λ q z. Held p q z) a2 c2 m2 h2) [
      | inl (e2, f2, g2) ↦ e1 ∙ sym e2
      | inr (n2, l2, g2) ↦ absurd (n2 (apart a2 c2 p l2 g2 (subst (λ q. Held p q t) f1 g1)))
    ]
    | inr (n1, l1, g1) ↦ elim (cases (λ q z. Held p q z) a2 c2 m2 h2) [
      | inl (e2, f2, g2) ↦ absurd (n1 (apart a1 c1 p l1 g1 (subst (λ q. Held p q t) f2 g2)))
      | inr (n2, l2, g2) ↦ tree.2.disjoint a1 a2 c1 c2 p l1 l2 g1 g2
    ]
  ]

  put-apart : ¬ Reaches c t → (b' c' : ℕ) → Maps y b' c' → ¬ Reaches c' (update sub c t c')
  put-apart alone b' c' m h = elim (cases (λ q z. Reaches q z) b' c' m h) [
    | inl (eb, ec, h') ↦ alone (subst (λ q. Reaches q t) ec h')
    | inr (ne, m', h') ↦ tree.2.apart b' c' m' h'
  ]

  module _ (under : IsTree (suc (d + KeyPrefix.length (get_key_prefix x))) t)
      (tag : type c ≡ tag_of (node_type t))
      (follows : (k v : List ℕ) → Has t k v → Follows d (get_key_prefix x) b k)
      (alone : ¬ Reaches c t) where
    abbrev Below : ℕ → ℕ → Tree → Type 0
    Below b' c' z =
        IsTree (suc (d + KeyPrefix.length (get_key_prefix y))) z
        × (type c' ≡ tag_of (node_type z))
        × ((k v : List ℕ) → Has z k v → Follows d (get_key_prefix y) b' k)

    pub put-IsTree : IsTree d (inode y (update sub c t))
    put-IsTree = (
      record { valid = valid; prefix = rw prefix tree.0.prefix; short = rw prefix tree.0.short },
      λ b' c' m. elim ((maps b' c').0 m) [
        | inl (eb, ec) ↦
            subst (Below b' c') (sym (ap (update sub c t) ec ∙ update-same sub c t))
              (rw (prefix, eb, ec) (under, tag, follows))
        | inr (ne, m') ↦
            subst (Below b' c') (sym (beside b' c' ne m')) (rw prefix (tree.1 b' c' m'))
      ],
      record { disjoint = put-disjoint; apart = put-apart alone },
    )

pub IsAdded-IsReplaced :
    (E E' : ℕ → ℕ → Type 0) (b c : ℕ)
    → IsAdded E b c E'
    → ((c' : ℕ) → ¬ E b c')
    → IsReplaced E b c E'
IsAdded-IsReplaced E E' b c added free b' c' = (
  λ m. elim ((added b' c').0 m) [
    | inl same ↦ inl same
    | inr o ↦ inr ((λ e. free c' (subst (λ a. E a c') e o)), o)
  ],
  λ q. elim q [ inl same ↦ (added b' c').1 (inl same) | inr (ne, o) ↦ (added b' c').1 (inr o) ],
)
