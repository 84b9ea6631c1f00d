-- ===== src/Art/Delete/Laws.antt =====
-- What the deletion of a tree frees.
use unodb.Base.{
  ℕ, zero, suc, ◌<◌, ◌≡◌, ◌⊎◌, ◌↔◌, refl, sym, List, [], ◌∷◌, ◌++◌, Option, some_inj, none, some,
  inl, inr, arith,
}
use mathlib.Core.Path.{ap, subst}
use native.Mathlib.Decide.{ℕ_discrete}
use unodb.Node.{nullptr}
use unodb.Node.Inode.{Inode, n4, n16, n48, n256, Maps, IsValid}
use unodb.Node.Inode48
use unodb.Art.{Tree, leaf, inode, Slot}
use unodb.Art.Entries.{IsTree, Held}
use unodb.Art.Delete.{
  delete_each, delete_present, delete_children, delete_subtree, delete_root_subtree,
}

-- The list has the pointer.
abbrev pub Frees : List ℕ → ℕ → Type 0
Frees [] p = ⊥
Frees (q ∷ l) p = (p ≡ q) ⊎ Frees l p

pub Frees-append : (l m : List ℕ) (p : ℕ) → Frees (l ++ m) p ↔ (Frees l p ⊎ Frees m p)
Frees-append [] m p = (λ h. inr h, λ h. elim h [ inl bad ↦ absurd bad | inr h' ↦ h' ])
Frees-append (q ∷ l) m p =
    let (there, back) = Frees-append l m p in
    (
      λ h. elim h [
        | inl e ↦ inl (inl e)
        | inr h' ↦ elim (there h') [ inl a ↦ inl (inr a) | inr b ↦ inr b ]
      ],
      λ h. elim h [
        | inl a ↦ elim a [ inl e ↦ inl e | inr a' ↦ inr (back (inl a')) ]
        | inr b ↦ inr (back (inr b))
      ],
    )

module _ (f : ℕ → List ℕ) (g : ℕ → ℕ) (p : ℕ) where
  pub delete_each_iff :
      (n : ℕ) → Frees (delete_each f g n) p ↔ ((i : ℕ) × (i < n) × Frees (f (g i)) p)
  unfolding delete_each
  delete_each_iff zero = (λ h. absurd h, λ (i, small, h). absurd (omega arith))
  delete_each_iff (suc n) =
      let (there, back) = delete_each_iff n in
      let (apart, together) = Frees-append (delete_each f g n) (f (g n)) p in
      (
        λ h. elim (apart h) [
          | inl h' ↦ let (i, small, freed) = there h' in (i, omega arith, freed)
          | inr h' ↦ (n, omega arith, h')
        ],
        λ (i, small, freed). elim (ℕ_discrete i n) [
          | yes e ↦ together (inr (subst (λ j. Frees (f (g j)) p) e freed))
          | no ne ↦ together (inl (back (i, omega arith, freed)))
        ],
      )

  pub delete_present-empty :
      (n : ℕ) → g n ≡ nullptr → delete_present f g (suc n) ≡ delete_present f g n
  unfolding delete_present
  delete_present-empty n e = ground arith

  pub delete_present-full :
      (n : ℕ) → 0 < g n → delete_present f g (suc n) ≡ delete_present f g n ++ f (g n)
  unfolding delete_present
  delete_present-full n h = ground arith

  delete_present_step :
      (n : ℕ)
      → Frees (delete_present f g (suc n)) p
        ↔ (Frees (delete_present f g n) p ⊎ ((0 < g n) × Frees (f (g n)) p))
  delete_present_step n = elim (ℕ_discrete (g n) nullptr) [
    | yes e ↦
        let same = delete_present-empty n e in
        (
          λ h. inl (subst (λ l. Frees l p) same h),
          λ h. elim h [
            | inl h' ↦ subst (λ l. Frees l p) (sym same) h'
            | inr (pos, freed) ↦ absurd (omega arith)
          ],
        )
    | no ne ↦
        let pos : 0 < g n = omega arith in
        let same = delete_present-full n pos in
        let (apart, together) = Frees-append (delete_present f g n) (f (g n)) p in
        (
          λ h. elim (apart (subst (λ l. Frees l p) same h)) [
            | inl h' ↦ inl h'
            | inr h' ↦ inr (pos, h')
          ],
          λ h.
              subst (λ l. Frees l p) (sym same)
                (together (elim h [ inl h' ↦ inl h' | inr (pos', freed) ↦ inr freed ])),
        )
  ]

  pub delete_present_iff :
      (n : ℕ) → Frees (delete_present f g n) p ↔ ((i : ℕ) × (i < n) × (0 < g i) × Frees (f (g i)) p)
  unfolding delete_present
  delete_present_iff zero = (λ h. absurd h, λ (i, small, full, h). absurd (omega arith))
  delete_present_iff (suc n) =
      let (there, back) = delete_present_iff n in
      let (apart, together) = delete_present_step n in
      (
        λ h. elim (apart h) [
          | inl h' ↦ let (i, small, full, freed) = there h' in (i, omega arith, full, freed)
          | inr (pos, freed) ↦ (n, omega arith, pos, freed)
        ],
        λ (i, small, full, freed). elim (ℕ_discrete i n) [
          | yes e ↦ together (inr (subst (λ j. (0 < g j) × Frees (f (g j)) p) e (full, freed)))
          | no ne ↦ together (inl (back (i, omega arith, full, freed)))
        ],
      )

-- The deletion goes through all children of the node.
pub delete_children_iff :
    (f : ℕ → List ℕ) (x : Inode) (p : ℕ)
    → IsValid x
    → Frees (delete_children f x) p ↔ ((b : ℕ) × (c : ℕ) × Maps x b c × Frees (f c) p)
delete_children_iff f (n4 x) p v =
    let (there, back) = delete_each_iff f x.children p x.children_count in
    (
      λ h. let (i, small, freed) = there h in (_, _, (i, small, refl, refl), freed),
      λ (b, c, (i, small, at, child), freed).
          back (i, small, subst (λ q. Frees (f q) p) (sym child) freed),
    )
delete_children_iff f (n16 x) p v =
    let (there, back) = delete_each_iff f x.children p x.children_count in
    (
      λ h. let (i, small, freed) = there h in (_, _, (i, small, refl, refl), freed),
      λ (b, c, (i, small, at, child), freed).
          back (i, small, subst (λ q. Frees (f q) p) (sym child) freed),
    )
delete_children_iff f (n48 x) p v =
    let (there, back) = delete_present_iff f x.pointer_array p Inode48.capacity in
    (
      λ h.
          let (i, small, full, freed) = there h in
          let (b, byte, at) = v.owner i small full in
          (b, _, (byte, omega (arith, at, small), ap x.pointer_array at), freed),
      λ (b, c, (byte, used, child), freed). back (
        x.child_indexes b,
        v.inside b byte used,
        v.present b byte used,
        subst (λ q. Frees (f q) p) (sym child) freed,
      ),
    )
delete_children_iff f (n256 x) p v =
    let (there, back) = delete_present_iff f x.children p 256 in
    (
      λ h. let (i, small, full, freed) = there h in (i, _, (small, full, refl), freed),
      λ (b, c, (byte, full, child), freed).
          back (b, byte, omega (arith, full, child), subst (λ q. Frees (f q) p) (sym child) freed),
    )

pub delete_subtree_iff :
    (t : Tree) (d node p : ℕ) → IsTree d t → Frees (delete_subtree t node) p ↔ Held p node t
unfolding delete_subtree
delete_subtree_iff (leaf key value) d node p tree = (λ h. h, λ h. h)
delete_subtree_iff (inode x sub) d node p (n, below, _) =
    let f = λ (c : ℕ). delete_subtree (sub c) c in
    let (there, back) = delete_children_iff f x p n.valid in
    let (apart, together) = Frees-append (delete_children f x) (node ∷ []) p in
    (
      λ h. elim (apart h) [
        | inl h' ↦
            let (b, c, m, freed) = there h' in
            let (under, _, _) = below b c m in
            inr (b, c, m, (delete_subtree_iff (sub c) _ c p under).0 freed)
        | inr h' ↦ elim h' [ inl e ↦ inl e | inr bad ↦ absurd bad ]
      ],
      λ h. elim h [
        | inl e ↦ together (inr (inl e))
        | inr (b, c, m, held) ↦
            let (under, _, _) = below b c m in
            together (inl (back (b, c, m, (delete_subtree_iff (sub c) _ c p under).1 held)))
      ],
    )

pub root_iff :
    (o : Option Slot) (p : ℕ)
    → ((s : Slot) → o ≡ some s → IsTree 0 s.tree)
    → Frees (delete_root_subtree (record { root = o })) p
      ↔ ((s : Slot) × (o ≡ some s) × Held p s.ptr s.tree)
unfolding delete_root_subtree
root_iff none p valid = (λ h. absurd h, λ (s, is, held). cc)
root_iff (some s) p valid =
    let (there, back) = delete_subtree_iff s.tree 0 s.ptr p (valid s refl) in
    (
      λ h. (s, refl, there h),
      λ (s', is, held). back (subst (λ r. Held p r.ptr r.tree) (sym (some_inj is)) held),
    )
