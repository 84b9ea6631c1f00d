-- ===== src/Node/Inode/Ends.antt =====
-- The first and the last child of a node, which every valid node has.
use unodb.Base.{ℕ, zero, suc, ◌≤◌, ◌<◌, ◌≡◌, refl, Option, none, some, arith}
use native.Mathlib.Decide.{ℕ_discrete}
use unodb.Node.{IterResult}
use unodb.Node.Spec.{IsGte, IsLt}
use unodb.Node.Slots.{tally}
use unodb.Node.Inode.{Inode, n4, n16, n48, n256, begin, last, Maps, IsValid, IsAt}
use unodb.Node.Inode.Reads.{IsOn, begin_lem, last_lem, Maps-lt}

tally-none : (u : ℕ) (f : ℕ → ℕ) (n : ℕ) → ((j : ℕ) → j < n → f j ≡ u) → tally u f n ≡ 0
unfolding tally
tally-none u f zero h = refl
tally-none u f (suc n) h =
    ground (arith, tally-none u f n (λ j small. h j (omega arith)), h n (omega arith))

-- A valid node has a child.
pub some_child : (x : Inode) → IsValid x → ¬ ((b c : ℕ) → ¬ Maps x b c)
some_child (n4 x) v nothing =
    nothing (x.keys 0) (x.children 0) (0, omega (arith, v.least), refl, refl)
some_child (n16 x) v nothing =
    nothing (x.keys 0) (x.children 0) (0, omega (arith, v.least), refl, refl)
some_child (n48 x) v nothing =
    let e = tally-none 255 x.child_indexes 256 (λ b small.
      elim (ℕ_discrete (x.child_indexes b) 255) [
        | yes unused ↦ unused
        | no used ↦ absurd (nothing b _ (small, used, refl))
      ]) in
    omega (arith, v.mapped, v.least)
some_child (n256 x) v nothing =
    let e = tally-none 0 x.children 256 (λ b small. elim (ℕ_discrete (x.children b) 0) [
      | yes unused ↦ unused
      | no used ↦ absurd (nothing b (x.children b) (small, omega arith, refl))
    ]) in
    omega (arith, v.least)

pub begin_child :
    (x : Inode)
    → IsValid x
    → (r : IterResult) × (c : ℕ) × (begin x ≡ some r)
      × IsAt x r.child_index r.key_byte
      × Maps x r.key_byte c
      × ((b' c' : ℕ) → Maps x b' c' → r.key_byte ≤ b')
begin_child x v = cases (begin x) (begin_lem x v)
  where
    cases :
        (o : Option IterResult)
        → IsGte (Maps x) 0 o × IsOn x o
        → (r : IterResult) × (c : ℕ) × (o ≡ some r)
          × IsAt x r.child_index r.key_byte
          × Maps x r.key_byte c
          × ((b' c' : ℕ) → Maps x b' c' → r.key_byte ≤ b')
    cases none (nothing, on) =
        absurd (some_child x v (λ b c m. let h = nothing b c m in omega arith))
    cases (some r) (((c, m), low, least), on) =
        (r, c, refl, on, m, λ b' c' m'. least b' c' m' (omega arith))

pub last_child :
    (x : Inode)
    → IsValid x
    → (r : IterResult) × (c : ℕ) × (last x ≡ some r)
      × IsAt x r.child_index r.key_byte
      × Maps x r.key_byte c
      × ((b' c' : ℕ) → Maps x b' c' → b' ≤ r.key_byte)
last_child x v = cases (last x) (last_lem x v)
  where
    cases :
        (o : Option IterResult)
        → IsLt (Maps x) 256 o × IsOn x o
        → (r : IterResult) × (c : ℕ) × (o ≡ some r)
          × IsAt x r.child_index r.key_byte
          × Maps x r.key_byte c
          × ((b' c' : ℕ) → Maps x b' c' → b' ≤ r.key_byte)
    cases none (nothing, on) = absurd (
        some_child x v
          (λ b c m. let h = nothing b c m in let h' = Maps-lt x b c v m in omega arith))
    cases (some r) (((c, m), low, most), on) =
        (r, c, refl, on, m, λ b' c' m'. most b' c' m' (Maps-lt x b' c' v m'))
