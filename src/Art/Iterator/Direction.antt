-- ===== src/Art/Iterator/Direction.antt =====
-- What the two directions of an iteration have in common: an order of bytes and of keys, and the
-- operations of the nodes that follow it.
use Prim.Native.Nat.Ordering.{lt}
use unodb.Base.{
  ℕ, zero, suc, ◌<◌, ◌≡◌, ◌≢◌, ◌⊎◌, refl, sym, List, [], ◌∷◌, length, get_or, Option, none, some,
  inl, inr, arith,
}
use native.Mathlib.Decide.{dec_lt}
use unodb.Encode.Bytes.Order.{lex, lex_refl, lex_trans, then_with}
use unodb.Node.{IterResult}
use unodb.Node.Spec.{IsGte, IsLt}
use unodb.Node.Inode.{Inode, Maps, IsValid, IsAt, begin, last, next, prior}
use unodb.Node.Inode.Reads.{IsOn, next_lem, prior_lem}
use unodb.Node.Inode.Ends.{begin_child, last_child}
use unodb.Art.Entries.{IsKey, key_size}

-- A result of an iteration that stands on the byte of a child.
abbrev pub IsChildOf : Inode → IterResult → ℕ → Type 0
IsChildOf x r c = IsAt x r.child_index r.key_byte × Maps x r.key_byte c

pub record Direction : Type 1 where
  pub first : Inode → Option IterResult
  pub step : Inode → ℕ → Option IterResult
  pub Byte : ℕ → ℕ → Type 0
  pub Key : List ℕ → List ℕ → Type 0
  pub either : (a b : ℕ) → a ≢ b → Byte a b ⊎ Byte b a
  pub asym : {a b : ℕ} → Byte a b → ¬ Byte b a
  pub irrefl : {k : List ℕ} → ¬ Key k k
  pub trans : {a b c : List ℕ} → Key a b → Key b c → Key a c
  pub ahead :
      {a b : List ℕ} (i : ℕ)
      → IsKey a
      → IsKey b
      → i < key_size
      → ((j : ℕ) → j < i → get_or a j 0 ≡ get_or b j 0)
      → Byte (get_or a i 0) (get_or b i 0)
      → Key a b
  pub first_child :
      (x : Inode)
      → IsValid x
      → (r : IterResult) × (c : ℕ) × (first x ≡ some r)
        × IsChildOf x r c
        × ((b' c' : ℕ) → Maps x b' c' → r.key_byte ≢ b' → Byte r.key_byte b')
  pub next_child :
      (x : Inode) (i b : ℕ)
      → IsValid x
      → IsAt x i b
      → b < 256
      → ((step x i ≡ none) × ((b' c' : ℕ) → Maps x b' c' → ¬ Byte b b'))
        ⊎ ((r : IterResult) × (c : ℕ) × (step x i ≡ some r)
            × IsChildOf x r c
            × Byte b r.key_byte
            × ((b' c' : ℕ) → Maps x b' c' → Byte b b' → r.key_byte ≢ b' → Byte r.key_byte b'))

-- The first byte that differs decides.
pub lex_at :
    (i : ℕ) (a b : List ℕ)
    → i < length a
    → i < length b
    → ((j : ℕ) → j < i → get_or a j 0 ≡ get_or b j 0)
    → get_or a i 0 < get_or b i 0
    → lex a b ≡ lt
unfolding then_with
lex_at i [] b h k same less = absurd (omega arith)
lex_at i (x ∷ a) [] h k same less = absurd (omega arith)
lex_at zero (x ∷ a) (y ∷ b) h k same less = ground (arith, less)
lex_at (suc i) (x ∷ a) (y ∷ b) h k same less =
    let rest =
      lex_at i a b (omega arith) (omega arith) (λ j small. same (suc j) (omega arith)) less in
    let head : x ≡ y = same 0 (omega arith) in ground arith

abbrev pub Before : List ℕ → List ℕ → Type 0
Before a b = lex a b ≡ lt

pub lex_irrefl : (k : List ℕ) → ¬ Before k k
lex_irrefl k h = let e = lex_refl k in cc

pub next_cases :
    (x : Inode) (i b : ℕ) (o : Option IterResult)
    → IsGte (Maps x) (suc b) o × IsOn x o
    → ((o ≡ none) × ((b' c' : ℕ) → Maps x b' c' → ¬ (b < b')))
      ⊎ ((r : IterResult) × (c : ℕ) × (o ≡ some r)
          × IsChildOf x r c
          × (b < r.key_byte)
          × ((b' c' : ℕ) → Maps x b' c' → b < b' → r.key_byte ≢ b' → r.key_byte < b'))
next_cases x i b none (nothing, on) =
    inl (refl, λ b' c' m h. let k = nothing b' c' m in omega arith)
next_cases x i b (some r) (((c, m), low, least), on) =
    inr (r, c, refl, (on, m), low, λ b' c' m' h ne. let k = least b' c' m' h in omega arith)

pub prior_cases :
    (x : Inode) (i b : ℕ) (o : Option IterResult)
    → IsLt (Maps x) b o × IsOn x o
    → ((o ≡ none) × ((b' c' : ℕ) → Maps x b' c' → ¬ (b' < b)))
      ⊎ ((r : IterResult) × (c : ℕ) × (o ≡ some r)
          × IsChildOf x r c
          × (r.key_byte < b)
          × ((b' c' : ℕ) → Maps x b' c' → b' < b → r.key_byte ≢ b' → b' < r.key_byte))
prior_cases x i b none (nothing, on) =
    inl (refl, λ b' c' m h. let k = nothing b' c' m in omega arith)
prior_cases x i b (some r) (((c, m), low, most), on) =
    inr (r, c, refl, (on, m), low, λ b' c' m' h ne. let k = most b' c' m' h in omega arith)

abbrev pub forward : Direction
forward = record {
  first = begin;
  step = next;
  Byte = λ a b. a < b;
  Key = λ a b. lex a b ≡ lt;
  either = λ a b ne. elim (dec_lt a b) [ yes h ↦ inl h | no h ↦ inr (omega arith) ];
  asym = λ h k. omega arith;
  irrefl = λ {k} h. lex_irrefl k h;
  trans = λ {a} {b} {c} h k. lex_trans a b c h k;
  ahead = λ {a} {b} i ka kb small same less.
      lex_at i a b (omega (arith, ka.0)) (omega (arith, kb.0)) same less;
  first_child = λ x v.
      let (r, c, got, on, m, least) = begin_child x v in
      (r, c, got, (on, m), λ b' c' m' ne. let k = least b' c' m' in omega arith);
  next_child = λ x i b v at small. next_cases x i b (next x i) (next_lem x i b v at small);
}

abbrev pub backward : Direction
backward = record {
  first = last;
  step = prior;
  Byte = λ a b. b < a;
  Key = λ a b. lex b a ≡ lt;
  either = λ a b ne. elim (dec_lt b a) [ yes h ↦ inl h | no h ↦ inr (omega arith) ];
  asym = λ h k. omega arith;
  irrefl = λ {k} h. lex_irrefl k h;
  trans = λ {a} {b} {c} h k. lex_trans c b a k h;
  ahead = λ {a} {b} i ka kb small same less.
      lex_at i b a (omega (arith, kb.0)) (omega (arith, ka.0)) (λ j h. sym (same j h)) less;
  first_child = λ x v.
      let (r, c, got, on, m, most) = last_child x v in
      (r, c, got, (on, m), λ b' c' m' ne. let k = most b' c' m' in omega arith);
  next_child = λ x i b v at small. prior_cases x i b (prior x i) (prior_lem x i b v at small);
}
