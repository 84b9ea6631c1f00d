-- ===== src/Art/Entries/Keys.antt =====
-- Keys, their bytes and the words that key prefixes are compared with.
use Prim.Native.Nat.Ordering.{eq}
use unodb.Base.{
  ℕ, zero, suc, List, [], ◌∷◌, length, get_or, drop, ◌+◌, ◌-◌, ◌<◌, ◌≤◌, ◌≡◌, ◌≢◌, ◌↔◌, refl, sym,
  ◌∙◌, true, false, ltb, arith,
}
use mathlib.Core.Path.{subst}
use native.Mathlib.Decide.{dec_lt, ℕ_discrete}
use unodb.Encode.Bytes.{compare_keys}
use unodb.Encode.Bytes.Order.{compare_keys-lex, lex-eq, lex_refl}
use unodb.Node.KeyPrefix
use unodb.Node.KeyPrefix.{byte_at, get_u64, word_of, IsPrefix, get_shared_length, make_u64}
use unodb.Node.KeyPrefix.Make.{byte_at-word_of, get_or-drop, make_u64-IsPrefix}
use unodb.Node.KeyPrefix.Shared.{IsShared, get_shared_length-IsShared}
use unodb.Art.{matches}
use unodb.Art.Entries.{IsKey, key_size, Follows}

pub compare_keys-eq : (a b : List ℕ) → (compare_keys a b ≡ eq) ↔ (a ≡ b)
compare_keys-eq a b = (
  λ e. lex-eq a b (sym (compare_keys-lex a b) ∙ e),
  λ e. rw e (compare_keys-lex b b ∙ lex_refl b),
)

pub matches_iff : (key k : List ℕ) → (matches key k ≡ true) ↔ (k ≡ key)
unfolding matches
matches_iff key k = (
  λ e. (compare_keys-eq k key).0 (ground arith),
  λ e. rw (matches, (compare_keys-eq k key).1 e) refl,
)

-- Keys with the same bytes are the same.
list_ext :
    (a b : List ℕ)
    → length a ≡ length b
    → ((i : ℕ) → i < length a → get_or a i 0 ≡ get_or b i 0)
    → a ≡ b
list_ext [] [] h same = refl
list_ext [] (y ∷ b) h same = absurd (omega arith)
list_ext (x ∷ a) [] h same = absurd (omega arith)
list_ext (x ∷ a) (y ∷ b) h same =
    let rest = list_ext a b (omega arith) (λ i less. same (suc i) (omega arith)) in
    let first : x ≡ y = same 0 (omega arith) in cc

pub key_ext :
    (a b : List ℕ)
    → IsKey a
    → IsKey b
    → ((i : ℕ) → i < key_size → get_or a i 0 ≡ get_or b i 0)
    → a ≡ b
key_ext a b ka kb same = list_ext a b (omega arith) (λ i less. same i (omega arith))

pub drop-drop : (m n : ℕ) (k : List ℕ) → drop n (drop m k) ≡ drop (m + n) k
drop-drop zero n k = let e : 0 + n ≡ n = omega arith in rw e refl
drop-drop (suc m) zero [] = let e : suc m + 0 ≡ suc m = omega arith in rw e refl
drop-drop (suc m) (suc n) [] = let e : suc m + suc n ≡ suc (m + suc n) = omega arith in rw e refl
drop-drop (suc m) n (x ∷ k) =
    let e : suc m + n ≡ suc (m + n) = omega arith in rw e (drop-drop m n k)

pub byte_at-get_u64 :
    (k : List ℕ) (d i : ℕ) → IsKey k → i < 8 → byte_at (get_u64 (drop d k)) i ≡ get_or k (d + i) 0
unfolding get_u64
byte_at-get_u64 k d i key h =
    byte_at-word_of 8 (drop d k) i (λ j. rw (get_or-drop d k j) (key.1 (d + j))) h
    ∙ get_or-drop d k i

module _ (u d : ℕ) (k : List ℕ) (prefix : IsPrefix u) (key : IsKey k) where
  abbrev shared : ℕ
  shared = get_shared_length u (get_u64 (drop d k))

  shared_lem : IsShared (get_u64 (drop d k)) u (KeyPrefix.length u) shared
  shared_lem = get_shared_length-IsShared u (get_u64 (drop d k)) prefix

  pub shared_bytes : (i : ℕ) → i < shared → get_or k (d + i) 0 ≡ byte_at u i
  shared_bytes i h =
      let (le, same, other) = shared_lem in
      sym (byte_at-get_u64 k d i key (omega (arith, prefix.1))) ∙ same i h

  pub shared-le : shared ≤ KeyPrefix.length u
  shared-le = shared_lem.0

  -- A key that does not leave the prefix has all its bytes.
  pub shared_all :
      ltb shared (KeyPrefix.length u) ≡ false
      → (i : ℕ) → i < KeyPrefix.length u
      → get_or k (d + i) 0 ≡ byte_at u i
  shared_all e i h = shared_bytes i (ground arith)

  -- A key that leaves the prefix does so at the next byte.
  pub shared_other : shared < KeyPrefix.length u → get_or k (d + shared) 0 ≢ byte_at u shared
  shared_other h e =
      let (le, same, other) = shared_lem in
      other h (byte_at-get_u64 k d shared key (omega (arith, prefix.1)) ∙ e)

  -- No key that follows the prefix shares less with it.
  pub Follows-shared : (b : ℕ) → Follows d u b k → ¬ (shared < KeyPrefix.length u)
  Follows-shared b (same, _) h = shared_other h (same shared h)

-- Two keys that agree before a depth agree with the prefix that is made of them from there on, and
-- differ at the byte behind it.
pub record IsFork (d u : ℕ) (k1 k2 : List ℕ) : Type 0 where
  pub prefix : IsPrefix u
  pub short : d + KeyPrefix.length u < key_size
  pub first : (i : ℕ) → i < KeyPrefix.length u → get_or k1 (d + i) 0 ≡ byte_at u i
  pub second : (i : ℕ) → i < KeyPrefix.length u → get_or k2 (d + i) 0 ≡ byte_at u i
  pub differ : get_or k1 (d + KeyPrefix.length u) 0 ≢ get_or k2 (d + KeyPrefix.length u) 0

module _ (k1 k2 : List ℕ) (d : ℕ) (key1 : IsKey k1) (key2 : IsKey k2) (ne : k1 ≢ k2)
    (agree : (i : ℕ) → i < d → get_or k1 i 0 ≡ get_or k2 i 0) where
  abbrev made : ℕ
  made = make_u64 k1 (get_u64 (drop d k2)) d

  bytes_second : (i : ℕ) → i < KeyPrefix.length made → get_or k1 (d + i) 0 ≡ get_or k2 (d + i) 0
  bytes_second i h =
      let (valid, bytes, (le, same, other)) = make_u64-IsPrefix k1 (get_u64 (drop d k2)) d key1.1 in
      sym (byte_at-get_u64 k1 d i key1 (omega arith))
      ∙ same i h
      ∙ byte_at-get_u64 k2 d i key2 (omega arith)

  all_equal : (n : ℕ) → key_size ≤ n → ((i : ℕ) → i < n → get_or k1 i 0 ≡ get_or k2 i 0) → ⊥
  all_equal n h same = ne (key_ext k1 k2 key1 key2 (λ i less. same i (omega arith)))

  agree_to :
      (n : ℕ) → n ≤ d + KeyPrefix.length made → (i : ℕ) → i < n → get_or k1 i 0 ≡ get_or k2 i 0
  agree_to n h i less = elim (dec_lt i d) [
    | yes lo ↦ agree i lo
    | no ge ↦
        let e : d + (i - d) ≡ i = omega arith in
        subst (λ j. get_or k1 j 0 ≡ get_or k2 j 0) e (bytes_second (i - d) (omega arith))
  ]

  differ_lem : get_or k1 (d + KeyPrefix.length made) 0 ≢ get_or k2 (d + KeyPrefix.length made) 0
  differ_lem e =
      let (valid, bytes, (le, same, other)) = make_u64-IsPrefix k1 (get_u64 (drop d k2)) d key1.1 in
      let l = KeyPrefix.length made in
      elim (dec_lt l 7) [
        | yes less ↦ other less (
            byte_at-get_u64 k1 d l key1 (omega arith)
            ∙ e
            ∙ sym (byte_at-get_u64 k2 d l key2 (omega arith)))
        | no ge ↦ all_equal (suc (d + l)) (omega arith) (λ i less. elim (ℕ_discrete i (d + l)) [
          | yes at ↦ rw at e
          | no away ↦ agree_to (d + l) (omega arith) i (omega arith)
        ])
      ]

  pub make_u64-IsFork : IsFork d made k1 k2
  make_u64-IsFork =
      let (valid, bytes, (le, same, other)) = make_u64-IsPrefix k1 (get_u64 (drop d k2)) d key1.1 in
      record {
        prefix = valid;
        short = elim (dec_lt (d + KeyPrefix.length made) key_size) [
          | yes less ↦ less
          | no ge ↦
              absurd
                (all_equal (d + KeyPrefix.length made) (omega arith) (agree_to _ (omega arith)))
        ];
        first = λ i h. sym (bytes i (omega arith));
        second = λ i h. sym (bytes_second i h) ∙ sym (bytes i (omega arith));
        differ = differ_lem;
      }
