-- ===== src/Node/Split/Laws.antt =====
-- What a split leaves, and that deleting the new leaf again undoes it.
use unodb.Base.{
  ℕ, suc, ◌+◌, ◌-◌, ◌<◌, ◌≤◌, ◌≡◌, ◌≢◌, refl, sym, ◌∙◌, false, ltb, ◌==◌, ==_iff, Bool-cases, inl,
  inr, arith,
}
use mathlib.Core.Path.{ap}
use native.Mathlib.Decide.{dec_lt}
use unodb.Node.{Leaf, key_byte_at}
use unodb.Node.Pointer.{leaf, tag_of, type}
use unodb.Node.KeyPrefix
use unodb.Node.KeyPrefix.{byte_at, cut, prepend, length, IsPrefix}
use unodb.Node.KeyPrefix.Laws.{cut-IsPrefix, take-IsPrefix, prepend-IsPrefix}
use unodb.Node.Sorted.Changed.{IsPair}
use unodb.Node.Inode4
use unodb.Node.Inode4.{Inode4, add_two_to_empty}
use unodb.Node.Inode4.Changes.{add_two_to_empty-Maps}
use unodb.Node.Split.{init_split, leave_last_child}

byte_at-lt : (u i : ℕ) → byte_at u i < 256
unfolding byte_at
byte_at-lt u i = omega arith

-- A split prefix, put together again around the byte at which it was split.
rejoined :
    (u n : ℕ)
    → IsPrefix u
    → n < length u
    → IsPrefix (prepend (cut u (n + 1)) (KeyPrefix.take n u) (byte_at u n))
      × (length (prepend (cut u (n + 1)) (KeyPrefix.take n u) (byte_at u n)) ≡ length u)
      × ((i : ℕ)
          → i < length u
          → byte_at (prepend (cut u (n + 1)) (KeyPrefix.take n u) (byte_at u n)) i ≡ byte_at u i)
rejoined u n v h =
    let (cut_valid, cut_length, cut_bytes) = cut-IsPrefix u (n + 1) v (omega arith) in
    let (take_valid, take_length, take_bytes) = take-IsPrefix u n (omega (arith, v.1)) in
    let (valid, len, before, at, behind) =
      prepend-IsPrefix (cut u (n + 1)) (KeyPrefix.take n u) (byte_at u n) cut_valid take_valid
        (omega (arith, cut_length, take_length, v.1)) (byte_at-lt u n) in
    let r = prepend (cut u (n + 1)) (KeyPrefix.take n u) (byte_at u n) in
    (
      valid,
      omega (arith, len, cut_length, take_length),
      λ i lt. elim (dec_lt i n) [
        | yes lo ↦ before i (omega (arith, take_length)) ∙ take_bytes i lo
        | no ge ↦ elim (dec_lt n i) [
          | yes hi ↦
              let j = i - suc n in
              let e : suc (length (KeyPrefix.take n u)) + j ≡ i = omega (arith, take_length) in
              let f : n + 1 + j ≡ i = omega arith in
              ap (byte_at r) (sym e)
              ∙ behind j (omega (arith, cut_length))
              ∙ cut_bytes j (omega arith)
              ∙ ap (byte_at u) f
          | no le ↦
              let e : i ≡ length (KeyPrefix.take n u) = omega (arith, take_length) in
              let f : n ≡ i = omega arith in ap (byte_at r) e ∙ at ∙ ap (byte_at u) f
        ]
      ],
    )

-- A node of four is made over an internal node whose key prefix is split at a byte, and a leaf
-- whose key has another byte there. Leaving the last child without this leaf then gives back the
-- internal node and reclaims the leaf, and the key prefix has its old length and bytes again.
pub leave_last_child-init_split :
    (raw : Inode4) (source u shared depth : ℕ) (child : Leaf)
    → IsPrefix u
    → shared < length u
    → byte_at u shared ≢ key_byte_at child (depth + shared)
    → type source ≢ tag_of leaf
    → (i : ℕ) × (i ≤ 1)
      × ((init_split raw source u shared depth child).0.keys i ≡ key_byte_at child (depth + shared))
      × ((init_split raw source u shared depth child).0.children i ≡ child.address)
      × (r : ℕ) × (leave_last_child
            (init_split raw source u shared depth child).0
            i
            (init_split raw source u shared depth child).1
          ≡ (source, r, child.address))
      × IsPrefix r
      × (length r ≡ length u)
      × ((j : ℕ) → j < length u → byte_at r j ≡ byte_at u j)
unfolding init_split leave_last_child add_two_to_empty
leave_last_child-init_split raw source u shared depth child v h ne inner =
    let k = byte_at u shared in
    let l = key_byte_at child (depth + shared) in
    let other : (type source == tag_of leaf) ≡ false =
      elim (Bool-cases (type source == tag_of leaf)) [
        | inl e ↦ absurd (inner ((==_iff _ _).0 e))
        | inr e ↦ e
      ] in
    let (valid, len, bytes) = rejoined u shared v h in
    elim (Bool-cases (ltb k l)) [
      | inl lt ↦ (1, omega arith, rw lt refl, rw lt refl, _, rw (lt, other) refl, valid, len, bytes)
      | inr ge ↦ (0, omega arith, rw ge refl, rw ge refl, _, rw (ge, other) refl, valid, len, bytes)
    ]

-- The node of four that is made over a node, whose key prefix is split at a byte, and a leaf whose
-- key has another byte there, is valid and maps these two bytes to the node and the leaf and no
-- other byte. Its key prefix is as long as what stands before the byte of the split, and that of
-- the node as long as what stands behind it.
pub init_split-IsPair :
    (raw : Inode4) (source u shared depth : ℕ) (child : Leaf)
    → IsPrefix u
    → shared < length u
    → key_byte_at child (depth + shared) < 256
    → byte_at u shared ≢ key_byte_at child (depth + shared)
    → 0 < source
    → 0 < child.address
    → Inode4.IsValid (init_split raw source u shared depth child).0
      × IsPair
          (byte_at u shared)
          source
          (key_byte_at child (depth + shared))
          child.address
          (Inode4.Maps (init_split raw source u shared depth child).0)
      × (length (init_split raw source u shared depth child).0.key_prefix ≡ shared)
      × (length (init_split raw source u shared depth child).1 ≡ length u - (shared + 1))
unfolding init_split add_two_to_empty
init_split-IsPair raw source u shared depth child v h small ne p q =
    let this : Inode4 = record raw { key_prefix = KeyPrefix.take shared u; children_count = 2 } in
    let (valid, maps) =
      add_two_to_empty-Maps this (byte_at u shared) source (key_byte_at child (depth + shared))
        child.address refl ne (byte_at-lt u shared) small p q in
    let (take_valid, take_length, take_bytes) = take-IsPrefix u shared (omega (arith, v.1)) in
    let (cut_valid, cut_length, cut_bytes) = cut-IsPrefix u (shared + 1) v (omega arith) in
    (valid, maps, take_length, cut_length)
