-- ===== src/Tests/Node.antt =====
-- A node of each size, and the theorems of the nodes applied to it.
use unodb.Base.{ℕ, suc, ◌+◌, ◌*◌, ◌≤◌, ◌≡◌, refl, some, [], ◌∷◌, if◌then◌else◌, ltb, arith}
use unodb.Node.{Leaf}
use unodb.Node.Spec.{IsFound, IsGte, IsLt, IsReplaced}
use unodb.Node.Sorted.{IsKeyed}
use unodb.Node.Slots.{tally}
use unodb.Node.Inode4
use unodb.Node.Inode16
use unodb.Node.Inode48
use unodb.Node.Inode256
use mathlib.Core.Path.{ap}
use unodb.Node.Pointer.{tag_of}
use unodb.Node.Inode
use unodb.Node.Inode.{Inode, Memory, n4, n16, n48, Maps, IsValid, set_child}
use unodb.Node.Inode.Resize.{
  IsGrown, IsShrunk, add_to_nonfull-IsGrown, create_larger-IsGrown, remove-IsShrunk,
  create_smaller-IsShrunk,
}
use unodb.Node.Inode.Search.{reads_in_inode}
use unodb.Node.Inode.Changes.{set_child-IsReplaced}

-- A leaf whose key has byte 25 at depth 1.
abbrev leaf : Leaf
leaf = record { address = 4096; key_view = 7 ∷ 25 ∷ [] }

abbrev high_leaf : Leaf
high_leaf = record { address = 4096; key_view = 200 ∷ [] }

-- `n` children under the bytes 10, 20, 30 and so on.
abbrev bytes : ℕ → ℕ
bytes i = 10 * suc i

abbrev pointers : ℕ → ℕ
pointers i = 1000 + 8 * i

bytes-IsKeyed : (n : ℕ) → n ≤ 24 → IsKeyed n bytes pointers
bytes-IsKeyed n h = record {
  sorted = λ i j lt hj. omega arith;
  bytes = λ i lt. omega arith;
  present = λ i lt. omega arith;
}

abbrev four : ℕ → Inode4.Inode4
four n = record { key_prefix = 0; children_count = n; keys = bytes; children = pointers }

four-IsValid : (n : ℕ) → 2 ≤ n → n ≤ 4 → Inode4.IsValid (four n)
four-IsValid n h k = record { keyed = bytes-IsKeyed n (omega arith); least = h; most = k }

four_new : (n c : ℕ) → ¬ Inode4.Maps (four n) 25 c
four_new n c (i, lt, k, e) = omega arith

abbrev sixteen : ℕ → Inode16.Inode16
sixteen n = record { key_prefix = 0; children_count = n; keys = bytes; children = pointers }

sixteen-IsValid : (n : ℕ) → 5 ≤ n → n ≤ 16 → Inode16.IsValid (sixteen n)
sixteen-IsValid n h k = record { keyed = bytes-IsKeyed n (omega arith); least = h; most = k }

sixteen_new : (n c : ℕ) → ¬ Inode16.Maps (sixteen n) 25 c
sixteen_new n c (i, lt, k, e) = omega arith

-- `n` children under the bytes below `n`.
abbrev low : ℕ → Inode48.Inode48
low n = record {
  key_prefix = 0;
  children_count = n;
  child_indexes = λ b. if ltb b n then b else 255;
  pointer_array = λ i. if ltb i n then 1000 + 8 * i else 0;
}

abbrev forty_eight : Inode48.Inode48
forty_eight = low 20

low-IsValid :
    (n : ℕ)
    → n ≡ tally 0 ((low n).pointer_array) 48
    → n ≡ tally 255 ((low n).child_indexes) 256
    → 17 ≤ n
    → n ≤ 48
    → Inode48.IsValid (low n)
low-IsValid n counted mapped least most = record {
  inside = λ b h m. ground arith;
  present = λ b h m. ground arith;
  distinct = λ a b h k m e. ground arith;
  owner = λ i h p. (i, omega arith, ground arith);
  counted = counted;
  mapped = mapped;
  least = least;
}

forty_eight-IsValid : Inode48.IsValid forty_eight
unfolding tally
forty_eight-IsValid = low-IsValid 20 refl refl (omega arith) (omega arith)

least-IsValid : Inode48.IsValid (low 17)
unfolding tally
least-IsValid = low-IsValid 17 refl refl (omega arith) (omega arith)

full-IsValid : Inode48.IsValid (low 48)
unfolding tally
full-IsValid = low-IsValid 48 refl refl (omega arith) (omega arith)

-- 49 children under the bytes 0 to 48.
abbrev fewest : Inode256.Inode256
fewest = record {
  key_prefix = 0;
  children_count = 49;
  children = λ b. if ltb b 49 then 1000 + 8 * b else 0;
}

fewest-tally : tally 0 fewest.children 256 ≡ 49
unfolding tally
fewest-tally = refl

fewest-IsValid : Inode256.IsValid fewest
fewest-IsValid = record {
  counted = omega (arith, fewest-tally);
  least = omega (arith, fewest-tally);
}

-- 60 children under the bytes 0 to 59.
abbrev many : Inode256.Inode256
many = record {
  key_prefix = 0;
  children_count = 60;
  children = λ b. if ltb b 60 then 1000 + 8 * b else 0;
}

many-tally : tally 0 many.children 256 ≡ 60
unfolding tally
many-tally = refl

many-IsValid : Inode256.IsValid many
many-IsValid = record { counted = omega (arith, many-tally); least = omega (arith, many-tally) }

abbrev raw : Memory
raw = record { for4 = four 3; for16 = sixteen 6; for48 = pointers; for256 = many }

reads_in_inode_example :
    IsFound
      (Inode.Maps (n16 (sixteen 7)))
      (Inode.get_child (n16 (sixteen 7)))
      25
      (Inode.find_child (n16 (sixteen 7)) 25)
    × IsGte (Inode.Maps (n16 (sixteen 7))) 0 (Inode.begin (n16 (sixteen 7)))
    × IsLt (Inode.Maps (n16 (sixteen 7))) 256 (Inode.last (n16 (sixteen 7)))
    × IsGte
        (Inode.Maps (n16 (sixteen 7)))
        (suc ((sixteen 7).keys 1))
        (Inode.next (n16 (sixteen 7)) 1)
    × IsLt (Inode.Maps (n16 (sixteen 7))) ((sixteen 7).keys 1) (Inode.prior (n16 (sixteen 7)) 1)
    × IsGte (Inode.Maps (n16 (sixteen 7))) 25 (Inode.gte_key_byte (n16 (sixteen 7)) 25)
    × IsLt (Inode.Maps (n16 (sixteen 7))) 26 (Inode.lte_key_byte (n16 (sixteen 7)) 25)
reads_in_inode_example =
    reads_in_inode (n16 (sixteen 7)) 25 1 ((sixteen 7).keys 1)
      (sixteen-IsValid 7 (omega arith) (omega arith)) (omega arith, refl) (omega arith)
      (omega arith)

add_to_nonfull-IsGrown_example :
    (y : Inode) × (Inode.add_to_nonfull (n16 (sixteen 7)) leaf 1 7 ≡ some y)
    × IsGrown (n16 (sixteen 7)) leaf 1 y
add_to_nonfull-IsGrown_example =
    add_to_nonfull-IsGrown leaf 1 (omega arith) (omega arith) (n16 (sixteen 7))
      (sixteen-IsValid 7 (omega arith) (omega arith)) refl (sixteen_new 7)

create_larger-IsGrown_example :
    (y : Inode) × (Inode.create_larger raw (n4 (four 4)) leaf 1 ≡ some y)
    × IsGrown (n4 (four 4)) leaf 1 y
create_larger-IsGrown_example =
    create_larger-IsGrown leaf 1 (omega arith) (omega arith) raw (n4 (four 4))
      (four-IsValid 4 (omega arith) (omega arith)) refl (four_new 4)

remove-IsShrunk_example :
    IsShrunk
      (n48 forty_eight)
      3
      (Inode.remove (n48 forty_eight) 3).0
      (Inode.remove (n48 forty_eight) 3).1
remove-IsShrunk_example =
    remove-IsShrunk 3 3 1024 (n48 forty_eight) forty_eight-IsValid refl
      (omega arith, (λ e. omega arith), refl) refl

create_smaller-IsShrunk_example :
    (y : Inode) × (r : ℕ) × (Inode.create_smaller raw (n16 (sixteen 5)) 2 ≡ some (y, r))
    × IsShrunk (n16 (sixteen 5)) 30 y r
unfolding tag_of
create_smaller-IsShrunk_example =
    create_smaller-IsShrunk 2 30 1016 raw (n16 (sixteen 5))
      (sixteen-IsValid 5 (omega arith) (omega arith)) (omega arith, refl)
      (2, omega arith, refl, refl) refl (λ e. let f = ap tag_of e in omega arith)

set_child-IsReplaced_example :
    IsValid (set_child (n48 forty_eight) 3 8000)
    × IsReplaced (Maps (n48 forty_eight)) 3 8000 (Maps (set_child (n48 forty_eight) 3 8000))
set_child-IsReplaced_example =
    set_child-IsReplaced (n48 forty_eight) 3 3 1024 8000 forty_eight-IsValid refl
      (omega arith, (λ e. omega arith), refl) (omega arith)
