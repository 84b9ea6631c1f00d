-- ===== src/Node/Inode/Reads.antt =====
-- Searching and stepping through a node of any size.
use unodb.Base.{
  ℕ, zero, suc, ◌+◌, ◌%◌, ◌<◌, ◌≡◌, refl, sym, ◌∙◌, Option, none, some, Bool-cases, inl, inr, leb,
  ◌==◌, arith,
}
use mathlib.Core.Path.{ap, subst}
use unodb.Node.{IterResult, found}
use unodb.Node.Spec.{IsFound, IsGte, IsLt}
use unodb.Node.Sorted.{scan_up, scan_down}
use unodb.Node.Sorted.Entries.{IsKeyed-index}
use unodb.Node.Inode4
use unodb.Node.Inode4.Reads as Reads4
use unodb.Node.Inode16
use unodb.Node.Inode16.Reads as Reads16
use unodb.Node.Inode48
use unodb.Node.Inode48.Reads as Reads48
use unodb.Node.Inode256
use unodb.Node.Inode256.Reads as Reads256
use unodb.Node.Inode.{
  Inode, n4, n16, n48, n256, find_child, get_child, begin, last, next, prior, lte_key_byte,
  gte_key_byte, Maps, IsValid, IsAt,
}

-- A result of an iteration stands on a byte.
abbrev pub IsOn : Inode → Option IterResult → Type 0
IsOn x none = Unit {0}
IsOn x (some r) = IsAt x r.child_index r.key_byte

-- The child at an index is that of its byte.
pub get_child-Maps :
    (x : Inode) (i b c : ℕ) → IsValid x → IsAt x i b → Maps x b c → get_child x i ≡ c
unfolding get_child Inode4.get_child Inode16.get_child Inode48.get_child Inode256.get_child
get_child-Maps (n4 x) i b c v (lt, e) (j, h, k, f) =
    let same = IsKeyed-index v.keyed i j lt h (e ∙ sym k) in ap x.children same ∙ f
get_child-Maps (n16 x) i b c v (lt, e) (j, h, k, f) =
    let same = IsKeyed-index v.keyed i j lt h (e ∙ sym k) in ap x.children same ∙ f
get_child-Maps (n48 x) i b c v e (lt, m, f) = ground arith
get_child-Maps (n256 x) i b c v e (lt, p, f) = ap x.children e ∙ f

pub Maps-lt : (x : Inode) (b c : ℕ) → IsValid x → Maps x b c → b < 256
Maps-lt (n4 x) b c v (i, lt, k, f) = rw (sym k) (v.keyed.bytes i lt)
Maps-lt (n16 x) b c v (i, lt, k, f) = rw (sym k) (v.keyed.bytes i lt)
Maps-lt (n48 x) b c v (lt, m, f) = lt
Maps-lt (n256 x) b c v (lt, p, f) = lt

pub Maps-pos : (x : Inode) (b c : ℕ) → IsValid x → Maps x b c → 0 < c
Maps-pos (n4 x) b c v (i, lt, k, f) = rw (sym f) (v.keyed.present i lt)
Maps-pos (n16 x) b c v (i, lt, k, f) = rw (sym f) (v.keyed.present i lt)
Maps-pos (n48 x) b c v (lt, m, f) = rw (sym f) (v.present b lt m)
Maps-pos (n256 x) b c v (lt, p, f) = p

pub Maps_unique : (x : Inode) (b c d : ℕ) → IsValid x → Maps x b c → Maps x b d → c ≡ d
Maps_unique (n4 x) b c d v (i, lt, k, f) (j, h, l, g) =
    let same = IsKeyed-index v.keyed i j lt h (k ∙ sym l) in sym f ∙ ap x.children same ∙ g
Maps_unique (n16 x) b c d v (i, lt, k, f) (j, h, l, g) =
    let same = IsKeyed-index v.keyed i j lt h (k ∙ sym l) in sym f ∙ ap x.children same ∙ g
Maps_unique (n48 x) b c d v (lt, m, f) (h, n, g) = sym f ∙ g
Maps_unique (n256 x) b c d v (lt, p, f) (h, q, g) = sym f ∙ g

scan_up-lt : (keys : ℕ → ℕ) (b d i j : ℕ) → scan_up keys b d i ≡ some j → j < d + i
unfolding scan_up
scan_up-lt keys b zero i j e = cc
scan_up-lt keys b (suc d) i j e = ground (arith, scan_up-lt keys b d (suc i) j)

scan_down-lt : (keys : ℕ → ℕ) (b n j : ℕ) → scan_down keys b n ≡ some j → j < n
unfolding scan_down
scan_down-lt keys b zero j e = cc
scan_down-lt keys b (suc n) j e = ground (arith, scan_down-lt keys b n j)

pub find_child-IsAt :
    (x : Inode) (b i c : ℕ) → IsValid x → find_child x b ≡ some (i, c) → IsAt x i b
unfolding find_child Inode48.find_child Inode256.find_child
find_child-IsAt (n4 x) b i c v got = Reads4.find_child_index x b i c v got
find_child-IsAt (n16 x) b i c v got = Reads16.find_child_index x b i c v got
find_child-IsAt (n48 x) b i c v got = ground arith
find_child-IsAt (n256 x) b i c v got = ground arith

pub find_child-IsFound :
    (x : Inode) (b : ℕ) → IsValid x → b < 256 → IsFound (Maps x) (get_child x) b (find_child x b)
unfolding find_child get_child
find_child-IsFound (n4 x) b v h = (Reads4.reads_in_four x v 0 (omega (arith, v.least)) b).0
find_child-IsFound (n16 x) b v h = (Reads16.reads_in_sixteen x v 0 (omega (arith, v.least)) b).0
find_child-IsFound (n48 x) b v h = (Reads48.reads_in_forty_eight x b 0 h (omega arith)).0
find_child-IsFound (n256 x) b v h = (Reads256.reads_in_all_bytes x b 0 h (omega arith)).0

found-IsOn :
    (x : Inode) (at : ℕ → IterResult) (o : Option ℕ)
    → ((i : ℕ) → o ≡ some i → IsAt x (at i).child_index (at i).key_byte)
    → IsOn x (found at o)
found-IsOn x at none h = tt
found-IsOn x at (some i) h = h i refl

byte-IsOn : (x : Inode48.Inode48) (o : Option ℕ) → IsOn (n48 x) (found (Inode48.result_at x) o)
byte-IsOn x o = found-IsOn (n48 x) (Inode48.result_at x) o (λ i e. refl)

all_bytes-IsOn :
    (x : Inode256.Inode256) (o : Option ℕ) → IsOn (n256 x) (found (Inode256.result_at x) o)
all_bytes-IsOn x o = found-IsOn (n256 x) (Inode256.result_at x) o (λ i e. refl)

pub begin_lem : (x : Inode) → IsValid x → IsGte (Maps x) 0 (begin x) × IsOn x (begin x)
unfolding begin Inode4.begin Inode16.begin Inode48.begin Inode256.begin
begin_lem (n4 x) v =
    ((Reads4.reads_in_four x v 0 (omega (arith, v.least)) 0).1, (omega (arith, v.least), refl))
begin_lem (n16 x) v =
    ((Reads16.reads_in_sixteen x v 0 (omega (arith, v.least)) 0).1, (omega (arith, v.least), refl))
begin_lem (n48 x) v =
    ((Reads48.reads_in_forty_eight x 0 0 (omega arith) (omega arith)).1, byte-IsOn x _)
begin_lem (n256 x) v =
    ((Reads256.reads_in_all_bytes x 0 0 (omega arith) (omega arith)).1, all_bytes-IsOn x _)

pub last_lem : (x : Inode) → IsValid x → IsLt (Maps x) 256 (last x) × IsOn x (last x)
unfolding last Inode4.last Inode16.last Inode48.last Inode256.last
last_lem (n4 x) v =
    ((Reads4.reads_in_four x v 0 (omega (arith, v.least)) 0).2, (omega (arith, v.least), refl))
last_lem (n16 x) v =
    ((Reads16.reads_in_sixteen x v 0 (omega (arith, v.least)) 0).2, (omega (arith, v.least), refl))
last_lem (n48 x) v =
    ((Reads48.reads_in_forty_eight x 0 0 (omega arith) (omega arith)).2, byte-IsOn x _)
last_lem (n256 x) v =
    ((Reads256.reads_in_all_bytes x 0 0 (omega arith) (omega arith)).2, all_bytes-IsOn x _)

next4-IsOn : (x : Inode4.Inode4) (i : ℕ) → IsOn (n4 x) (Inode4.next x i)
unfolding Inode4.next
next4-IsOn x i = elim (Bool-cases (leb x.children_count ((i + 1) % 256))) [
  | inl end ↦ rw end tt
  | inr more ↦ rw more (ground arith, refl)
]

prior4-IsOn : (x : Inode4.Inode4) (i : ℕ) → i < x.children_count → IsOn (n4 x) (Inode4.prior x i)
unfolding Inode4.prior
prior4-IsOn x i h = elim (Bool-cases (i == 0)) [
  | inl end ↦ rw end tt
  | inr more ↦ rw more (omega arith, refl)
]

gte4-IsOn : (x : Inode4.Inode4) (b : ℕ) → IsOn (n4 x) (Inode4.gte_key_byte x b)
unfolding Inode4.gte_key_byte
gte4-IsOn x b =
    found-IsOn (n4 x) (Inode4.result_at x) (scan_up x.keys b x.children_count 0)
      (λ i e. (let lt = scan_up-lt x.keys b x.children_count 0 i e in omega arith, refl))

lte4-IsOn : (x : Inode4.Inode4) (b : ℕ) → IsOn (n4 x) (Inode4.lte_key_byte x b)
unfolding Inode4.lte_key_byte
lte4-IsOn x b =
    found-IsOn (n4 x) (Inode4.result_at x) (scan_down x.keys b x.children_count)
      (λ i e. (scan_down-lt x.keys b x.children_count i e, refl))

next16-IsOn : (x : Inode16.Inode16) (i : ℕ) → IsOn (n16 x) (Inode16.next x i)
unfolding Inode16.next
next16-IsOn x i = elim (Bool-cases (leb x.children_count ((i + 1) % 256))) [
  | inl end ↦ rw end tt
  | inr more ↦ rw more (ground arith, refl)
]

prior16-IsOn :
    (x : Inode16.Inode16) (i : ℕ) → i < x.children_count → IsOn (n16 x) (Inode16.prior x i)
unfolding Inode16.prior
prior16-IsOn x i h = elim (Bool-cases (i == 0)) [
  | inl end ↦ rw end tt
  | inr more ↦ rw more (omega arith, refl)
]

gte16-IsOn : (x : Inode16.Inode16) (b : ℕ) → IsOn (n16 x) (Inode16.gte_key_byte x b)
unfolding Inode16.gte_key_byte
gte16-IsOn x b =
    found-IsOn (n16 x) (Inode16.result_at x) (scan_up x.keys b x.children_count 0)
      (λ i e. (let lt = scan_up-lt x.keys b x.children_count 0 i e in omega arith, refl))

lte16-IsOn : (x : Inode16.Inode16) (b : ℕ) → IsOn (n16 x) (Inode16.lte_key_byte x b)
unfolding Inode16.lte_key_byte
lte16-IsOn x b =
    found-IsOn (n16 x) (Inode16.result_at x) (scan_down x.keys b x.children_count)
      (λ i e. (scan_down-lt x.keys b x.children_count i e, refl))

-- The nearest byte above that of an index.
pub next_lem :
    (x : Inode) (i b : ℕ)
    → IsValid x
    → IsAt x i b
    → b < 256
    → IsGte (Maps x) (suc b) (next x i) × IsOn x (next x i)
unfolding next Inode48.next Inode256.next
next_lem (n4 x) i b v (lt, e) h = (
  subst (λ k. IsGte (Inode4.Maps x) (suc k) (Inode4.next x i)) e
      (Reads4.reads_in_four x v i lt 0).3,
  next4-IsOn x i,
)
next_lem (n16 x) i b v (lt, e) h = (
  subst (λ k. IsGte (Inode16.Maps x) (suc k) (Inode16.next x i)) e
      (Reads16.reads_in_sixteen x v i lt 0).3,
  next16-IsOn x i,
)
next_lem (n48 x) i b v e h =
    subst (λ k. IsGte (Inode48.Maps x) (suc b) (Inode48.next x k) × IsOn (n48 x) (Inode48.next x k))
      (sym e) ((Reads48.reads_in_forty_eight x 0 b (omega arith) h).3, byte-IsOn x _)
next_lem (n256 x) i b v e h =
    subst
      (λ k. IsGte (Inode256.Maps x) (suc b) (Inode256.next x k) × IsOn (n256 x) (Inode256.next x k))
      (sym e) ((Reads256.reads_in_all_bytes x 0 b (omega arith) h).3, all_bytes-IsOn x _)

-- The nearest byte below that of an index.
pub prior_lem :
    (x : Inode) (i b : ℕ)
    → IsValid x
    → IsAt x i b
    → b < 256
    → IsLt (Maps x) b (prior x i) × IsOn x (prior x i)
unfolding prior Inode48.prior Inode256.prior
prior_lem (n4 x) i b v (lt, e) h = (
  subst (λ k. IsLt (Inode4.Maps x) k (Inode4.prior x i)) e (Reads4.reads_in_four x v i lt 0).4,
  prior4-IsOn x i lt,
)
prior_lem (n16 x) i b v (lt, e) h = (
  subst (λ k. IsLt (Inode16.Maps x) k (Inode16.prior x i)) e
      (Reads16.reads_in_sixteen x v i lt 0).4,
  prior16-IsOn x i lt,
)
prior_lem (n48 x) i b v e h =
    subst (λ k. IsLt (Inode48.Maps x) b (Inode48.prior x k) × IsOn (n48 x) (Inode48.prior x k))
      (sym e) ((Reads48.reads_in_forty_eight x 0 b (omega arith) h).4, byte-IsOn x _)
prior_lem (n256 x) i b v e h =
    subst (λ k. IsLt (Inode256.Maps x) b (Inode256.prior x k) × IsOn (n256 x) (Inode256.prior x k))
      (sym e) ((Reads256.reads_in_all_bytes x 0 b (omega arith) h).4, all_bytes-IsOn x _)

-- The nearest byte from a given one on, in each direction.
pub gte_key_byte_lem :
    (x : Inode) (b : ℕ)
    → IsValid x
    → b < 256
    → IsGte (Maps x) b (gte_key_byte x b) × IsOn x (gte_key_byte x b)
unfolding gte_key_byte Inode48.gte_key_byte Inode256.gte_key_byte
gte_key_byte_lem (n4 x) b v h =
    ((Reads4.reads_in_four x v 0 (omega (arith, v.least)) b).5, gte4-IsOn x b)
gte_key_byte_lem (n16 x) b v h =
    ((Reads16.reads_in_sixteen x v 0 (omega (arith, v.least)) b).5, gte16-IsOn x b)
gte_key_byte_lem (n48 x) b v h =
    ((Reads48.reads_in_forty_eight x b 0 h (omega arith)).5, byte-IsOn x _)
gte_key_byte_lem (n256 x) b v h =
    ((Reads256.reads_in_all_bytes x b 0 h (omega arith)).5, all_bytes-IsOn x _)

pub lte_key_byte_lem :
    (x : Inode) (b : ℕ)
    → IsValid x
    → b < 256
    → IsLt (Maps x) (suc b) (lte_key_byte x b) × IsOn x (lte_key_byte x b)
unfolding lte_key_byte Inode48.lte_key_byte Inode256.lte_key_byte
lte_key_byte_lem (n4 x) b v h =
    ((Reads4.reads_in_four x v 0 (omega (arith, v.least)) b).6, lte4-IsOn x b)
lte_key_byte_lem (n16 x) b v h =
    ((Reads16.reads_in_sixteen x v 0 (omega (arith, v.least)) b).6, lte16-IsOn x b)
lte_key_byte_lem (n48 x) b v h =
    ((Reads48.reads_in_forty_eight x b 0 h (omega arith)).6, byte-IsOn x _)
lte_key_byte_lem (n256 x) b v h =
    ((Reads256.reads_in_all_bytes x b 0 h (omega arith)).6, all_bytes-IsOn x _)
