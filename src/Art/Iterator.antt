-- ===== src/Art/Iterator.antt =====
-- `db::iterator` (art.hpp). Its stack is a list with the top first. `none` is a path that the code
-- takes to be impossible. The methods for the two directions are the same but for the node's
-- `begin` and `next`, or `last` and `prior`, which are parameters here.
pub mod Direction
pub mod Path
pub mod Rank
pub mod Scan
pub mod Seek
pub mod Ranges
pub mod Canonical
pub mod Laws
pub mod Walk
use Prim.Native.Nat.Ordering.{lt, eq, gt}
use Prim.Native.Nat.{Ordering}
use unodb.Base.{
  ℕ, zero, suc, List, [], ◌∷◌, ◌++◌, length, take, drop, get_or, Option, none, some, Bool, true,
  false, ltb, ◌+◌, ◌-◌, ◌>>=◌,
}
use unodb.Encode.Bytes.{compare_keys}
use unodb.Node.{IterResult}
use unodb.Node.KeyPrefix
use unodb.Node.KeyPrefix.{byte_at, get_u64, get_shared_length}
use unodb.Node.Inode.{Inode, get_key_prefix, find_child, get_child, gte_key_byte, lte_key_byte}
use unodb.Node.Inode
use unodb.Art.{Tree, leaf, inode, Db}

-- An `iter_result` with its node: the pointer, and the tree that it leads to.
pub record StackEntry : Type 0 where
  pub node : ℕ
  pub tree : Tree
  pub key_byte : ℕ
  pub child_index : ℕ
  pub prefix : ℕ

-- `keybuf` has the bytes of the key buffer.
pub record Iterator : Type 0 where
  pub stack : List StackEntry
  pub keybuf : List ℕ

-- `invalidate`
abbrev pub end_iterator : Iterator
end_iterator = record { stack = []; keybuf = [] }

-- The bytes of a key prefix, from byte `i` on.
unfoldable pub prefix_bytes : ℕ → ℕ → ℕ → List ℕ
prefix_bytes u i zero = []
prefix_bytes u i (suc n) = byte_at u i ∷ prefix_bytes u (suc i) n

abbrev pub push : Iterator → ℕ → Tree → IterResult → Iterator
push it node tree e = record {
  stack =
      record {
        node = node;
        tree = tree;
        key_byte = e.key_byte;
        child_index = e.child_index;
        prefix = e.prefix;
      }
      ∷ it.stack;
  keybuf = (it.keybuf ++ prefix_bytes e.prefix 0 (KeyPrefix.length e.prefix)) ++ (e.key_byte ∷ []);
}

abbrev pub push_leaf : Iterator → ℕ → Tree → Iterator
push_leaf it node tree = record {
  stack =
      record { node = node; tree = tree; key_byte = 255; child_index = 255; prefix = 0 } ∷ it.stack;
  keybuf = it.keybuf;
}

-- `keybuf_.pop`
abbrev pub keybuf_pop : List ℕ → ℕ → List ℕ
keybuf_pop buf n = take (length buf - n) buf

-- `left_most_traversal`, with the node's `begin`; `right_most_traversal`, with its `last`.
unfoldable pub traversal : (Inode → Option IterResult) → Tree → ℕ → Iterator → Option Iterator
traversal first (leaf key value) node it = some (push_leaf it node (leaf key value))
traversal first (inode x sub) node it = elim (first x) [
  | none ↦ none
  | some e ↦
      let child = get_child x e.child_index in
      traversal first (sub child) child (push it node (inode x sub) e)
]

-- The loop of `next`, with the node's `next` and `begin`; that of `prior`, with the others.
unfoldable pub advance :
    (Inode → Option IterResult)
    → (Inode → ℕ → Option IterResult)
    → List StackEntry
    → List ℕ
    → Option Iterator
advance first step [] buf = some (record { stack = []; keybuf = buf })
advance first step (e ∷ stack) buf =
    let popped = keybuf_pop buf (KeyPrefix.length e.prefix) in
    let rest = advance first step stack popped in
    elim e.tree [
      | leaf key value ↦ rest
      | inode x sub ↦ elim (step x e.child_index) [
        | none ↦ rest
        | some e2 ↦
            let child = get_child x e2.child_index in
            traversal first (sub child) child
              (push (record { stack = stack; keybuf = popped }) e.node (inode x sub) e2)
      ]
    ]

abbrev pub left_most_traversal : Tree → ℕ → Iterator → Option Iterator
left_most_traversal = traversal Inode.begin

abbrev pub right_most_traversal : Tree → ℕ → Iterator → Option Iterator
right_most_traversal = traversal Inode.last

abbrev pub next : Iterator → Option Iterator
next it = advance Inode.begin Inode.next it.stack it.keybuf

abbrev pub prior : Iterator → Option Iterator
prior it = advance Inode.last Inode.prior it.stack it.keybuf

abbrev pub from_root : (Tree → ℕ → Iterator → Option Iterator) → Db → Option Iterator
from_root traverse db = elim db.root [
  | none ↦ some end_iterator
  | some s ↦ traverse s.tree s.ptr end_iterator
]

abbrev pub first : Db → Option Iterator
first db = from_root left_most_traversal db

abbrev pub last : Db → Option Iterator
last db = from_root right_most_traversal db

abbrev pub valid : Iterator → Bool
valid it = elim it.stack [ [] ↦ false | e ∷ stack ↦ true ]

-- `get_key` and `get_val`, for an iterator whose top is a leaf.
unfoldable pub current : Iterator → Option (List ℕ × List ℕ)
current it = elim it.stack [
  | [] ↦ none
  | e ∷ stack ↦ elim e.tree [ leaf key value ↦ some (key, value) | inode x sub ↦ none ]
]

-- The loop of `seek` that looks for a parent with a sibling.
unfoldable pub sibling :
    (Inode → Option IterResult)
    → (Inode → ℕ → Option IterResult)
    → List StackEntry
    → List ℕ
    → Option Iterator
sibling first step [] buf = some (record { stack = []; keybuf = buf })
sibling first step (e ∷ stack) buf =
    let rest = sibling first step stack (keybuf_pop buf (KeyPrefix.length e.prefix)) in
    elim e.tree [
      | leaf key value ↦ none
      | inode x sub ↦ elim (step x e.child_index) [
        | none ↦ rest
        | some cnxt ↦
            let nchild = get_child x e.child_index in
            traversal first (sub nchild) nchild (record { stack = e ∷ stack; keybuf = buf })
      ]
    ]

-- `if (!empty()) pop()` before this loop
abbrev pub pop_if_any : Iterator → Iterator
pop_if_any it = elim it.stack [
  | [] ↦ it
  | e ∷ stack ↦ record { stack = stack; keybuf = keybuf_pop it.keybuf (KeyPrefix.length e.prefix) }
]

-- Where the key byte has no child: the child of the nearest byte `nxt`, or of a parent's sibling.
abbrev pub beside_missing :
    (Inode → Option IterResult)
    → (Inode → ℕ → Option IterResult)
    → Option IterResult
    → Inode
    → (ℕ → Tree)
    → ℕ
    → Iterator
    → Option Iterator
beside_missing first step nxt x sub node it = elim nxt [
  | none ↦ let popped = pop_if_any it in sibling first step popped.stack popped.keybuf
  | some tmp ↦
      let child = get_child x tmp.child_index in
      traversal first (sub child) child (push it node (inode x sub) tmp)
]

abbrev pub unmatched : Option Iterator → Option (Iterator × Bool)
unmatched none = none
unmatched (some it) = some (it, false)

-- The loop of `seek`. The result has the iterator and `match`.
unfoldable pub seek_from : Bool → List ℕ → Tree → ℕ → List ℕ → Iterator → Option (Iterator × Bool)
seek_from fwd k (leaf key value) node remaining_key it =
    let on_leaf = push_leaf it node (leaf key value) in
    elim (compare_keys k key) [
      | lt ↦ unmatched (elim fwd [ true ↦ some on_leaf | false ↦ prior on_leaf ])
      | eq ↦ some (on_leaf, true)
      | gt ↦ unmatched (elim fwd [ true ↦ next on_leaf | false ↦ some on_leaf ])
    ]
seek_from fwd k (inode x sub) node remaining_key it =
    let key_prefix = get_key_prefix x in
    let key_prefix_length = KeyPrefix.length key_prefix in
    let shared_length = get_shared_length key_prefix (get_u64 remaining_key) in
    let before = ltb (get_or remaining_key shared_length 0) (byte_at key_prefix shared_length) in
    let remaining = drop key_prefix_length remaining_key in
    let key_byte = get_or remaining 0 0 in
    let leftmost = left_most_traversal (inode x sub) node it in
    let rightmost = right_most_traversal (inode x sub) node it in
    elim (ltb shared_length key_prefix_length) [
      | true ↦ unmatched (elim fwd [
        | true ↦ elim before [ true ↦ leftmost | false ↦ rightmost >>= next ]
        | false ↦ elim before [ true ↦ leftmost >>= prior | false ↦ rightmost ]
      ])
      | false ↦ elim (find_child x key_byte) [
        | none ↦ unmatched (elim fwd [
          | true ↦ beside_missing Inode.begin Inode.next (gte_key_byte x key_byte) x sub node it
          | false ↦ beside_missing Inode.last Inode.prior (lte_key_byte x key_byte) x sub node it
        ])
        | some (i, c) ↦
            let e : IterResult = record {
              key_byte = key_byte;
              child_index = i;
              prefix = key_prefix;
            } in
            seek_from fwd k (sub c) c (drop 1 remaining) (push it node (inode x sub) e)
      ]
    ]

unfoldable pub seek : Bool → List ℕ → Db → Option (Iterator × Bool)
seek fwd search_key db = elim db.root [
  | none ↦ some (end_iterator, false)
  | some s ↦ seek_from fwd search_key s.tree s.ptr search_key end_iterator
]

-- The loop of `scan`, `scan_from` and `scan_range`: `fn` is called on each visited entry and halts
-- the loop where it gives `true`, and `within` is the test of the bound. The result has the
-- visited entries in order. The loop is cut off where the fuel ends.
unfoldable pub visit :
    (Iterator → Option Iterator)
    → (List ℕ → Bool)
    → (List ℕ × List ℕ → Bool)
    → ℕ
    → Iterator
    → Option (List (List ℕ × List ℕ))
visit step within fn zero it = none
visit step within fn (suc fuel) it =
    let rest = elim (step it) as (λ o. Option (List (List ℕ × List ℕ))) [
      | none ↦ none
      | some it' ↦ visit step within fn fuel it'
    ] in
    elim (current it) [
      | none ↦ some []
      | some e ↦ elim (within e.0) [
        | false ↦ some []
        | true ↦ elim (fn e) [ true ↦ some (e ∷ []) | false ↦ rest >>= λ es. some (e ∷ es) ]
      ]
    ]

abbrev pub unbounded : List ℕ → Bool
unbounded key = true

unfoldable pub scan : (List ℕ × List ℕ → Bool) → Bool → ℕ → Db → Option (List (List ℕ × List ℕ))
scan fn fwd fuel db = elim fwd [
  | true ↦ do it ← first db; visit next unbounded fn fuel it
  | false ↦ do it ← last db; visit prior unbounded fn fuel it
]

unfoldable pub scan_from :
    List ℕ → (List ℕ × List ℕ → Bool) → Bool → ℕ → Db → Option (List (List ℕ × List ℕ))
scan_from from_key fn fwd fuel db = do
  (it, match) ← seek fwd from_key db
  visit (elim fwd [ true ↦ next | false ↦ prior ]) unbounded fn fuel it

-- `it.cmp(to_key) < 0`
abbrev pub is_less : List ℕ → List ℕ → Bool
is_less to_key key = elim (compare_keys key to_key) [ lt ↦ true | eq ↦ false | gt ↦ false ]

-- `it.cmp(to_key) > 0`
abbrev pub is_greater : List ℕ → List ℕ → Bool
is_greater to_key key = elim (compare_keys key to_key) [ lt ↦ false | eq ↦ false | gt ↦ true ]

unfoldable pub scan_range :
    List ℕ → List ℕ → (List ℕ × List ℕ → Bool) → ℕ → Db → Option (List (List ℕ × List ℕ))
scan_range from_key to_key fn fuel db = elim (compare_keys from_key to_key) [
  | lt ↦ do (it, match) ← seek true from_key db; visit next (is_less to_key) fn fuel it
  | eq ↦ some []
  | gt ↦ do (it, match) ← seek false from_key db; visit prior (is_greater to_key) fn fuel it
]
