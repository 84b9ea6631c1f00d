-- ===== src/Art/Insert/Errors.antt =====
-- Inserting a value that is too long.
use unodb.Base.{
  ℕ, ◌+◌, ◌<◌, ◌≡◌, refl, ◌∙◌, List, length, get_or, drop, inl, inr, ltb, true, false, Bool,
  Bool-cases, Option, Option-cases, none, some, arith,
}
use mathlib.Core.Path.{ap}
use Prim.Native.Nat.Ordering.{lt, eq, gt}
use Prim.Native.Nat.{Ordering}
use unodb.Encode.Bytes.{compare_keys}
use unodb.Node.KeyPrefix
use unodb.Node.KeyPrefix.{get_u64, get_shared_length}
use unodb.Node.Inode.{get_key_prefix, find_child}
use unodb.Art.{Tree, leaf, inode, Slot, Db, matches, get_from, get_internal}
use unodb.Art.Insert.{
  Allocation, Outcome, ok, length_error, ◌>>=◌, max_size, make_db_leaf_ptr, split_leaf,
  split_prefix, add_leaf, stored, store_below, insert_from, insert_internal,
}

-- A key that is there ends the call without an error, one that is not with `std::length_error`.
abbrev refused : {A : Type 0} → A → Option (List ℕ) → Outcome A
refused same none = length_error
refused same (some w) = ok same

abbrev is_eq : Ordering → Bool
is_eq o = elim o [ lt ↦ false | eq ↦ true | gt ↦ false ]

abbrev value_if : List ℕ → Bool → Option (List ℕ)
value_if value b = elim b [ true ↦ some value | false ↦ none ]

leaf_refused :
    (value : List ℕ) (s : Outcome Slot) (o : Ordering) (r : Outcome (Option Slot))
    → s ≡ length_error
    → r ≡ elim o [ lt ↦ stored s | eq ↦ ok none | gt ↦ stored s ]
    → r ≡ refused none (value_if value (is_eq o))
leaf_refused value s lt r e f = f ∙ ap stored e
leaf_refused value s eq r e f = f
leaf_refused value s gt r e f = f ∙ ap stored e

below_refused :
    (f : Option Slot → Option Slot) (o : Option (List ℕ))
    → f none ≡ none
    → (refused none o >>= λ r. ok (f r)) ≡ refused none o
below_refused f none e = refl
below_refused f (some w) e = ap ok e

module _ (new : Allocation) (k v : List ℕ) (long : max_size < length v) where
  make_db_leaf_ptr-length_error : make_db_leaf_ptr new k v ≡ length_error
  unfolding make_db_leaf_ptr
  make_db_leaf_ptr-length_error = ground arith

  insert_from-refused :
      (t : Tree) (node : ℕ) (r : List ℕ) (d : ℕ)
      → insert_from new k v node t r d ≡ refused none (get_from t k r)
  unfolding insert_from get_from matches split_leaf split_prefix add_leaf
  insert_from-refused (leaf key value) node r d =
      leaf_refused value (split_leaf new k v node key value r d) (compare_keys k key) _
        (rw (split_leaf, make_db_leaf_ptr-length_error) refl) refl
  insert_from-refused (inode x sub) node r d =
      let u = get_key_prefix x in
      let l = KeyPrefix.length u in
      elim (Bool-cases (ltb (get_shared_length u (get_u64 r)) l)) [
        | inl e ↦ rw (insert_from, get_from, e, split_prefix, make_db_leaf_ptr-length_error) refl
        | inr e ↦ elim (Option-cases (find_child x (get_or (drop l r) 0 0))) [
          | inl f ↦ rw (insert_from, get_from, e, f, add_leaf, make_db_leaf_ptr-length_error) refl
          | inr ((i, c), f) ↦
              rw
                (
                  insert_from,
                  get_from,
                  e,
                  f,
                  insert_from-refused (sub c) c (drop 1 (drop l r)) (d + l + 1),
                )
                (below_refused (store_below node x sub i) (get_from (sub c) k (drop 1 (drop l r)))
                  refl)
        ]
      ]

  root_refused :
      (s : Slot) (o : Option (List ℕ))
      → insert_from new k v s.ptr s.tree k 0 ≡ refused none o
      → insert_internal new (record { root = some s }) k v
        ≡ refused (record { root = some s }, false) o
  unfolding insert_internal
  root_refused s none e = rw (insert_internal, e) refl
  root_refused s (some w) e = rw (insert_internal, e) refl

  insert_refused :
      (o : Option Slot)
      → insert_internal new (record { root = o }) k v
        ≡ refused (record { root = o }, false) (get_internal (record { root = o }) k)
  unfolding insert_internal get_internal
  insert_refused none = rw (insert_internal, make_db_leaf_ptr-length_error) refl
  insert_refused (some s) =
      root_refused s (get_from s.tree k k) (insert_from-refused s.tree s.ptr k 0)

  -- Inserting a value that is longer than the maximum size ends with std::length_error where the
  -- key has no value, and leaves the database as it is, with the answer that it did not insert,
  -- where it has one.
  pub insert_internal-length_error :
      (db : Db)
      → insert_internal new db k v
        ≡ elim (get_internal db k) [ none ↦ length_error | some w ↦ ok (db, false) ]
  insert_internal-length_error db = insert_refused db.root ∙ final (get_internal db k)
    where
      final :
          (o : Option (List ℕ))
          → refused {A = Db × Bool} (db, false) o
            ≡ elim o [ none ↦ length_error | some w ↦ ok (db, false) ]
      final none = refl
      final (some w) = refl
