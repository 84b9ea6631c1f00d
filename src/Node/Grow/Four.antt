-- ===== src/Node/Grow/Four.antt =====
-- From four children to five.
use unodb.Base.{ℕ, suc, ◌+◌, ◌-◌, ◌≤◌, ◌<◌, ◌≡◌, arith}
use mathlib.Core.Path.{subst}
use unodb.Node.{Leaf, key_byte_at}
use unodb.Node.Spec.{IsAdded}
use unodb.Node.Sorted.Arrays.{copy-insert_at}
use unodb.Node.Sorted.Entries.{IsPlace}
use unodb.Node.Sorted.Changed.{inserted}
use unodb.Node.Inode4
use unodb.Node.Inode4.{Inode4, get_insert_pos}
use unodb.Node.Inode4.Changes.{get_insert_pos-IsPlace}
use unodb.Node.Inode16
use unodb.Node.Inode16.{Inode16}
use unodb.Node.Grow.{init_inode16}

-- The node of sixteen that is made of a valid node of four children and a leaf, whose key byte has
-- no child there, is valid, and maps this byte to the leaf and all else as the old node, whatever
-- its memory held.
pub init_inode16-IsAdded :
    (raw : Inode16) (x : Inode4) (child : Leaf) (depth : ℕ)
    → Inode4.IsValid x
    → x.children_count ≡ Inode4.capacity
    → key_byte_at child depth < 256
    → 0 < child.address
    → ((c : ℕ) → ¬ Inode4.Maps x (key_byte_at child depth) c)
    → Inode16.IsValid (init_inode16 raw x child depth)
      × IsAdded
          (Inode4.Maps x)
          (key_byte_at child depth)
          child.address
          (Inode16.Maps (init_inode16 raw x child depth))
unfolding init_inode16
init_inode16-IsAdded raw x child depth v full byte leaf new =
    let b = key_byte_at child depth in
    let pos = get_insert_pos x b 4 in
    let place : IsPlace x.children_count x.keys b pos =
      subst (λ m. IsPlace x.children_count x.keys b (get_insert_pos x b m)) full
        (get_insert_pos-IsPlace x b v new) in
    let whole : pos ≤ 4 = omega (arith, place.le, full) in
    let (keyed, added) =
      inserted v.keyed place byte leaf
        (λ i h.
          copy-insert_at raw.keys x.keys pos (Inode4.capacity + 1 - suc pos) b i (omega arith))
        (λ i h.
          copy-insert_at raw.children x.children pos (Inode4.capacity + 1 - suc pos) child.address i
            (omega arith))
        (omega (arith, full)) in
    (record { keyed = keyed; least = omega arith; most = omega arith }, added)
