-- ===== src/Node/Shrink/Five.antt =====
-- From five children to four.
use unodb.Base.{ℕ, suc, ◌-◌, ◌<◌, ◌≡◌, refl, arith}
use unodb.Node.Spec.{IsRemoved}
use unodb.Node.Sorted.Arrays.{copy-remove_at}
use unodb.Node.Sorted.Changed.{removed}
use unodb.Node.Inode4
use unodb.Node.Inode4.{Inode4}
use unodb.Node.Inode16
use unodb.Node.Inode16.{Inode16}
use unodb.Node.Shrink.{init_inode4}

-- The node of four that is made of a valid node of sixteen with five children, without the child
-- at an index, is valid, maps all other bytes as the old node and the byte of the index to
-- nothing, whatever its memory held, and reclaims the child at the index.
pub init_inode4-IsRemoved :
    (raw : Inode4) (x : Inode16) (i : ℕ)
    → Inode16.IsValid x
    → x.children_count ≡ Inode16.min_size
    → i < x.children_count
    → Inode4.IsValid (init_inode4 raw x i).0
      × IsRemoved (Inode16.Maps x) (x.keys i) (Inode4.Maps (init_inode4 raw x i).0)
      × Inode16.Maps x (x.keys i) (init_inode4 raw x i).1
unfolding init_inode4
init_inode4-IsRemoved raw x i v least lt =
    let left = Inode16.min_size - suc i in
    let (keyed, gone) =
      removed v.keyed lt (λ j h. copy-remove_at raw.keys x.keys i left j (omega arith))
        (λ j h. copy-remove_at raw.children x.children i left j (omega arith))
        (omega (arith, least)) in
    (record { keyed = keyed; least = omega arith; most = omega arith }, gone, (i, lt, refl, refl))
