-- ===== src/Node/Inode/Search.antt =====
-- The search in a node and the steps over its children, for nodes of all sizes.
use unodb.Base.{ℕ, suc, ◌<◌}
use unodb.Node.Spec.{IsFound, IsGte, IsLt}
use unodb.Node.Inode.{
  Inode, Maps, IsValid, IsAt, get_child, find_child, begin, last, next, prior, gte_key_byte,
  lte_key_byte,
}
use unodb.Node.Inode.Reads.{
  find_child-IsFound, begin_lem, last_lem, next_lem, prior_lem, gte_key_byte_lem, lte_key_byte_lem,
}

-- For a valid node of any size, a byte, and an index that stands for a second byte: find_child
-- gives the child of the first byte and an index at which get_child has it, or nothing where the
-- byte has none; begin and last give the least and the greatest byte that has a child; next and
-- prior give the nearest bytes above and below the second byte, or nothing where there is none;
-- gte_key_byte and lte_key_byte do so for the nearest byte from the first byte on, in each
-- direction.
pub reads_in_inode :
    (x : Inode) (b i k : ℕ)
    → IsValid x
    → IsAt x i k
    → b < 256
    → k < 256
    → IsFound (Maps x) (get_child x) b (find_child x b)
      × IsGte (Maps x) 0 (begin x)
      × IsLt (Maps x) 256 (last x)
      × IsGte (Maps x) (suc k) (next x i)
      × IsLt (Maps x) k (prior x i)
      × IsGte (Maps x) b (gte_key_byte x b)
      × IsLt (Maps x) (suc b) (lte_key_byte x b)
reads_in_inode x b i k v at small small' = (
  find_child-IsFound x b v small,
  (begin_lem x v).0,
  (last_lem x v).0,
  (next_lem x i k v at small').0,
  (prior_lem x i k v at small').0,
  (gte_key_byte_lem x b v small).0,
  (lte_key_byte_lem x b v small).0,
)
