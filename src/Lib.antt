-- ===== src/Lib.antt =====
-- UnoDB is a C++ library of adaptive radix trees (ART). An application encodes its values into
-- byte strings with `key_encoder` (art_common.hpp), so that comparing the bytes compares the
-- values; the tree `db` (art.hpp) stores these keys over nodes of four sizes
-- (art_internal_impl.hpp), and its concurrent variant protects each node with an `optimistic_lock`
-- (optimistic_lock.hpp).
--
-- What each module models, with the names of the code in the comments of its definitions:
-- - Base: lists, Boolean tests, arrays and signed integers over the native numbers. A w-bit
--   integer is a natural number, with its wrap-around written as a remainder.
-- - Encode.Bytes: the object representation of integers, `bswap` (portability_builtins.hpp) and
--   `compare` (art_internal.hpp). Little-endian machines only, as the source asserts.
-- - Encode.Buffer: `buf`, `cap` and `off` of `key_encoder` and `key_buffer` (art_internal.hpp), and
--   `ensure_capacity` (art_common.hpp), with the bytes of the block. `Allocator` stands for the
--   memory allocation, which may fail. The doubling of `bit_ceil` runs on fuel `n`, which is
--   enough since `n < 2 ^ n`.
-- - Encode.Integral, Encode.Encoder, Encode.Decoder: the `encode`, `encode_text` and `decode`
--   overloads (art_common.hpp). One definition stands for the overloads of `std::uint16_t`,
--   `std::uint32_t` and `std::uint64_t`, with the number of bytes as an argument. The overloads of
--   floating-point numbers are not modelled.
-- - Lock: `optimistic_lock` (optimistic_lock.hpp) of the debug build, whose lock word is a 64-bit
--   number. Lock.System runs any number of threads over one lock and the data that it protects, an
--   operation or an access at a time in any order; memory orderings weaker than sequential
--   consistency are not modelled. `read_critical_section` and `write_guard` are the states of a
--   thread. One action is one round of the loop of `try_read_lock`, so that a lock that stays
--   write-locked is retried. `releases` counts the write locks given up by `write_unlock`; the
--   theorems ask that there are fewer than 2 ^ 62, since then the version counter of the word has
--   not wrapped round.
-- - Node: the internal nodes of the tree (art_internal_impl.hpp), one module for each of
--   `basic_inode_4`, `basic_inode_16`, `basic_inode_48` and `basic_inode_256`, as compiled for
--   x86-64. Arrays are functions from indices; node pointers are tagged words with 0 for `nullptr`;
--   memory that the code does not initialise is an argument. Node.Simd has the vector instructions,
--   Node.Sorted, Node.Bytes and Node.Slots the loops and the arrays, and Node.Spec what every node
--   promises of the map from key bytes to children: the relation `Maps` of each module. Node.Grow
--   and Node.Shrink make a node of another size, and Node.Split puts a node of four over another
--   node. The search of `basic_inode_48` for an empty place is the loop for machines without vector
--   extensions. The operations that delete a leaf give the address that they reclaim as a second
--   result. Node.Inode has the operations that dispatch on the size, `basic_inode_impl` and
--   `basic_inode`. `dump` is not modelled.
-- - Node.KeyPrefix and Node.Pointer: the machine words of `key_prefix` (art_internal_impl.hpp) and
--   `basic_node_ptr` (art_internal.hpp). A mask of the low bits is a remainder; `|` and `^` are
--   Base.Bits. The recursion of `mask_bits_needed` runs on the count as fuel, which is enough since
--   each round halves it.
-- - Art: `db` (art.hpp). A tree is a leaf or a node with the trees that its child pointers lead to; a
--   store through a pointer to a child pointer gives the node another child. Art has `get_internal`,
--   Art.Delete has the deletion of all nodes with the pointers that it frees in order, Art.Insert and
--   Art.Remove are the two operations with `add_or_choose_subtree` and
--   `remove_or_choose_subtree`, and Art.Runs sequences of them. `Allocation` has the addresses and
--   the memory that the allocator gives to a call; an allocation that fails, with `std::bad_alloc`,
--   is not modelled, and neither are the statistics. `Outcome` has the results, `std::length_error`,
--   and loops that would leave an array. Art.Entries says what makes a tree well-formed: `IsDb` for a
--   database. The theorems are about keys of eight bytes, which is what `std::uint64_t` keys are, so
--   that every key prefix fits in its word.
-- - Art.Iterator: `db::iterator`, `scan`, `scan_from` and `scan_range`. The stack is a list. The two
--   directions share their definitions, with the node's operations as parameters;
--   Art.Iterator.Direction is the interface that the proofs use, with the instances `forward` and
--   `backward`. The loops of the scans run on fuel, one for each visited entry; more than 256 ^ 8 is
--   enough, since there are no more keys. The key buffer is its bytes, without its growth.
-- - Mutex: `mutex_db` (mutex_art.hpp), a database and the thread that has locked its mutex. Threads
--   call it in any interleaving: a call locks the mutex, reads the database, leaves what it computes
--   from it, and unlocks the mutex, each a step of its own, and `get` hands the lock on with a value
--   that it found. A thread that waits for the mutex takes no step.
-- - Qsbr: the packed state word of quiescent-state-based reclamation, `qsbr_epoch` and `qsbr_state`
--   (qsbr.hpp, qsbr.cpp).
-- - Tests: the theorems at concrete inputs.
--
-- Not modelled: the concurrent tree (olc_art.hpp), the protocol of the memory reclamation (qsbr.hpp,
-- qsbr.cpp), and the support headers. `seek` of a key that is not there is modelled without a theorem.
pub mod Art
pub mod Base
pub mod Encode
pub mod Lock
pub mod Mutex
pub mod Node
pub mod Qsbr
pub mod Tests
