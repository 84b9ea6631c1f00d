-- ===== src/Encode/Buffer.antt =====
-- The growing byte buffer of `key_encoder` (art_common.hpp) and `key_buffer` (art_internal.hpp):
-- both hold `buf`, `cap` and `off`, and grow through `detail::ensure_capacity`.
pub mod Laws
use unodb.Base.{
  ◌>>=◌, ℕ, zero, suc, ◌+◌, ◌-◌, ◌*◌, ◌≡◌, refl, Option, none, some, List, [], ◌∷◌, ◌++◌, length,
  take, drop, ltb, leb, if◌then◌else◌,
}

-- `detail::allocate_aligned` (heap.hpp): a block of the size asked for, whose bytes are whatever
-- the memory held, or `std::bad_alloc`, here `none`. The result may differ from call to call: `now`
-- counts the calls.
pub record Allocator : Type 0 where
  pub block : ℕ → ℕ → Option (List ℕ)
  pub length-block : (now size : ℕ) {b : List ℕ} → block now size ≡ some b → length b ≡ size

-- `buf` is the block that the source's `buf` points to. `owned` counts the heap blocks that the
-- object has allocated and not yet freed, and `now` the allocations made so far.
pub record Buffer : Type 0 where
  pub buf : List ℕ
  pub cap : ℕ
  pub off : ℕ
  pub owned : ℕ
  pub now : ℕ

abbrev pub initial_buffer_capacity : ℕ
initial_buffer_capacity = 256

-- `std::memcpy(dst + at, bytes, length bytes)`
abbrev pub memcpy : List ℕ → ℕ → List ℕ → List ℕ
memcpy dst at bytes = take at dst ++ (bytes ++ drop (at + length bytes) dst)

-- `std::bit_ceil`: the least power of two that is not below `n`, found by doubling from `p`.
unfoldable pub bit_ceil_from : ℕ → ℕ → ℕ → ℕ
bit_ceil_from zero p n = p
bit_ceil_from (suc fuel) p n =
    let rest = bit_ceil_from fuel (2 * p) n in if leb n p then p else rest

unfoldable pub bit_ceil : ℕ → ℕ
unfolding bit_ceil_from
bit_ceil n = bit_ceil_from n 1 n

-- A block is freed iff it was allocated: the first `initial_buffer_capacity` bytes are inline.
abbrev pub free_old : ℕ → ℕ → ℕ
free_old cap owned = if ltb initial_buffer_capacity cap then owned - 1 else owned

module _ (heap : Allocator) where
  unfoldable pub ensure_capacity : Buffer → ℕ → Option Buffer
  ensure_capacity b min_capacity = do
    let asize = bit_ceil min_capacity
    tmp ← heap.block b.now asize
    some (record {
      buf = memcpy tmp 0 (take b.off b.buf);
      cap = asize;
      off = b.off;
      owned = free_old b.cap (b.owned + 1);
      now = b.now + 1;
    })

  unfoldable pub ensure_available : Buffer → ℕ → Option Buffer
  unfolding ensure_capacity
  ensure_available b req =
      if ltb b.cap (b.off + req) then ensure_capacity b (b.off + req) else some b

  -- `key_encoder::append_bytes`
  unfoldable pub append_bytes : Buffer → List ℕ → Option Buffer
  unfolding ensure_available
  append_bytes b bytes = do
    let sz = length bytes
    b' ← ensure_available b sz
    some (record b' { buf = memcpy b'.buf b'.off bytes; off = b'.off + sz })

  -- `key_buffer::push` of one byte
  unfoldable pub push_byte : Buffer → ℕ → Option Buffer
  unfolding ensure_available
  push_byte b v = do
    b' ← ensure_available b 1
    some (record b' { buf = memcpy b'.buf b'.off (v ∷ []); off = b'.off + 1 })

  -- `key_buffer::push` of a view
  unfoldable pub push : Buffer → List ℕ → Option Buffer
  unfolding ensure_available
  push b v = do
    let n = length v
    b' ← ensure_available b n
    some (record b' { buf = memcpy b'.buf b'.off v; off = b'.off + n })

-- The default constructor: `ibuf` holds whatever the memory held.
unfoldable pub new : List ℕ → ℕ → Buffer
new ibuf now = record { buf = ibuf; cap = initial_buffer_capacity; off = 0; owned = 0; now = now }

unfoldable pub reset : Buffer → Buffer
reset b = record b { off = 0 }

unfoldable pub pop : Buffer → ℕ → Buffer
pop b n = record b { off = b.off - n }

unfoldable pub get_key_view : Buffer → List ℕ
get_key_view b = take b.off b.buf

-- The heap blocks left when the destructor has run.
unfoldable pub destroy : Buffer → ℕ
destroy b = free_old b.cap b.owned
