-- ===== src/Encode/Buffer/Laws.antt =====
-- Appending keeps the buffer well formed, and no block is leaked.
use unodb.Base.{
  ℕ, zero, suc, ◌+◌, ◌*◌, ◌≤◌, ◌<◌, ◌≡◌, ◌^◌, ◌↔◌, leb, sym, refl, ◌∙◌, ap, none, some, List, [],
  ◌++◌, length, take, drop, ltb, if◌then◌else◌, arith, inl, inr, Bool-cases, Option-cases,
  length-append, length-take, length-drop, take-append,
}
use native.Mathlib.Nat.{pow-suc, pow-succ'}
use native.Mathlib.Decide.{ℕ_discrete}
use mathlib.Core.Path.{subst}
use unodb.Base.{append_assoc, ltb→lt, some_inj}
use unodb.Encode.Buffer.{
  Allocator, Buffer, initial_buffer_capacity, memcpy, bit_ceil_from, bit_ceil, free_old,
  ensure_capacity, ensure_available, append_bytes, new, reset, get_key_view, destroy,
}

bit_ceil_from-le : (fuel p n : ℕ) → n ≤ p * 2 ^ fuel → n ≤ bit_ceil_from fuel p n
unfolding bit_ceil_from
bit_ceil_from-le zero p n h = omega arith
bit_ceil_from-le (suc fuel) p n h =
    ground (
      arith,
      bit_ceil_from-le fuel (2 * p) n (omega (arith, ap (λ (t : ℕ). p * t) (pow-suc 2 fuel))),
    )

lt_two_pow : (n : ℕ) → n < 2 ^ n
lt_two_pow zero = omega arith
lt_two_pow (suc n) = omega (arith, lt_two_pow n, pow-suc 2 n)

-- `std::bit_ceil` is large enough.
pub bit_ceil-le : (n : ℕ) → n ≤ bit_ceil n
unfolding bit_ceil
bit_ceil-le n = bit_ceil_from-le n 1 n (omega (arith, lt_two_pow n))

-- `p` is the least power of two that is not below `n`.
abbrev pub IsCeil : ℕ → ℕ → Type 0
IsCeil n p = (k : ℕ) × (p ≡ 2 ^ k) × (n ≤ p) × ((j : ℕ) → n ≤ 2 ^ j → k ≤ j)

bit_ceil_from-IsCeil :
    (fuel k n : ℕ)
    → n ≤ 2 ^ k * 2 ^ fuel
    → ((j : ℕ) → n ≤ 2 ^ j → k ≤ j)
    → IsCeil n (bit_ceil_from fuel (2 ^ k) n)
unfolding bit_ceil_from
bit_ceil_from-IsCeil zero k n h least = (k, refl, omega arith, least)
bit_ceil_from-IsCeil (suc fuel) k n h least =
    let next = pow-suc 2 k in
    elim (Bool-cases (leb n (2 ^ k))) [
      | inl fits ↦ rw (bit_ceil_from, fits) (k, refl, ground (arith, fits), least)
      | inr short ↦
          let above : 2 ^ k < n = ground (arith, short) in
          let rest =
            bit_ceil_from-IsCeil fuel (suc k) n
              (omega (
                arith,
                ap (λ (t : ℕ). 2 ^ k * t) (pow-suc 2 fuel),
                ap (λ (t : ℕ). t * 2 ^ fuel) next,
              ))
              (λ j enough. elim (ℕ_discrete k j) [
                | yes e ↦ absurd (omega (arith, ap (λ (t : ℕ). 2 ^ t) e))
                | no ne ↦ let low = least j enough in omega arith
              ]) in
          rw (bit_ceil_from, short, ← (pow-succ' 2 k)) rest
    ]

pub bit_ceil-IsCeil : (n : ℕ) → IsCeil n (bit_ceil n)
unfolding bit_ceil
bit_ceil-IsCeil n = bit_ceil_from-IsCeil n 0 n (omega (arith, lt_two_pow n)) (λ j h. omega arith)

IsCeil-unique : (n p q : ℕ) → IsCeil n p → IsCeil n q → p ≡ q
IsCeil-unique n p q (k, is, high, least) (k', is', high', least') =
    let low = least k' (omega arith) in
    let low' = least' k (omega arith) in
    let same : k ≡ k' = omega arith in is ∙ ap (λ (t : ℕ). 2 ^ t) same ∙ sym is'

-- The block has `cap` bytes, of which `off` are written, and it is on the heap exactly when it is
-- larger than the inline one.
pub record IsValid (b : Buffer) : Type 0 where
  pub block : length b.buf ≡ b.cap
  pub room : b.off ≤ b.cap
  pub inline : initial_buffer_capacity ≤ b.cap
  pub owner : b.owned ≡ (if ltb initial_buffer_capacity b.cap then 1 else 0)

pub length-memcpy :
    (dst : List ℕ) (at : ℕ) (bytes : List ℕ)
    → at + length bytes ≤ length dst
    → length (memcpy dst at bytes) ≡ length dst
length-memcpy dst at bytes h =
    rw (length-append, length-append, length-take, length-drop) (omega arith)

pub take-memcpy :
    (dst : List ℕ) (at : ℕ) (bytes : List ℕ)
    → at + length bytes ≤ length dst
    → take (at + length bytes) (memcpy dst at bytes) ≡ take at dst ++ bytes
take-memcpy dst at bytes h =
    let written : length (take at dst ++ bytes) ≡ at + length bytes =
      rw (length-append, length-take) (omega arith) in
    rw (← append_assoc (take at dst) bytes (drop (at + length bytes) dst))
      (take-append (at + length bytes) (take at dst ++ bytes) _ written)

-- `b'` has room for `size` bytes and holds what `b` holds.
pub record Grows (b : Buffer) (size : ℕ) (b' : Buffer) : Type 0 where
  pub valid : IsValid b'
  pub keeps : get_key_view b' ≡ get_key_view b
  pub fits : size ≤ b'.cap
  pub same : b'.off ≡ b.off

module _ (heap : Allocator) {b : Buffer} (valid : IsValid b) where
  grown-Grows :
      (m : ℕ) (tmp : List ℕ)
      → b.cap < m
      → length tmp ≡ bit_ceil m
      → Grows b m (record {
        buf = memcpy tmp 0 (take b.off b.buf);
        cap = bit_ceil m;
        off = b.off;
        owned = free_old b.cap (b.owned + 1);
        now = b.now + 1;
      })
  unfolding get_key_view
  grown-Grows m tmp h len =
      let enough = bit_ceil-le m in
      let copied : length (take b.off b.buf) ≡ b.off =
        rw length-take (omega (arith, valid.room, valid.block)) in
      record {
        valid = record {
          block =
              length-memcpy tmp 0 (take b.off b.buf) (omega (arith, valid.room, valid.block)) ∙ len;
          room = omega (arith, valid.room);
          inline = omega (arith, valid.inline);
          owner = ground (arith, valid.owner, valid.inline);
        };
        keeps = take-append b.off (take b.off b.buf) _ copied;
        fits = enough;
        same = refl;
      }

  ensure_capacity-Grows :
      (m : ℕ) {b' : Buffer} → b.cap < m → ensure_capacity heap b m ≡ some b' → Grows b m b'
  unfolding ensure_capacity
  ensure_capacity-Grows m {b'} small h = elim (Option-cases (heap.block b.now (bit_ceil m))) [
    | inl failed ↦ absurd (ground (arith, rw failed at h))
    | inr (tmp, got) ↦
        subst (Grows b m) (some_inj (rw got at h))
          (grown-Grows m tmp small (heap.length-block b.now (bit_ceil m) got))
  ]

  pub ensure_available-Grows :
      (req : ℕ) {b' : Buffer} → ensure_available heap b req ≡ some b' → Grows b (b.off + req) b'
  unfolding ensure_available
  ensure_available-Grows req h = elim (Bool-cases (ltb b.cap (b.off + req))) [
    | inl more ↦ ensure_capacity-Grows (b.off + req) (ltb→lt _ _ more) (rw more at h)
    | inr fits ↦
        subst (Grows b (b.off + req)) (some_inj (rw fits at h))
          (record { valid = valid; keeps = refl; fits = ground arith; same = refl })
  ]

  -- Appending bytes successfully to a valid buffer leaves a valid buffer that holds the old bytes
  -- and then the new ones.
  pub append_bytes-view :
      (bytes : List ℕ) {b' : Buffer}
      → append_bytes heap b bytes ≡ some b'
      → IsValid b' × (get_key_view b' ≡ get_key_view b ++ bytes)
  unfolding append_bytes get_key_view
  append_bytes-view bytes {b'} h = elim (Option-cases (ensure_available heap b (length bytes))) [
    | inl failed ↦ absurd (ground (arith, rw failed at h))
    | inr (c, e) ↦
        let g = ensure_available-Grows (length bytes) e in
        let room : c.off + length bytes ≤ length c.buf =
          omega (arith, g.fits, g.same, g.valid.block) in
        subst (λ r. IsValid r × (get_key_view r ≡ get_key_view b ++ bytes)) (some_inj (rw e at h))
          (
            record {
              block = length-memcpy c.buf c.off bytes room ∙ g.valid.block;
              room = omega (arith, g.valid.block);
              inline = g.valid.inline;
              owner = g.valid.owner;
            },
            take-memcpy c.buf c.off bytes room ∙ ap (λ v. v ++ bytes) g.keeps,
          )
  ]

new-IsValid :
    (ibuf : List ℕ) (now : ℕ) → length ibuf ≡ initial_buffer_capacity → IsValid (new ibuf now)
unfolding new
new-IsValid ibuf now h = ground arith

pub destroy-eq_zero : {b : Buffer} → IsValid b → destroy b ≡ 0
unfolding destroy
destroy-eq_zero v = ground arith

pub reset-IsValid : {b : Buffer} → IsValid b → IsValid (reset b) × (get_key_view (reset b) ≡ [])
unfolding reset get_key_view
reset-IsValid v =
    (record { block = v.block; room = omega arith; inline = v.inline; owner = v.owner }, refl)

module _ (heap : Allocator) (b : Buffer) (bytes : List ℕ) where
  fails_iff : (append_bytes heap b bytes ≡ none) ↔ (
      (b.cap < b.off + length bytes) × (heap.block b.now (bit_ceil (b.off + length bytes)) ≡ none))
  unfolding append_bytes ensure_capacity
  fails_iff = (λ h. ground arith, λ (more, failed). ground arith)

  -- Appending bytes to a buffer fails exactly where they do not fit behind the bytes that it holds
  -- and the allocation of a block fails whose size is the least power of two with room for both.
  pub append_bytes-bad_alloc : (append_bytes heap b bytes ≡ none) ↔ (
      (b.cap < b.off + length bytes)
      × (size : ℕ) × IsCeil (b.off + length bytes) size
      × (heap.block b.now size ≡ none))
  append_bytes-bad_alloc =
      let needed = b.off + length bytes in
      let ceil = bit_ceil-IsCeil needed in
      (
        λ h. let (more, failed) = fails_iff.0 h in (more, bit_ceil needed, ceil, failed),
        λ (more, size, is, failed). fails_iff.1 (
          more,
          subst (λ n. heap.block b.now n ≡ none)
              (IsCeil-unique needed size (bit_ceil needed) is ceil) failed,
        ),
      )
