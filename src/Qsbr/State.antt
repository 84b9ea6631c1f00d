-- ===== src/Qsbr/State.antt =====
-- `qsbr_epoch` and `qsbr_state` (qsbr.hpp): the global state in one 64-bit word. The threads in the
-- previous epoch are bits 0 to 29, all threads bits 32 to 61, and the epoch bits 62 and 63. A mask
-- of low bits is a remainder, and a shift a division or a product.
pub mod Laws
use unodb.Base.Bits.{bit_or}
use unodb.Base.{ℕ, ◌+◌, ◌-◌, ◌*◌, ◌/◌, ◌%◌, ◌^◌, ◌≤◌, ◌<◌, ◌≡◌, Bool, ltb, if◌then◌else◌}

-- `qsbr_epoch::max_count`
abbrev pub max_count : ℕ
max_count = 4

unfoldable pub advance : ℕ → ℕ → ℕ
advance epoch by = (epoch + by) % max_count

abbrev pub max_qsbr_threads : ℕ
max_qsbr_threads = 2 ^ 30 - 1

unfoldable pub get_epoch : ℕ → ℕ
get_epoch word = word / 2 ^ 62

unfoldable pub get_thread_count : ℕ → ℕ
get_thread_count word = word / 2 ^ 32 % 2 ^ 30

unfoldable pub get_threads_in_previous_epoch : ℕ → ℕ
get_threads_in_previous_epoch word = word % 2 ^ 30

unfoldable pub single_thread_mode : ℕ → Bool
unfolding get_thread_count
single_thread_mode word = ltb (get_thread_count word) 2

unfoldable pub make_from_epoch : ℕ → ℕ
make_from_epoch epoch = epoch * 2 ^ 62

abbrev pub one_thread_in_count : ℕ
one_thread_in_count = 2 ^ 32

abbrev pub one_thread_and_one_in_previous : ℕ
one_thread_and_one_in_previous = 2 ^ 32 + 1

unfoldable pub inc_thread_count : ℕ → ℕ
inc_thread_count word = (word + one_thread_in_count) % 2 ^ 64

unfoldable pub dec_thread_count : ℕ → ℕ
dec_thread_count word = (word + 2 ^ 64 - one_thread_in_count) % 2 ^ 64

unfoldable pub inc_thread_count_and_threads_in_previous_epoch : ℕ → ℕ
inc_thread_count_and_threads_in_previous_epoch word =
    (word + one_thread_and_one_in_previous) % 2 ^ 64

unfoldable pub dec_thread_count_and_threads_in_previous_epoch : ℕ → ℕ
dec_thread_count_and_threads_in_previous_epoch word =
    (word + 2 ^ 64 - one_thread_and_one_in_previous) % 2 ^ 64

-- The code asserts that no thread is in the previous epoch.
unfoldable pub inc_epoch_reset_previous : ℕ → ℕ
unfolding get_epoch make_from_epoch advance
inc_epoch_reset_previous word =
    let old_epoch = get_epoch word in
    let new_epoch_in_word = make_from_epoch (advance old_epoch 1) in
    let new_thread_count_in_word = word / 2 ^ 32 % 2 ^ 30 * 2 ^ 32 in
    let new_threads_in_previous = word / 2 ^ 32 % 2 ^ 30 in
    bit_or 64 (bit_or 64 new_epoch_in_word new_thread_count_in_word) new_threads_in_previous

-- The code asserts that one thread is in the previous epoch, the one that leaves.
unfoldable pub inc_epoch_dec_thread_count_reset_previous : ℕ → ℕ
unfolding get_epoch get_thread_count make_from_epoch advance
inc_epoch_dec_thread_count_reset_previous word =
    let old_thread_count = get_thread_count word in
    let new_word_with_epoch = make_from_epoch (advance (get_epoch word) 1) in
    let new_thread_count = old_thread_count - 1 in
    let new_word_with_thread_count = new_thread_count * 2 ^ 32 in
    let new_threads_in_previous = new_thread_count in
    bit_or 64 (bit_or 64 new_word_with_epoch new_word_with_thread_count) new_threads_in_previous

unfoldable pub dec_thread_count_threads_in_previous_epoch_maybe_advance : ℕ → Bool → ℕ
unfolding inc_epoch_dec_thread_count_reset_previous dec_thread_count_and_threads_in_previous_epoch
dec_thread_count_threads_in_previous_epoch_maybe_advance word advance_epoch =
    if advance_epoch
    then inc_epoch_dec_thread_count_reset_previous word
    else dec_thread_count_and_threads_in_previous_epoch word

-- The word after `atomic_fetch_dec_threads_in_previous_epoch`, which returns the old word.
unfoldable pub atomic_fetch_dec_threads_in_previous_epoch : ℕ → ℕ
atomic_fetch_dec_threads_in_previous_epoch word = (word + 2 ^ 64 - 1) % 2 ^ 64

-- `word` holds these three fields, of which the last is not above the second.
pub record IsState (word epoch threads previous : ℕ) : Type 0 where
  pub word_size : word < 2 ^ 64
  pub epoch_is : get_epoch word ≡ epoch
  pub threads_is : get_thread_count word ≡ threads
  pub previous_is : get_threads_in_previous_epoch word ≡ previous
  pub invariant : previous ≤ threads
