-- ===== src/Qsbr/State/Laws.antt =====
-- What the updates of the state word do to its fields, and that no field runs into another.
use unodb.Base.{ℕ, ◌+◌, ◌-◌, ◌*◌, ◌/◌, ◌%◌, ◌^◌, ◌<◌, ◌≤◌, ◌≡◌, sym, ap, ◌∙◌, true, false, arith}
use unodb.Base.Bits.{bit_or, bit_or-add_comm}
use mathlib.Core.Path.{subst}
use unodb.Qsbr.State.{
  max_count, max_qsbr_threads, IsState, get_epoch, get_thread_count, get_threads_in_previous_epoch,
  advance, make_from_epoch, inc_thread_count, dec_thread_count,
  inc_thread_count_and_threads_in_previous_epoch, dec_thread_count_and_threads_in_previous_epoch,
  inc_epoch_reset_previous, inc_epoch_dec_thread_count_reset_previous,
  dec_thread_count_threads_in_previous_epoch_maybe_advance,
  atomic_fetch_dec_threads_in_previous_epoch,
}

-- In a state word with fewer than 2 ^ 30 - 1 threads, of which the threads in the previous epoch
-- are some, both ways to add a thread raise the thread count by one, the second also the count of
-- the previous epoch, leave the epoch alone, and keep the invariant of the word.
pub inc_thread_count_lem :
    (word epoch threads previous : ℕ)
    → IsState word epoch threads previous
    → threads < max_qsbr_threads
    → IsState (inc_thread_count word) epoch (threads + 1) previous
      × IsState
          (inc_thread_count_and_threads_in_previous_epoch word)
          epoch
          (threads + 1)
          (previous + 1)
unfolding inc_thread_count inc_thread_count_and_threads_in_previous_epoch get_epoch get_thread_count
    get_threads_in_previous_epoch
inc_thread_count_lem word epoch threads previous s h0 =
    let e : word / 2 ^ 62 ≡ epoch = s.epoch_is in
    let t : word / 2 ^ 32 % 2 ^ 30 ≡ threads = s.threads_is in
    let p : word % 2 ^ 30 ≡ previous = s.previous_is in
    let w = s.word_size in
    let i = s.invariant in
    (
      record {
        word_size = omega arith;
        epoch_is = omega arith;
        threads_is = omega arith;
        previous_is = omega arith;
        invariant = omega arith;
      },
      record {
        word_size = omega arith;
        epoch_is = omega arith;
        threads_is = omega arith;
        previous_is = omega arith;
        invariant = omega arith;
      },
    )

-- A thread that is not in the previous epoch leaves.
pub dec_thread_count_lem :
    (word epoch threads previous : ℕ)
    → IsState word epoch threads previous
    → previous < threads
    → IsState (dec_thread_count word) epoch (threads - 1) previous
unfolding dec_thread_count get_epoch get_thread_count get_threads_in_previous_epoch
dec_thread_count_lem word epoch threads previous s h0 =
    let e : word / 2 ^ 62 ≡ epoch = s.epoch_is in
    let t : word / 2 ^ 32 % 2 ^ 30 ≡ threads = s.threads_is in
    let p : word % 2 ^ 30 ≡ previous = s.previous_is in
    let w = s.word_size in
    let i = s.invariant in
    record {
      word_size = omega arith;
      epoch_is = omega arith;
      threads_is = omega arith;
      previous_is = omega arith;
      invariant = omega arith;
    }

pub dec_previous_lem :
    (word epoch threads previous : ℕ)
    → IsState word epoch threads previous
    → 0 < previous
    → IsState
        (dec_thread_count_and_threads_in_previous_epoch word)
        epoch
        (threads - 1)
        (previous - 1)
      × IsState (atomic_fetch_dec_threads_in_previous_epoch word) epoch threads (previous - 1)
unfolding dec_thread_count_and_threads_in_previous_epoch atomic_fetch_dec_threads_in_previous_epoch
    get_epoch get_thread_count get_threads_in_previous_epoch
dec_previous_lem word epoch threads previous s h0 =
    let e : word / 2 ^ 62 ≡ epoch = s.epoch_is in
    let t : word / 2 ^ 32 % 2 ^ 30 ≡ threads = s.threads_is in
    let p : word % 2 ^ 30 ≡ previous = s.previous_is in
    let w = s.word_size in
    let i = s.invariant in
    (
      record {
        word_size = omega arith;
        epoch_is = omega arith;
        threads_is = omega arith;
        previous_is = omega arith;
        invariant = omega arith;
      },
      record {
        word_size = omega arith;
        epoch_is = omega arith;
        threads_is = omega arith;
        previous_is = omega arith;
        invariant = omega arith;
      },
    )

-- Three fields that share no bit.
word_of_fields :
    (e t p : ℕ)
    → e < 4
    → t < 2 ^ 30
    → p < 2 ^ 30
    → bit_or 64 (bit_or 64 (e * 2 ^ 62) (t * 2 ^ 32)) p ≡ e * 2 ^ 62 + t * 2 ^ 32 + p
word_of_fields e t p he ht hp =
    let high : e * 2 ^ 62 ≡ 2 ^ 62 * e = omega arith in
    let upper = bit_or-add_comm 64 62 (t * 2 ^ 32) e (omega arith) (omega arith) in
    let both : t * 2 ^ 32 + 2 ^ 62 * e ≡ 2 ^ 32 * (t + 2 ^ 30 * e) = omega arith in
    let whole = bit_or-add_comm 64 32 p (t + 2 ^ 30 * e) (omega arith) (omega arith) in
    ap (λ a. bit_or 64 (bit_or 64 a (t * 2 ^ 32)) p) high
    ∙ ap (λ a. bit_or 64 a p) (upper ∙ both)
    ∙ whole
    ∙ omega arith

-- What the three fields are in the word.
fields-IsState :
    (e t p : ℕ)
    → e < 4
    → t < 2 ^ 30
    → p ≤ t
    → IsState (bit_or 64 (bit_or 64 (e * 2 ^ 62) (t * 2 ^ 32)) p) e t p
unfolding get_epoch get_thread_count get_threads_in_previous_epoch
fields-IsState e t p he ht hp =
    subst (λ w. IsState w e t p) (sym (word_of_fields e t p he ht (omega arith)))
      (record {
        word_size = omega arith;
        epoch_is = omega arith;
        threads_is = omega arith;
        previous_is = omega arith;
        invariant = hp;
      })

inc_epoch_lem :
    (word epoch threads : ℕ)
    → IsState word epoch threads 0
    → IsState (inc_epoch_reset_previous word) ((epoch + 1) % max_count) threads threads
unfolding inc_epoch_reset_previous advance make_from_epoch get_epoch get_thread_count
inc_epoch_lem word epoch threads s =
    let e : word / 2 ^ 62 ≡ epoch = s.epoch_is in
    let t : word / 2 ^ 32 % 2 ^ 30 ≡ threads = s.threads_is in
    rw (inc_epoch_reset_previous, e, t)
      (fields-IsState ((epoch + 1) % max_count) threads threads (omega arith) (omega arith)
        (omega arith))

inc_epoch_dec_lem :
    (word epoch threads : ℕ)
    → IsState word epoch threads 1
    → IsState
        (inc_epoch_dec_thread_count_reset_previous word)
        ((epoch + 1) % max_count)
        (threads - 1)
        (threads - 1)
unfolding inc_epoch_dec_thread_count_reset_previous advance make_from_epoch get_epoch
    get_thread_count
inc_epoch_dec_lem word epoch threads s =
    let e : word / 2 ^ 62 ≡ epoch = s.epoch_is in
    let t : word / 2 ^ 32 % 2 ^ 30 ≡ threads = s.threads_is in
    rw (inc_epoch_dec_thread_count_reset_previous, e, t)
      (fields-IsState ((epoch + 1) % max_count) (threads - 1) (threads - 1) (omega arith)
        (omega arith) (omega arith))

-- In a state word whose count of threads in the previous epoch is positive and not above the count
-- of threads: leaving as a thread of the previous epoch lowers both counts by one, and the atomic
-- decrement lowers only the count of the previous epoch. The epoch stays, no field runs into
-- another, and the invariant of the word is kept.
pub updates-IsState :
    (word epoch threads previous : ℕ)
    → IsState word epoch threads previous
    → 0 < previous
    → IsState
        (dec_thread_count_threads_in_previous_epoch_maybe_advance word false)
        epoch
        (threads - 1)
        (previous - 1)
      × IsState (atomic_fetch_dec_threads_in_previous_epoch word) epoch threads (previous - 1)
unfolding dec_thread_count_threads_in_previous_epoch_maybe_advance
updates-IsState word epoch threads previous s h = dec_previous_lem word epoch threads previous s h

-- In a state word with one thread left in the previous epoch: the atomic decrement and then the
-- epoch change move the epoch on, modulo four, keep the thread count, and put all threads into the
-- previous epoch; and leaving with the epoch advanced moves the epoch on likewise, lowers the
-- thread count by one, and puts the threads that are left into the previous epoch. No field runs
-- into another, and the invariant of the word is kept.
pub last_thread-IsState :
    (word epoch threads : ℕ)
    → IsState word epoch threads 1
    → IsState
        (inc_epoch_reset_previous (atomic_fetch_dec_threads_in_previous_epoch word))
        ((epoch + 1) % max_count)
        threads
        threads
      × IsState
          (dec_thread_count_threads_in_previous_epoch_maybe_advance word true)
          ((epoch + 1) % max_count)
          (threads - 1)
          (threads - 1)
unfolding dec_thread_count_threads_in_previous_epoch_maybe_advance
last_thread-IsState word epoch threads s =
    let (_, decremented) = dec_previous_lem word epoch threads 1 s (omega arith) in
    (
      inc_epoch_lem (atomic_fetch_dec_threads_in_previous_epoch word) epoch threads decremented,
      inc_epoch_dec_lem word epoch threads s,
    )
