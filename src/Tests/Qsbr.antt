-- ===== src/Tests/Qsbr.antt =====
-- The state word of three threads, two of them in the previous epoch.
use unodb.Base.{ℕ, ◌+◌, ◌*◌, ◌^◌, refl, true, arith}
use unodb.Qsbr.State.{
  IsState, get_epoch, get_thread_count, get_threads_in_previous_epoch, inc_thread_count,
  inc_thread_count_and_threads_in_previous_epoch, inc_epoch_reset_previous,
  dec_thread_count_threads_in_previous_epoch_maybe_advance,
  atomic_fetch_dec_threads_in_previous_epoch,
}
use unodb.Qsbr.State.Laws.{inc_thread_count_lem, last_thread-IsState}

abbrev word : ℕ
word = 2 ^ 62 + 3 * 2 ^ 32 + 2

word-IsState : IsState word 1 3 2
unfolding get_epoch get_thread_count get_threads_in_previous_epoch
word-IsState = record {
  word_size = omega arith;
  epoch_is = refl;
  threads_is = refl;
  previous_is = refl;
  invariant = omega arith;
}

inc_thread_count_lem_example :
    IsState (inc_thread_count word) 1 4 2
    × IsState (inc_thread_count_and_threads_in_previous_epoch word) 1 4 3
inc_thread_count_lem_example = inc_thread_count_lem word 1 3 2 word-IsState (omega arith)

-- The same with one thread left in the previous epoch.
abbrev last_word : ℕ
last_word = 2 ^ 62 + 3 * 2 ^ 32 + 1

last_word-IsState : IsState last_word 1 3 1
unfolding get_epoch get_thread_count get_threads_in_previous_epoch
last_word-IsState = record {
  word_size = omega arith;
  epoch_is = refl;
  threads_is = refl;
  previous_is = refl;
  invariant = omega arith;
}

last_thread-IsState_example :
    IsState (inc_epoch_reset_previous (atomic_fetch_dec_threads_in_previous_epoch last_word)) 2 3 3
    × IsState (dec_thread_count_threads_in_previous_epoch_maybe_advance last_word true) 2 2 2
last_thread-IsState_example = last_thread-IsState last_word 1 3 last_word-IsState
