-- ===== src/Lock.antt =====
-- optimistic_lock.hpp, in its debug build: the lock word, the lock's operations, and the critical
-- sections and guards that threads hold.
pub mod System
pub mod Word
pub mod Invariant
pub mod Safety
use unodb.Base.{
  ℕ, ◌+◌, ◌-◌, ◌/◌, ◌%◌, ◌^◌, Bool, true, false, Option, none, some, not, ◌==◌, if◌then◌else◌,
}

-- `version_type`: bit 1 is set under a write lock, and the word 1 is an obsolete lock.
abbrev pub obsolete_lock_word : ℕ
obsolete_lock_word = 1

abbrev pub word_mod : ℕ
word_mod = 2 ^ 64

-- `(version & 2U) != 0U`
unfoldable pub is_write_locked : ℕ → Bool
is_write_locked version = not (version / 2 % 2 == 0)

-- `(version & 3U) == 0U`
unfoldable pub is_free : ℕ → Bool
is_free version = version % 4 == 0

unfoldable pub is_obsolete : ℕ → Bool
is_obsolete version = version == obsolete_lock_word

unfoldable pub set_locked_bit : ℕ → ℕ
set_locked_bit version = (version + 2) % word_mod

-- The lock word and, in the debug build, the number of open read critical sections and the thread
-- that made the lock obsolete.
pub record OptimisticLock : Type 0 where
  pub version : ℕ
  pub read_lock_count : ℕ
  pub obsoleter_thread : Option ℕ

unfoldable pub new : OptimisticLock
new = record { version = 0; read_lock_count = 0; obsoleter_thread = none }

abbrev pub inc_read_lock_count : OptimisticLock → OptimisticLock
inc_read_lock_count l = record l { read_lock_count = l.read_lock_count + 1 }

abbrev pub dec_read_lock_count : OptimisticLock → OptimisticLock
dec_read_lock_count l = record l { read_lock_count = l.read_lock_count - 1 }

-- One round of the loop of `try_read_lock`: a critical section at a version, an empty critical
-- section, whose `must_restart` holds, or another round.
pub data ReadAttempt : Type 0 where
  opened : OptimisticLock → ℕ → ReadAttempt
  must_restart : ReadAttempt
  spin : ReadAttempt

unfoldable pub try_read_lock : OptimisticLock → ReadAttempt
unfolding is_free is_obsolete
try_read_lock l =
    let current_version = l.version in
    if is_free current_version
    then opened (inc_read_lock_count l) current_version
    else if is_obsolete current_version
    then must_restart
    else spin

unfoldable pub rehydrate_read_lock : OptimisticLock → ℕ → OptimisticLock
rehydrate_read_lock l version_tag = inc_read_lock_count l

-- `check`: a failure closes the section.
unfoldable pub check : OptimisticLock → ℕ → OptimisticLock × Bool
check l locked_version =
    let result = locked_version == l.version in
    ((if result then l else dec_read_lock_count l), result)

unfoldable pub try_read_unlock : OptimisticLock → ℕ → OptimisticLock × Bool
unfolding check
try_read_unlock l locked_version =
    let (l', result) = check l locked_version in
    ((if result then dec_read_lock_count l' else l'), result)

-- The compare-exchange of `cas_acquire`, then the closing of the section.
unfoldable pub try_upgrade_to_write_lock : OptimisticLock → ℕ → OptimisticLock × Bool
unfolding set_locked_bit
try_upgrade_to_write_lock l locked_version =
    let result = locked_version == l.version in
    (
      dec_read_lock_count
          (if result then record l { version = set_locked_bit locked_version } else l),
      result,
    )

unfoldable pub write_unlock : OptimisticLock → OptimisticLock
write_unlock l = record l { version = (l.version + 2) % word_mod }

unfoldable pub write_unlock_and_obsolete : OptimisticLock → ℕ → OptimisticLock
write_unlock_and_obsolete l this_thread = record l {
  version = obsolete_lock_word;
  obsoleter_thread = some this_thread;
}
