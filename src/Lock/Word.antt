-- ===== src/Lock/Word.antt =====
-- What the tests of the lock word say of a word whose state is known.
use unodb.Base.{ℕ, ◌+◌, ◌*◌, ◌≡◌, Bool, true, false, arith}
use unodb.Lock.{obsolete_lock_word, is_write_locked, is_free, is_obsolete}

-- The state of a lock, with the thread that holds it.
pub data Phase : Type 0 where
  free : Phase
  locked : (owner : ℕ) → Phase
  obsolete : Phase

-- The word after `releases` completed write locks.
abbrev pub word_of : Phase → ℕ → ℕ
word_of free releases = 4 * releases
word_of (locked owner) releases = 4 * releases + 2
word_of obsolete releases = obsolete_lock_word

abbrev is_free_phase : Phase → Bool
is_free_phase free = true
is_free_phase _ = false

abbrev is_locked_phase : Phase → Bool
is_locked_phase (locked owner) = true
is_locked_phase _ = false

abbrev is_obsolete_phase : Phase → Bool
is_obsolete_phase obsolete = true
is_obsolete_phase _ = false

-- The three tests tell the three states apart: exactly one of them holds.
pub word_tests :
    (phase : Phase) (releases : ℕ)
    → (is_free (word_of phase releases) ≡ is_free_phase phase)
      × (is_write_locked (word_of phase releases) ≡ is_locked_phase phase)
      × (is_obsolete (word_of phase releases) ≡ is_obsolete_phase phase)
unfolding is_free is_write_locked is_obsolete
word_tests free releases = ground arith
word_tests (locked owner) releases = ground arith
word_tests obsolete releases = ground arith
