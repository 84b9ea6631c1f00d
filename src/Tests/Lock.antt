-- ===== src/Tests/Lock.antt =====
-- Two threads over one lock: a reader that another thread's write invalidates, and the same lock
-- made obsolete.
use unodb.Base.{ℕ, ◌≤◌, ◌≡◌, refl, ◌≢◌, ◌↔◌, none, some, [], ◌∷◌, true, false, update, arith}
use unodb.Lock.{
  new, try_read_lock, check, try_read_unlock, try_upgrade_to_write_lock, write_unlock,
  write_unlock_and_obsolete, is_free, is_obsolete, is_write_locked, set_locked_bit, must_restart,
}
use unodb.Lock.System.{
  Pc, idle, Shared, reading, writing, open_section, load, upgrade, store, unlock_and_obsolete, act,
  after_read_lock, System, Step, take, Reach, start, later,
}
use unodb.Lock.Invariant.Defs.{AllEq, total}
use unodb.Lock.Safety.{
  check-AllEq, try_upgrade_to_write_lock-AllEq, writing_unique, is_write_locked_iff,
  read_lock_count-total, is_obsolete-final,
}

lock_program : Unit {0}
unfolding new try_read_lock check try_read_unlock try_upgrade_to_write_lock write_unlock
    write_unlock_and_obsolete is_free is_obsolete is_write_locked set_locked_bit act after_read_lock
lock_program = tt

-- A state of two threads that started from idle, after `pc` was updated in turn.
abbrev at_word : ℕ → ℕ → ℕ → Shared
at_word version count content = record {
  lock = record { version = version; read_lock_count = count; obsoleter_thread = none };
  content = content;
  releases = 0;
}

-- Thread 0 has opened a section and read the data once, and thread 1 has opened one.
abbrev reader_pc : ℕ → Pc
reader_pc =
    update (update (update (λ _. idle) 0 (reading 0 [])) 0 (reading 0 (5 ∷ []))) 1 (reading 0 [])

abbrev reader : System
reader = record { mem = at_word 0 2 5; pc = reader_pc }

Reach-reader : Reach 2 5 reader
unfolding lock_program
Reach-reader =
    later
      (later (later start (take 0 open_section (omega arith) refl))
        (take 0 load (omega arith) refl))
      (take 1 open_section (omega arith) refl)

-- Thread 1 then upgrades and stores.
abbrev writer : System
writer = record { mem = at_word 2 1 9; pc = update (update reader_pc 1 writing) 1 writing }

Reach-writer : Reach 2 5 writer
unfolding lock_program
Reach-writer =
    later (later Reach-reader (take 1 upgrade (omega arith) refl))
      (take 1 (store 9) (omega arith) refl)

-- Thread 1 makes the lock obsolete, and then tries to open a section.
abbrev obsolete_mem : Shared
obsolete_mem = record (at_word 1 1 9) {
  lock = record { version = 1; read_lock_count = 1; obsoleter_thread = some 1 };
}

abbrev dropped : System
dropped = record { mem = obsolete_mem; pc = update writer.pc 1 idle }

Reach-dropped : Reach 2 5 dropped
unfolding lock_program
Reach-dropped = later Reach-writer (take 1 unlock_and_obsolete (omega arith) refl)

abbrev retried : System
retried = record { mem = obsolete_mem; pc = update dropped.pc 1 idle }

Step-retried : Step 2 dropped retried
unfolding lock_program
Step-retried = take 1 open_section (omega arith) refl

reader_ok :
    ((check reader.mem.lock 0).1 ≡ true) × ((try_upgrade_to_write_lock reader.mem.lock 0).1 ≡ true)
unfolding lock_program
reader_ok = (refl, refl)

dropped_word : is_obsolete dropped.mem.lock.version ≡ true
unfolding lock_program
dropped_word = refl

check-AllEq_example : AllEq 5 (5 ∷ [])
check-AllEq_example =
    check-AllEq {s = reader} 0 0 (5 ∷ []) (omega arith) Reach-reader refl reader_ok.0

try_upgrade_to_write_lock-AllEq_example : AllEq 5 (5 ∷ []) × (reader.pc 1 ≢ writing)
try_upgrade_to_write_lock-AllEq_example =
    try_upgrade_to_write_lock-AllEq {s = reader} 0 0 1 (5 ∷ []) (omega arith) Reach-reader refl
      reader_ok.1

writing_unique_example : ◌≡◌ {A = ℕ} 1 1
writing_unique_example = writing_unique {s = writer} 1 1 (omega arith) Reach-writer refl refl

is_write_locked_iff_example :
    (is_write_locked writer.mem.lock.version ≡ true) ↔ ((j : ℕ) × (writer.pc j ≡ writing))
is_write_locked_iff_example = is_write_locked_iff (omega arith) Reach-writer

read_lock_count-total_example :
    (1 ≤ reader.mem.lock.read_lock_count) × (reader.mem.lock.read_lock_count ≡ total 2 reader.pc)
read_lock_count-total_example =
    read_lock_count-total {s = reader} 0 0 (5 ∷ []) (omega arith) Reach-reader (omega arith) refl

is_obsolete-final_example :
    (try_read_lock dropped.mem.lock ≡ must_restart)
    × ((check dropped.mem.lock 0).1 ≡ false)
    × ((try_upgrade_to_write_lock dropped.mem.lock 0).1 ≡ false)
    × (retried.mem.lock.version ≡ dropped.mem.lock.version)
    × (retried.mem.content ≡ dropped.mem.content)
is_obsolete-final_example =
    is_obsolete-final {t = retried} 0 0 (5 ∷ []) (omega arith) Reach-dropped Step-retried
      dropped_word refl
