-- ===== src/Lock/System.antt =====
-- `n` threads over one lock and the data that it protects, a lock operation or an access to the
-- data at a time.
use unodb.Base.{ℕ, ◌+◌, ◌<◌, ◌≡◌, if◌then◌else◌, Option, none, some, List, [], ◌∷◌, update}
use unodb.Lock.{
  OptimisticLock, ReadAttempt, opened, must_restart, spin, new, try_read_lock, rehydrate_read_lock,
  check, try_read_unlock, try_upgrade_to_write_lock, write_unlock, write_unlock_and_obsolete,
}

-- What a thread holds: nothing, a read critical section at a version, a version tag that it kept
-- when it closed a section, or the write guard. `seen` lists what it read from the protected data
-- since it opened the section.
pub data Pc : Type 0 where
  idle : Pc
  reading : (version : ℕ) (seen : List ℕ) → Pc
  kept : (version : ℕ) (seen : List ℕ) → Pc
  writing : Pc

-- The lock, the protected data, and the number of completed write locks.
pub record Shared : Type 0 where
  pub lock : OptimisticLock
  pub content : ℕ
  pub releases : ℕ

-- What the program may do next with the lock or the data.
pub data Act : Type 0 where
  open_section : Act
  load : Act
  check_section : Act
  close_section : Act
  rehydrate : Act
  forget : Act
  upgrade : Act
  store : ℕ → Act
  unlock : Act
  unlock_and_obsolete : Act

unfoldable pub after_read_lock : Shared → ReadAttempt → Shared × Pc
after_read_lock m (opened l version) = (record m { lock = l }, reading version [])
after_read_lock m must_restart = (m, idle)
after_read_lock m spin = (m, idle)

-- One action of thread `i`, which holds the second argument; `none` where it cannot take it.
unfoldable pub act : ℕ → Act → Shared → Pc → Option (Shared × Pc)
unfolding after_read_lock
act i open_section m idle = some (after_read_lock m (try_read_lock m.lock))
act i load m (reading v seen) = some (m, reading v (m.content ∷ seen))
act i check_section m (reading v seen) =
    let (l, result) = check m.lock v in
    some (record m { lock = l }, (if result then reading v seen else idle))
act i close_section m (reading v seen) =
    let (l, result) = try_read_unlock m.lock v in
    some (record m { lock = l }, (if result then kept v seen else idle))
act i rehydrate m (kept v seen) =
    some (record m { lock = rehydrate_read_lock m.lock v }, reading v seen)
act i forget m (kept v seen) = some (m, idle)
act i upgrade m (reading v seen) =
    let (l, result) = try_upgrade_to_write_lock m.lock v in
    some (record m { lock = l }, (if result then writing else idle))
act i (store x) m writing = some (record m { content = x }, writing)
act i unlock m writing =
    some (record m { lock = write_unlock m.lock; releases = m.releases + 1 }, idle)
act i unlock_and_obsolete m writing =
    some (record m { lock = write_unlock_and_obsolete m.lock i }, idle)
act i _ m _ = none

-- An index from `n` on names no thread: it never acts, and stays idle.
pub record System : Type 0 where
  pub mem : Shared
  pub pc : ℕ → Pc

pub data Step (n : ℕ) (s : System) : System → Type 0 where
  take :
      (i : ℕ) (a : Act) {m : Shared} {p : Pc}
      → i < n
      → act i a s.mem (s.pc i) ≡ some (m, p)
      → Step n s (record { mem = m; pc = update s.pc i p })

abbrev pub init : ℕ → System
init x = record { mem = record { lock = new; content = x; releases = 0 }; pc = λ _. idle }

pub data Reach (n x : ℕ) : System → Type 0 where
  start : Reach n x (init x)
  later : {s t : System} → Reach n x s → Step n s t → Reach n x t
