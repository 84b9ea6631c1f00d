-- ===== src/Lock/Safety.antt =====
-- What the lock gives the threads that use it: validated reads, exclusive writers, a final
-- obsolete state, and exact counts of open sections.
use unodb.Base.{
  ℕ, ◌%◌, ◌^◌, ◌≤◌, ◌<◌, ◌≡◌, refl, sym, ◌≢◌, ◌↔◌, List, true, false, Bool-cases, inl, inr, some,
  some_inj, arith, ◌==◌, ==_iff,
}
use mathlib.Core.Path.{subst}
use unodb.Lock.{
  check, try_read_unlock, try_upgrade_to_write_lock, try_read_lock, must_restart, is_free,
  is_obsolete, is_write_locked, rehydrate_read_lock,
}
use unodb.Lock.System.{
  Pc, idle, reading, kept, writing, Shared, Act, open_section, load, check_section, close_section,
  rehydrate, forget, upgrade, System, Step, take, Reach, act, after_read_lock,
}
use unodb.Lock.Word.{Phase, free, locked, obsolete, word_of, word_tests}
use unodb.Lock.Invariant.Defs.{AllEq, IsFresh, Holds, opens, total, Inv}
use unodb.Lock.Invariant.Kept.{Reach-Inv, opens-le-total, releases_mono}

section-IsFresh :
    {n x : ℕ} {s : System} (i v : ℕ) (seen : List ℕ)
    → s.mem.releases < 2 ^ 62
    → Reach n x s
    → s.pc i ≡ reading v seen
    → IsFresh s.mem v seen
section-IsFresh {n} {x} {s} i v seen few r e = subst (Holds s.mem) e ((Reach-Inv few r).section i)

-- In every reachable state with fewer than 2 ^ 62 completed write locks, when the check of an open
-- read critical section succeeds, every value that the section has read from the protected data,
-- at whatever times, is the value that the data has now: the reads form one consistent snapshot.
pub check-AllEq :
    {n x : ℕ} {s : System} (i v : ℕ) (seen : List ℕ)
    → s.mem.releases < 2 ^ 62
    → Reach n x s
    → s.pc i ≡ reading v seen
    → (check s.mem.lock v).1 ≡ true
    → AllEq s.mem.content seen
unfolding check
check-AllEq {n} {x} {s} i v seen few r e ok =
    (section-IsFresh i v seen few r e).2 (sym ((==_iff v s.mem.lock.version).0 ok))

-- In every reachable state with fewer than 2 ^ 62 completed write locks, when the upgrade of an
-- open read critical section to a write guard succeeds, no thread holds a write guard, and every
-- value that the section has read is the value that the data has now.
pub try_upgrade_to_write_lock-AllEq :
    {n x : ℕ} {s : System} (i v j : ℕ) (seen : List ℕ)
    → s.mem.releases < 2 ^ 62
    → Reach n x s
    → s.pc i ≡ reading v seen
    → (try_upgrade_to_write_lock s.mem.lock v).1 ≡ true
    → AllEq s.mem.content seen × (s.pc j ≢ writing)
unfolding try_upgrade_to_write_lock
try_upgrade_to_write_lock-AllEq {n} {x} {s} i v j seen few r e ok =
    let fresh = section-IsFresh i v seen few r e in
    let same = (==_iff v s.mem.lock.version).0 ok in
    let inv = Reach-Inv few r in
    (fresh.2 (sym same), λ w. held inv.phase ((inv.owner j).0 w) inv.word (omega (arith, fresh.0)))
  where
    held :
        (phase : Phase)
        → phase ≡ locked j
        → s.mem.lock.version ≡ word_of phase s.mem.releases
        → s.mem.lock.version % 4 ≢ 0
    held (locked o) e w z = omega arith
    held free e w z = cc
    held obsolete e w z = cc

-- In every reachable state with fewer than 2 ^ 62 completed write locks, at most one thread holds
-- a write guard.
pub writing_unique :
    {n x : ℕ} {s : System} (i j : ℕ)
    → s.mem.releases < 2 ^ 62
    → Reach n x s
    → s.pc i ≡ writing
    → s.pc j ≡ writing
    → i ≡ j
writing_unique i j few r ei ej =
    let inv = Reach-Inv few r in
    let pi = (inv.owner i).0 ei in let pj = (inv.owner j).0 ej in grind arith

-- In every reachable state with fewer than 2 ^ 62 completed write locks, the lock word says that
-- the lock is write-locked exactly when some thread holds a write guard.
pub is_write_locked_iff :
    {n x : ℕ} {s : System}
    → s.mem.releases < 2 ^ 62
    → Reach n x s
    → (is_write_locked s.mem.lock.version ≡ true) ↔ ((j : ℕ) × (s.pc j ≡ writing))
is_write_locked_iff {n} {x} {s} few r =
    let inv = Reach-Inv few r in of_phase inv.phase inv.word inv.owner
  where
    of_phase :
        (phase : Phase)
        → s.mem.lock.version ≡ word_of phase s.mem.releases
        → ((j : ℕ) → (s.pc j ≡ writing) ↔ (phase ≡ locked j))
        → (is_write_locked s.mem.lock.version ≡ true) ↔ ((j : ℕ) × (s.pc j ≡ writing))
    of_phase free w owner = (
      λ e. absurd (cc ((word_tests free s.mem.releases).1)),
      λ q. absurd (cc ((owner q.0).0 q.1)),
    )
    of_phase (locked o) w owner =
        (λ _. (o, (owner o).1 refl), λ q. rw w (word_tests (locked o) s.mem.releases).1)
    of_phase obsolete w owner = (
      λ e. absurd (cc ((word_tests obsolete s.mem.releases).1)),
      λ q. absurd (cc ((owner q.0).0 q.1)),
    )

-- In every reachable state of n threads with fewer than 2 ^ 62 completed write locks in which a
-- thread has an open section, the count of read locks is positive, and it is the number of threads
-- that have one.
pub read_lock_count-total :
    {n x : ℕ} {s : System} (i v : ℕ) (seen : List ℕ)
    → s.mem.releases < 2 ^ 62
    → Reach n x s
    → i < n
    → s.pc i ≡ reading v seen
    → (1 ≤ s.mem.lock.read_lock_count) × (s.mem.lock.read_lock_count ≡ total n s.pc)
read_lock_count-total {n} {x} {s} i v seen few r lt e =
    let inv = Reach-Inv few r in
    let one : opens (s.pc i) ≡ 1 = rw e refl in
    (omega (arith, inv.counted, opens-le-total n s.pc i lt), inv.counted)

-- A comparison with a word that is not a section's version fails.
not_same :
    (m : Shared) (v : ℕ) (seen : List ℕ)
    → m.lock.version ≡ 1
    → IsFresh m v seen
    → (v == m.lock.version) ≡ false
not_same m v seen w f = elim (Bool-cases (v == m.lock.version)) [
  | inl same ↦ absurd (omega (arith, (==_iff v m.lock.version).0 same, f.0))
  | inr other ↦ other
]

-- What an action does to an obsolete lock, of a thread without the guard.
SameLock : Shared → Shared → Type 0
SameLock m m' = (m'.lock.version ≡ m.lock.version) × (m'.content ≡ m.content)

act-SameLock :
    (i : ℕ) (a : Act) (m : Shared) (p : Pc) {r : Shared × Pc}
    → m.lock.version ≡ 1
    → p ≢ writing
    → Holds m p
    → act i a m p ≡ some r
    → SameLock m r.0
unfolding act SameLock after_read_lock try_read_lock is_free is_obsolete check try_read_unlock
    try_upgrade_to_write_lock rehydrate_read_lock
act-SameLock i open_section m idle w nw h e =
    subst (λ (t : Shared × Pc). SameLock m t.0) (some_inj e) (rw w (refl, refl))
act-SameLock i load m (reading v seen) w nw h e =
    subst (λ (t : Shared × Pc). SameLock m t.0) (some_inj e) (refl, refl)
act-SameLock i check_section m (reading v seen) w nw h e =
    subst (λ (t : Shared × Pc). SameLock m t.0) (some_inj e)
      (rw (not_same m v seen w h) (refl, refl))
act-SameLock i close_section m (reading v seen) w nw h e =
    subst (λ (t : Shared × Pc). SameLock m t.0) (some_inj e)
      (rw (not_same m v seen w h) (refl, refl))
act-SameLock i upgrade m (reading v seen) w nw h e =
    subst (λ (t : Shared × Pc). SameLock m t.0) (some_inj e)
      (rw (not_same m v seen w h) (refl, refl))
act-SameLock i rehydrate m (kept v seen) w nw h e =
    subst (λ (t : Shared × Pc). SameLock m t.0) (some_inj e) (refl, refl)
act-SameLock i forget m (kept v seen) w nw h e =
    subst (λ (t : Shared × Pc). SameLock m t.0) (some_inj e) (refl, refl)
act-SameLock i a m writing w nw h e = absurd (nw refl)
act-SameLock i a m p w nw h e = cc

no_owner :
    (m : Shared) (phase : Phase) (j : ℕ)
    → phase ≡ locked j
    → m.lock.version ≡ word_of phase m.releases
    → m.lock.version ≢ 1
no_owner m (locked o) j p q w = omega arith
no_owner m free j p q w = cc
no_owner m obsolete j p q w = cc

Step-SameLock :
    {n : ℕ} {s t : System} → Inv n s → s.mem.lock.version ≡ 1 → Step n s t → SameLock s.mem t.mem
Step-SameLock {n} {s} inv w (take j a lt step) =
    act-SameLock j a s.mem (s.pc j) w
      (λ wr. no_owner s.mem inv.phase j ((inv.owner j).0 wr) inv.word w) (inv.section j) step

-- In every reachable state in which the lock is obsolete and a section is open, opening another
-- section asks for a restart, checking or upgrading the open section fails, and the next step, of
-- whichever thread, leaves the lock word and the protected data as they are; fewer than 2 ^ 62
-- write locks have been completed after that step.
pub is_obsolete-final :
    {n x : ℕ} {s t : System} (i v : ℕ) (seen : List ℕ)
    → t.mem.releases < 2 ^ 62
    → Reach n x s
    → Step n s t
    → is_obsolete s.mem.lock.version ≡ true
    → s.pc i ≡ reading v seen
    → (try_read_lock s.mem.lock ≡ must_restart)
      × ((check s.mem.lock v).1 ≡ false)
      × ((try_upgrade_to_write_lock s.mem.lock v).1 ≡ false)
      × (t.mem.lock.version ≡ s.mem.lock.version)
      × (t.mem.content ≡ s.mem.content)
unfolding check try_upgrade_to_write_lock try_read_lock
is_obsolete-final {n} {x} {s} {t} i v seen few r st dead e =
    let few' : s.mem.releases < 2 ^ 62 = omega (arith, releases_mono st) in
    let inv = Reach-Inv few' r in
    let w : s.mem.lock.version ≡ 1 = unfold is_obsolete in (==_iff s.mem.lock.version 1).0 dead in
    let other = not_same s.mem v seen w (section-IsFresh i v seen few' r e) in
    let same : (t.mem.lock.version ≡ s.mem.lock.version) × (t.mem.content ≡ s.mem.content) =
      unfold SameLock in Step-SameLock inv w st in
    (rw w (unfold is_free is_obsolete in refl), other, other, same.0, same.1)
