-- ===== src/Mutex.antt =====
-- `mutex_db` (mutex_art.hpp): threads that call one database behind one mutex. A call takes the
-- mutex, reads the database, leaves what it computes from it, and gives the mutex back, in four
-- steps between which other threads may take theirs.
pub mod Defs
pub mod Laws
use unodb.Base.{ℕ, List, [], ◌∷◌, ◌++◌, Option, none, some, Bool, ◌≡◌, update}
use unodb.Art.{Db}
use unodb.Art
use unodb.Art.Iterator
use unodb.Art.Delete
use unodb.Art.Insert.{Allocation, Outcome, ok, length_error, out_of_range, insert_internal}
use unodb.Art.Remove.{remove_internal}

-- The calls, with the memory that the allocator gives them. A scan comes with its fuel.
pub data Call : Type 0 where
  get : List ℕ → Call
  insert : Allocation → List ℕ → List ℕ → Call
  remove : Allocation → List ℕ → Call
  empty : Call
  clear : Call
  scan : (List ℕ × List ℕ → Bool) → Bool → ℕ → Call
  scan_from : List ℕ → (List ℕ × List ℕ → Bool) → Bool → ℕ → Call
  scan_range : List ℕ → List ℕ → (List ℕ × List ℕ → Bool) → ℕ → Call

pub data Answer : Type 0 where
  found : Option (List ℕ) → Answer
  changed : Outcome Bool → Answer
  is_empty : Bool → Answer
  cleared : Answer
  visited : Option (List (List ℕ × List ℕ)) → Answer

-- What a change leaves. `std::length_error` is thrown where the leaf is made, before the first
-- store to the tree.
abbrev pub settle : Db → Outcome (Db × Bool) → Db × Answer
settle db (ok (db', b)) = (db', changed (ok b))
settle db length_error = (db, changed length_error)
settle db out_of_range = (db, changed out_of_range)

-- What a call does with `db_` while its guard owns the mutex.
unfoldable pub body : Call → Db → Db × Answer
body (get k) db = (db, found (Art.get_internal db k))
body (insert new k v) db = settle db (insert_internal new db k v)
body (remove new k) db = settle db (remove_internal new db k)
body empty db = (db, is_empty (Art.empty db))
body clear db = let (freed, db') = Delete.clear db in (db', cleared)
body (scan fn fwd fuel) db = (db, visited (Iterator.scan fn fwd fuel db))
body (scan_from from_key fn fwd fuel) db =
    (db, visited (Iterator.scan_from from_key fn fwd fuel db))
body (scan_range from_key to_key fn fuel) db =
    (db, visited (Iterator.scan_range from_key to_key fn fuel db))

-- `db_` and `mutex`, of which `owner` is the thread that has locked it.
pub record MutexDb : Type 0 where
  pub db : Db
  pub owner : Option ℕ

-- Where a thread is: in no call, with the mutex locked, with the database read, with its result
-- written, or after a `get` whose result still owns the mutex.
pub data Phase : Type 0 where
  idle : Phase
  entered : Call → Phase
  loaded : Call → Db → Phase
  stored : Call → Answer → Phase
  holding : List ℕ → List ℕ → Phase

-- The constructor of `std::lock_guard` and of `std::unique_lock`; `none` is a thread that waits.
unfoldable pub lock : ℕ → MutexDb → Option MutexDb
lock thread m = elim m.owner [ none ↦ some (record m { owner = some thread }) | some t ↦ none ]

-- Where a call ends: its guard unlocks the mutex, but a `get` that found a value hands it on.
unfoldable pub leave : MutexDb → Call → Answer → MutexDb × Phase
leave m (get k) (found (some v)) = (m, holding k v)
leave m (get k) (found none) = (record m { owner = none }, idle)
leave m c a = (record m { owner = none }, idle)

-- The end of the `std::unique_lock` of a result.
unfoldable pub unlock : MutexDb → MutexDb
unlock m = record m { owner = none }

-- One step of a thread, with the call whose effect it makes.
pub data Move (thread : ℕ) (m : MutexDb)
    : Phase → MutexDb → Phase → List (Call × Answer) → Type 0 where
  enter : {m' : MutexDb} (c : Call) → lock thread m ≡ some m' → Move thread m idle m' (entered c) []
  load : (c : Call) → Move thread m (entered c) m (loaded c m.db) []
  store :
      (c : Call) (db : Db)
      → Move thread m
          (loaded c db)
          (record m { db = (body c db).0 })
          (stored c (body c db).1)
          ((c, (body c db).1) ∷ [])
  exit : (c : Call) (a : Answer) → Move thread m (stored c a) (leave m c a).0 (leave m c a).1 []
  give_up : (k v : List ℕ) → Move thread m (holding k v) (unlock m) idle []

-- The threads, and the calls whose effects were made, the last one first.
pub record System : Type 0 where
  pub mem : MutexDb
  pub phase : ℕ → Phase
  pub log : List (Call × Answer)

abbrev pub init : Db → System
init db = record { mem = record { db = db; owner = none }; phase = λ t. idle; log = [] }

-- The states that the threads reach from `db`, whatever they call and in whatever order they run.
pub data Reach (db : Db) : System → Type 0 where
  start : Reach db (init db)
  later :
      {s : System} {m : MutexDb} {p : Phase} {es : List (Call × Answer)} (thread : ℕ)
      → Reach db s
      → Move thread s.mem (s.phase thread) m p es
      → Reach db (record { mem = m; phase = update s.phase thread p; log = es ++ s.log })
