-- ===== src/Mutex/Defs.antt =====
-- The invariant of the threads.
use unodb.Base.{ℕ, List, [], ◌∷◌, some, ◌≡◌}
use unodb.Art.{Db}
use unodb.Art
use unodb.Mutex.{
  Call, Answer, MutexDb, Phase, System, get, found, idle, entered, loaded, stored, holding, body,
}

-- The calls, the last one first, give these answers and lead from `base` to `db`, one after
-- another.
abbrev pub IsHistory : Db → List (Call × Answer) → Db → Type 0
IsHistory base [] db = base ≡ db
IsHistory base ((c, a) ∷ log) db = (db' : Db) × IsHistory base log db' × (body c db' ≡ (db, a))

-- What a thread in a phase relies on: it owns the mutex, and the database is still what it read.
abbrev pub Holds : ℕ → MutexDb → Phase → Type 0
Holds t m idle = Unit {0}
Holds t m (entered c) = m.owner ≡ some t
Holds t m (loaded c db) = (m.owner ≡ some t) × (db ≡ m.db)
Holds t m (stored c a) =
    (m.owner ≡ some t)
    × ((k v : List ℕ) → c ≡ get k → a ≡ found (some v) → Art.get_internal m.db k ≡ some v)
Holds t m (holding k v) = (m.owner ≡ some t) × (Art.get_internal m.db k ≡ some v)

pub record Inv (base : Db) (s : System) : Type 0 where
  pub holds : (t : ℕ) → Holds t s.mem (s.phase t)
  pub history : IsHistory base s.log s.mem.db
