-- ===== src/Mutex/Laws.antt =====
-- What the mutex gives to the threads.
use unodb.Base.{
  ℕ, List, ◌++◌, Option, none, some, some_inj, ◌≡◌, ◌≢◌, ◌⊎◌, inl, inr, refl, sym, update,
  update-elim,
}
use mathlib.Core.Path.{ap, subst}
use unodb.Art.{Db}
use unodb.Art
use unodb.Mutex.{
  Call, Answer, MutexDb, Phase, System, Move, Reach, get, insert, remove, empty, clear, scan,
  scan_from, scan_range, found, changed, is_empty, cleared, visited, idle, entered, loaded, stored,
  holding, lock, leave, unlock, body, enter, load, store, exit, give_up, start, later,
}
use unodb.Mutex.Defs.{IsHistory, Holds, Inv}

-- Locking finds the mutex free.
lock_cases :
    (t : ℕ) (db : Db) (o : Option ℕ) (m' : MutexDb)
    → lock t (record { db = db; owner = o }) ≡ some m'
    → (o ≡ none) × (m'.owner ≡ some t) × (m'.db ≡ db)
unfolding lock
lock_cases t db none m' e =
    let p = some_inj e in (refl, sym (ap (λ z. z.owner) p), sym (ap (λ z. z.db) p))
lock_cases t db (some o) m' e = cc

-- A thread that relies on something owns the mutex.
owns : (t : ℕ) (m : MutexDb) (p : Phase) → Holds t m p → (p ≡ idle) ⊎ (m.owner ≡ some t)
owns t m idle h = inl refl
owns t m (entered c) h = inr h
owns t m (loaded c db) h = inr h.0
owns t m (stored c a) h = inr h.0
owns t m (holding k v) h = inr h.0

-- A step is taken by the owner, or by a thread that finds the mutex free.
Move-owner :
    (t : ℕ) (m m' : MutexDb) (p p' : Phase) (es : List (Call × Answer))
    → Move t m p m' p' es
    → Holds t m p
    → (m.owner ≡ none) ⊎ (m.owner ≡ some t)
Move-owner t m m' p p' es (enter c e) h = inl (lock_cases t m.db m.owner m' e).0
Move-owner t m m' p p' es (load c) h = inr h
Move-owner t m m' p p' es (store c db) h = inr h.0
Move-owner t m m' p p' es (exit c a) h = inr h.0
Move-owner t m m' p p' es (give_up k v) h = inr h.0

-- A get leaves the database as it found it.
body-get :
    (c : Call) (db : Db) (k v : List ℕ)
    → c ≡ get k
    → (body c db).1 ≡ found (some v)
    → Art.get_internal (body c db).0 k ≡ some v
unfolding body
body-get c db k v e =
    subst (λ (d : Call). (body d db).1 ≡ found (some v) → Art.get_internal (body d db).0 k ≡ some v)
      (sym e) (λ f. cc)

leave-Holds :
    (t : ℕ) (m : MutexDb) (c : Call) (a : Answer)
    → Holds t m (stored c a)
    → Holds t (leave m c a).0 (leave m c a).1 × ((leave m c a).0.db ≡ m.db)
unfolding leave
leave-Holds t m (get k) (found (some v)) (owner, kept) = ((owner, kept k v refl refl), refl)
leave-Holds t m (get k) (found none) h = (tt, refl)
leave-Holds t m (get k) (changed r) h = (tt, refl)
leave-Holds t m (get k) (is_empty b) h = (tt, refl)
leave-Holds t m (get k) cleared h = (tt, refl)
leave-Holds t m (get k) (visited es) h = (tt, refl)
leave-Holds t m (insert new k v) a h = (tt, refl)
leave-Holds t m (remove new k) a h = (tt, refl)
leave-Holds t m empty a h = (tt, refl)
leave-Holds t m clear a h = (tt, refl)
leave-Holds t m (scan fn fwd fuel) a h = (tt, refl)
leave-Holds t m (scan_from k fn fwd fuel) a h = (tt, refl)
leave-Holds t m (scan_range k k' fn fuel) a h = (tt, refl)

-- What the thread that steps relies on afterwards.
Move-Holds :
    (t : ℕ) (m m' : MutexDb) (p p' : Phase) (es : List (Call × Answer))
    → Move t m p m' p' es
    → Holds t m p
    → Holds t m' p'
Move-Holds t m m' p p' es (enter c e) h = (lock_cases t m.db m.owner m' e).1
Move-Holds t m m' p p' es (load c) h = (h, refl)
Move-Holds t m m' p p' es (store c db) (owner, same) = (owner, λ k v e f. body-get c db k v e f)
Move-Holds t m m' p p' es (exit c a) h = (leave-Holds t m c a h).0
Move-Holds t m m' p p' es (give_up k v) h = tt

-- A step makes the effect of at most one call on the database as it is.
Move-IsHistory :
    (base : Db) (log : List (Call × Answer)) (t : ℕ) (m m' : MutexDb) (p p' : Phase)
    (es : List (Call × Answer))
    → Move t m p m' p' es
    → Holds t m p
    → IsHistory base log m.db
    → IsHistory base (es ++ log) m'.db
unfolding unlock
Move-IsHistory base log t m m' p p' es (enter c e) h past =
    subst (IsHistory base log) (sym (lock_cases t m.db m.owner m' e).2) past
Move-IsHistory base log t m m' p p' es (load c) h past = past
Move-IsHistory base log t m m' p p' es (store c db) (owner, same) past =
    (db, subst (IsHistory base log) (sym same) past, refl)
Move-IsHistory base log t m m' p p' es (exit c a) h past =
    subst (IsHistory base log) (sym (leave-Holds t m c a h).1) past
Move-IsHistory base log t m m' p p' es (give_up k v) h past = past

-- The threads that do not step are in no call.
others-idle :
    (base : Db) (s : System) (t : ℕ) (m' : MutexDb) (p' : Phase) (es : List (Call × Answer))
    → Inv base s
    → Move t s.mem (s.phase t) m' p' es
    → (j : ℕ) → t ≢ j
    → s.phase j ≡ idle
others-idle base s t m' p' es inv move j ne = elim (owns j s.mem (s.phase j) (inv.holds j)) [
  | inl out ↦ out
  | inr owner ↦ elim (Move-owner t s.mem m' (s.phase t) p' es move (inv.holds t)) [
    | inl free ↦ cc
    | inr other ↦ let same : t ≡ j = cc in absurd (ne same)
  ]
]

Move-Inv :
    (base : Db) (s : System) (t : ℕ) (m' : MutexDb) (p' : Phase) (es : List (Call × Answer))
    → Inv base s
    → Move t s.mem (s.phase t) m' p' es
    → Inv base (record { mem = m'; phase = update s.phase t p'; log = es ++ s.log })
Move-Inv base s t m' p' es inv move = record {
  holds =
      update-elim (λ j q. Holds j m' q) s.phase t p'
        (Move-Holds t s.mem m' (s.phase t) p' es move (inv.holds t))
        (λ j ne. subst (λ q. Holds j m' q) (sym (others-idle base s t m' p' es inv move j ne)) tt);
  history = Move-IsHistory base s.log t s.mem m' (s.phase t) p' es move (inv.holds t) inv.history;
}

Reach-Inv : (db : Db) (s : System) → Reach db s → Inv db s
Reach-Inv db s start = record { holds = λ t. tt; history = refl }
Reach-Inv db s (later {s = r} {m = m} {p = p} {es = es} t reach move) =
    Move-Inv db r t m p es (Reach-Inv db r reach) move

-- In every state that threads reach, whatever they call and in whatever order their steps come,
-- the answers and the database are those of the calls made one after another, without threads, in
-- the order in which they wrote their results.
pub Reach-IsHistory : (db : Db) (s : System) → Reach db s → IsHistory db s.log s.mem.db
Reach-IsHistory db s reach = (Reach-Inv db s reach).history

-- In every state that threads reach, while a thread holds the result of a get that found a value,
-- the database still has this value for the key, and all other threads are outside of their calls.
pub holding-get_internal :
    (db : Db) (s : System) (t : ℕ) (k v : List ℕ)
    → Reach db s
    → s.phase t ≡ holding k v
    → (Art.get_internal s.mem.db k ≡ some v) × ((j : ℕ) → t ≢ j → s.phase j ≡ idle)
holding-get_internal db s t k v reach e =
    let inv = Reach-Inv db s reach in
    let (owner, kept) = subst (Holds t s.mem) e (inv.holds t) in
    (
      kept,
      λ j ne. elim (owns j s.mem (s.phase j) (inv.holds j)) [
        | inl out ↦ out
        | inr owner' ↦ let same : t ≡ j = cc in absurd (ne same)
      ],
    )
