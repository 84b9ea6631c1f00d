-- ===== src/Art/Runs.antt =====
-- Sequences of insertions and removals against a map from keys to values.
pub mod Laws
use unodb.Base.{ℕ, ◌+◌, ◌≤◌, ◌≡◌, ◌⊎◌, List, [], ◌∷◌, length, Option, none, some, Bool, true, false}
use unodb.Art.{Db, matches}
use unodb.Art.Entries.{IsKey}
use unodb.Art.Insert.{Allocation, Outcome, ok, ◌>>=◌, max_size, insert_internal}
use unodb.Art.Insert.Spec.{IsAllocation}
use unodb.Art.Remove.{remove_internal}

-- A call, with the memory that the allocator gives it.
pub data Call : Type 0 where
  insert : Allocation → List ℕ → List ℕ → Call
  remove : Allocation → List ℕ → Call

abbrev pub call : Call → Db → Outcome (Db × Bool)
call (insert new k v) db = insert_internal new db k v
call (remove new k) db = remove_internal new db k

-- The database that is left, and the answers.
unfoldable pub run : List Call → Db → Outcome (Db × List Bool)
run [] db = ok (db, [])
run (c ∷ cs) db = call c db >>= λ r. run cs r.0 >>= λ s. ok (s.0, r.1 ∷ s.1)

-- The map that the database stands for.
abbrev pub Map : Type 0
Map = List ℕ → Option (List ℕ)

abbrev pub put : Map → List ℕ → Option (List ℕ) → Map
put m k o k' = elim (matches k k') [ true ↦ o | false ↦ m k' ]

abbrev pub map_call : Call → Map → Map × Bool
map_call (insert new k v) m = elim (m k) [ none ↦ (put m k (some v), true) | some w ↦ (m, false) ]
map_call (remove new k) m = elim (m k) [ none ↦ (m, false) | some w ↦ (put m k none, true) ]

unfoldable pub map_run : List Call → Map → Map × List Bool
map_run [] m = (m, [])
map_run (c ∷ cs) m = let r = map_call c m in let s = map_run cs r.0 in (s.0, r.1 ∷ s.1)

-- A call with a key of the right length, a value that is not too long and addresses that the
-- allocator may give.
abbrev pub IsProper : Call → Type 0
IsProper (insert new k v) = IsAllocation new × IsKey k × (length v ≤ max_size)
IsProper (remove new k) = IsAllocation new × IsKey k

-- The addresses that a call may use.
abbrev pub Uses : Call → ℕ → Type 0
Uses (insert new k v) a = (a ≡ new.leaf_ptr) ⊎ (a ≡ new.inode_ptr)
Uses (remove new k) a = (a ≡ new.leaf_ptr) ⊎ (a ≡ new.inode_ptr)

-- Proper calls, each with addresses that no earlier one had.
abbrev pub IsProperRun : List Call → (ℕ → Type 0) → Type 0
IsProperRun [] Used = Unit {0}
IsProperRun (c ∷ cs) Used =
    IsProper c × ((a : ℕ) → Used a → ¬ Uses c a) × IsProperRun cs (λ a. Used a ⊎ Uses c a)

-- The addresses of `Used` and those that the calls may use.
abbrev pub UsedAfter : List Call → (ℕ → Type 0) → ℕ → Type 0
UsedAfter [] Used = Used
UsedAfter (c ∷ cs) Used = UsedAfter cs (λ a. Used a ⊎ Uses c a)
