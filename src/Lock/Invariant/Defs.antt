-- ===== src/Lock/Invariant/Defs.antt =====
-- The invariant of a lock and its threads, and what one action changes.
use unodb.Base.{ℕ, zero, suc, ◌+◌, ◌*◌, ◌%◌, ◌≤◌, ◌≡◌, ◌≢◌, ◌↔◌, List, [], ◌∷◌}
use unodb.Lock.System.{Pc, reading, kept, writing, Shared, System}
use unodb.Lock.Word.{Phase, locked, word_of}

abbrev pub AllEq : ℕ → List ℕ → Type 0
AllEq x [] = Unit {0}
AllEq x (y ∷ seen) = (y ≡ x) × AllEq x seen

-- A section's version is that of a free lock, and while the word is still the same the data is
-- still what the section has seen.
abbrev pub IsFresh : Shared → ℕ → List ℕ → Type 0
IsFresh m v seen = (v % 4 ≡ 0) × (v ≤ 4 * m.releases) × (m.lock.version ≡ v → AllEq m.content seen)

abbrev pub Holds : Shared → Pc → Type 0
Holds m (reading v seen) = IsFresh m v seen
Holds m (kept v seen) = IsFresh m v seen
Holds m _ = Unit {0}

abbrev pub opens : Pc → ℕ
opens (reading v seen) = 1
opens _ = 0

unfoldable pub total : ℕ → (ℕ → Pc) → ℕ
total zero pc = 0
total (suc n) pc = total n pc + opens (pc n)

pub record Inv (n : ℕ) (s : System) : Type 0 where
  pub phase : Phase
  pub word : s.mem.lock.version ≡ word_of phase s.mem.releases
  pub owner : (j : ℕ) → (s.pc j ≡ writing) ↔ (phase ≡ locked j)
  pub section : (j : ℕ) → Holds s.mem (s.pc j)
  pub counted : s.mem.lock.read_lock_count ≡ total n s.pc

-- The effect of one action of thread `i`, which goes from `p` to `r.1`, in phase `old`.
pub record Effect (i : ℕ) (old : Phase) (m : Shared) (p : Pc) (r : Shared × Pc) : Type 0 where
  pub phase : Phase
  pub word : r.0.lock.version ≡ word_of phase r.0.releases
  pub grows : m.releases ≤ r.0.releases
  pub counts : r.0.lock.read_lock_count + opens p ≡ m.lock.read_lock_count + opens r.1
  pub own_phase : (r.1 ≡ writing) ↔ (phase ≡ locked i)
  pub other_phase : (j : ℕ) → i ≢ j → (old ≡ locked j) ↔ (phase ≡ locked j)
  pub own : Holds r.0 r.1
  pub others : (q : Pc) → Holds m q → Holds r.0 q
