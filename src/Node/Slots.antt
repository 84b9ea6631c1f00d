-- ===== src/Node/Slots.antt =====
-- Arrays of node pointers with `nullptr` in the unused places.
pub mod Laws
use unodb.Base.{ℕ, zero, suc, ◌+◌, Bool, not, if◌then◌else◌, ◌==◌}
use unodb.Node.{nullptr}

-- `ptr != nullptr`
abbrev pub is_child : ℕ → Bool
is_child ptr = not (ptr == nullptr)

-- The number of the first `n` places whose value is not `unused`.
unfoldable pub tally : ℕ → (ℕ → ℕ) → ℕ → ℕ
tally unused f zero = 0
tally unused f (suc n) = tally unused f n + (if f n == unused then 0 else 1)
