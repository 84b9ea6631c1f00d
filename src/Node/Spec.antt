-- ===== src/Node/Spec.antt =====
-- What every node promises of the map from key bytes to children that it stands for. `E b c` says
-- that byte `b` leads to child `c`.
use unodb.Base.{ℕ, ◌≤◌, ◌<◌, ◌≡◌, ◌≢◌, ◌↔◌, ◌⊎◌, Option, none, some}
use unodb.Node.{IterResult}

-- The result of a search for a byte: its child, which `get` has at the index, or nothing where
-- the byte has no child.
abbrev pub IsFound : (ℕ → ℕ → Type 0) → (ℕ → ℕ) → ℕ → Option (ℕ × ℕ) → Type 0
IsFound E get b none = (c : ℕ) → ¬ E b c
IsFound E get b (some r) = E b r.1 × (get r.0 ≡ r.1)

-- The least byte from `b` on that has a child.
abbrev pub IsGte : (ℕ → ℕ → Type 0) → ℕ → Option IterResult → Type 0
IsGte E b none = (b' c : ℕ) → E b' c → b' < b
IsGte E b (some r) =
    ((c : ℕ) × E r.key_byte c) × (b ≤ r.key_byte) × ((b' c : ℕ) → E b' c → b ≤ b' → r.key_byte ≤ b')

-- The greatest byte below `b` that has a child.
abbrev pub IsLt : (ℕ → ℕ → Type 0) → ℕ → Option IterResult → Type 0
IsLt E b none = (b' c : ℕ) → E b' c → b ≤ b'
IsLt E b (some r) =
    ((c : ℕ) × E r.key_byte c) × (r.key_byte < b) × ((b' c : ℕ) → E b' c → b' < b → b' ≤ r.key_byte)

-- A node that maps as `E'` does maps as `E` does, and byte `b` to child `c`.
abbrev pub IsAdded : (ℕ → ℕ → Type 0) → ℕ → ℕ → (ℕ → ℕ → Type 0) → Type 0
IsAdded E b c E' = (b' c' : ℕ) → E' b' c' ↔ (((b' ≡ b) × (c' ≡ c)) ⊎ E b' c')

-- A node that maps as `E'` does maps as `E` does, except for byte `b`.
abbrev pub IsRemoved : (ℕ → ℕ → Type 0) → ℕ → (ℕ → ℕ → Type 0) → Type 0
IsRemoved E b E' = (b' c' : ℕ) → E' b' c' ↔ ((b' ≢ b) × E b' c')

-- A node that maps as `E'` does maps as `E` does, but byte `b` to child `c`.
abbrev pub IsReplaced : (ℕ → ℕ → Type 0) → ℕ → ℕ → (ℕ → ℕ → Type 0) → Type 0
IsReplaced E b c E' = (b' c' : ℕ) → E' b' c' ↔ (((b' ≡ b) × (c' ≡ c)) ⊎ ((b' ≢ b) × E b' c'))
