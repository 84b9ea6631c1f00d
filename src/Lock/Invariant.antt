-- ===== src/Lock/Invariant.antt =====
-- What holds in every reachable state of the lock, as long as the word has not wrapped round.
pub mod Defs
pub mod Acts
pub mod Kept
