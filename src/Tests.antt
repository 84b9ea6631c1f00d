-- ===== src/Tests.antt =====
-- Runs of the definitions on concrete inputs, and the theorems applied to them.
mod Art
mod Encode
mod Lock
mod Mutex
mod Node
mod Prefix
mod Qsbr
