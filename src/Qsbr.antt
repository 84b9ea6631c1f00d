-- ===== src/Qsbr.antt =====
-- Quiescent-state-based reclamation (qsbr.hpp, qsbr.cpp).
pub mod State
