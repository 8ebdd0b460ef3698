-- ===== src/Ai.antt =====
-- trading/ai: the scoring of a trade candidate.
pub mod Scorer
