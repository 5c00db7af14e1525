-- ===== src/Combat.antt =====
-- Combat (internal/combat).
pub mod Ratings
