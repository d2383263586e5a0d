-- ===== src/Resources.antt =====
-- resources: which offers match the needs of a user.
pub mod Model
pub mod Matching
