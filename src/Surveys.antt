-- ===== src/Surveys.antt =====
-- ankiety: surveys with their options and votes.
pub mod Model
pub mod Ballots
pub mod Custom
