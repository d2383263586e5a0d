-- ===== src/Citizens.antt =====
-- Citizenship (obywatele): reputation, its threshold, and the nightly command `count_citizens`.
pub mod Model
pub mod Reputation
pub mod Nightly
